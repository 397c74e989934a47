-- ===== src/Net/Equality.antt =====
-- `==` on addresses decides equality.
use xboxproxy.Prelude.{◌≡◌, ◌↔◌, true, ap, arith}
use xboxproxy.Net.{IpAddr, v4, v6, ip_eq}
use xboxproxy.Text.Equality.{text_eq_iff, text_eq_refl}

eq_of_ip_eq : (a b : IpAddr) → ip_eq a b ≡ true → a ≡ b
unfolding ip_eq
eq_of_ip_eq (v4 a b c d) (v4 a' b' c' d') h = ground arith
eq_of_ip_eq (v4 a b c d) (v6 g) h = ground arith
eq_of_ip_eq (v6 g) (v4 a b c d) h = ground arith
eq_of_ip_eq (v6 g) (v6 g') h = ap v6 ((text_eq_iff g g').0 h)

pub ip_eq_refl : (a : IpAddr) → ip_eq a a ≡ true
unfolding ip_eq
ip_eq_refl (v4 a b c d) = ground arith
ip_eq_refl (v6 g) = text_eq_refl g

pub ip_eq_iff : (a b : IpAddr) → (ip_eq a b ≡ true) ↔ (a ≡ b)
ip_eq_iff a b = (eq_of_ip_eq a b, λ e. rw e (ip_eq_refl b))
