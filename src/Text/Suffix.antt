-- ===== src/Text/Suffix.antt =====
-- `ends_with` decides whether a text is some prefix followed by the suffix.
use xboxproxy.Prelude.{◌≡◌, refl, ap, ◌↔◌, true, [], ◌∷◌, ◌++◌, arith, Bool-cases, inl, inr}
use xboxproxy.Text.{Text, text_eq, ends_with}
use xboxproxy.Text.Equality.{text_eq_iff, text_eq_refl}

prefix_of_ends_with : (s t : Text) → ends_with s t ≡ true → (p : Text) × (s ≡ p ++ t)
unfolding ends_with
prefix_of_ends_with [] t h = ([], (text_eq_iff [] t).0 h)
prefix_of_ends_with (c ∷ s) t h = elim (Bool-cases (text_eq (c ∷ s) t)) [
  | inl e ↦ ([], (text_eq_iff (c ∷ s) t).0 e)
  | inr e ↦ let (p, q) = prefix_of_ends_with s t (rw e at h) in (c ∷ p, ap (λ r. c ∷ r) q)
]

ends_with_self : (t : Text) → ends_with t t ≡ true
unfolding ends_with
ends_with_self [] = refl
ends_with_self (c ∷ t) = rw (text_eq_refl (c ∷ t))

ends_with-append : (p t : Text) → ends_with (p ++ t) t ≡ true
unfolding ends_with
ends_with-append [] t = ends_with_self t
ends_with-append (c ∷ p) t = rw (ends_with-append p t) (ground arith)

pub ends_with_iff : (s t : Text) → (ends_with s t ≡ true) ↔ ((p : Text) × (s ≡ p ++ t))
ends_with_iff s t = (prefix_of_ends_with s t, λ e. rw e.1 (ends_with-append e.0 t))
