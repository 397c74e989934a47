-- ===== src/Net.antt =====
-- `std::net::IpAddr` with its equality and `FromStr`, as the program uses them. The parser is that of
-- the standard library: a recursive descent on what is left of the text.
pub mod Equality
use xboxproxy.Prelude.{
  ℕ, zero, suc, ◌+◌, ◌-◌, ◌*◌, ◌≡◌, refl, Bool, true, false, ◌&&◌, not, List, [], ◌∷◌, ◌++◌, Option,
  none, some, leb, ltb, ◌==◌, if◌then◌else◌, ◌>>=◌, length, replicate,
}
use xboxproxy.Text.{Text, codes, text_eq}

-- An IPv4 address by its four octets, an IPv6 address by its eight groups.
pub data IpAddr : Type 0 where
  v4 : ℕ → ℕ → ℕ → ℕ → IpAddr
  v6 : List ℕ → IpAddr

unfoldable pub ip_eq : IpAddr → IpAddr → Bool
unfolding text_eq
ip_eq (v4 a b c d) (v4 a' b' c' d') = a == a' && b == b' && c == c' && d == d'
ip_eq (v4 a b c d) (v6 g) = false
ip_eq (v6 g) (v4 a b c d) = false
ip_eq (v6 g) (v6 g') = text_eq g g'

-- `char::to_digit(radix)` for the radices 10 and 16.
to_digit : ℕ → ℕ → Option ℕ
to_digit radix c =
    let d =
      if leb b'0' c && leb c b'9'
      then c - b'0'
      else if leb b'a' c && leb c b'f'
      then c - b'a' + 10
      else if leb b'A' c && leb c b'F'
      then c - b'A' + 10
      else 36 in
    if ltb d radix then some d else none

-- The loop of `read_number`: the digits read, their value, and what is left.
read_digits : ℕ → ℕ → ℕ → ℕ → Text → Option (ℕ × ℕ × Text)
unfolding to_digit
read_digits radix max_digits count value [] = some (count, value, [])
read_digits radix max_digits count value (c ∷ s) = elim (to_digit radix c) [
  | none ↦ some (count, value, c ∷ s)
  | some d ↦
      if ltb max_digits (count + 1)
      then none
      else read_digits radix max_digits (count + 1) (value * radix + d) s
]

starts_with_zero : Text → Bool
starts_with_zero [] = false
starts_with_zero (c ∷ s) = c == b'0'

-- `read_number`, into an integer type with values below `bound`.
read_number : ℕ → ℕ → Bool → ℕ → Text → Option (ℕ × Text)
unfolding read_digits starts_with_zero
read_number radix max_digits allow_zero_prefix bound s = do
  (count, value, rest) ← read_digits radix max_digits 0 0 s
  if count == 0
      then none
      else if not allow_zero_prefix && starts_with_zero s && ltb 1 count
      then none
      else if ltb value bound
      then some (value, rest)
      else none

read_given_char : ℕ → Text → Option Text
read_given_char c [] = none
read_given_char c (d ∷ s) = if d == c then some s else none

-- `read_separator`: the separator stands before every part but the first.
read_separator : ℕ → ℕ → Text → Option Text
unfolding read_given_char
read_separator sep zero s = some s
read_separator sep (suc i) s = read_given_char sep s

read_octet : ℕ → Text → Option (ℕ × Text)
unfolding read_number read_separator
read_octet i s = do s' ← read_separator b'.' i s; read_number 10 3 false 256 s'

read_ipv4_addr : Text → Option ((ℕ × ℕ × ℕ × ℕ) × Text)
unfolding read_octet
read_ipv4_addr s = do
  (a, s1) ← read_octet 0 s
  (b, s2) ← read_octet 1 s1
  (c, s3) ← read_octet 2 s2
  (d, s4) ← read_octet 3 s3
  some ((a, b, c, d), s4)

-- `read_groups` on the slots from `i` on, `left` of them: the groups and whether an embedded IPv4
-- address ended them. An embedded address takes two slots.
read_groups : ℕ → ℕ → Text → List ℕ × Bool × Text
unfolding read_ipv4_addr read_number read_separator
read_groups zero i s = ([], false, s)
read_groups (suc left) i s =
    let group = (do s' ← read_separator b':' i s; read_number 16 4 true 65536 s') in
    let one_group = elim group as (λ _. List ℕ × Bool × Text) [
      | none ↦ ([], false, s)
      | some (g, rest) ↦
          let (gs, ended, rest') = read_groups left (suc i) rest in (g ∷ gs, ended, rest')
    ] in
    let embedded = (do s' ← read_separator b':' i s; read_ipv4_addr s') in
    if left == 0 then one_group else elim embedded as (λ _. List ℕ × Bool × Text) [
      | none ↦ one_group
      | some ((a, b, c, d), rest) ↦ ((a * 256 + b) ∷ (c * 256 + d) ∷ [], true, rest)
    ]

read_ipv6_addr : Text → Option (List ℕ × Text)
unfolding read_groups read_given_char
read_ipv6_addr s =
    let (head, head_ipv4, s1) = read_groups 8 0 s in
    if length head == 8 then some (head, s1) else if head_ipv4 then none else (do
      s2 ← read_given_char b':' s1
      s3 ← read_given_char b':' s2
      let back = read_groups (7 - length head) 0 s3
      some (head ++ (replicate (8 - length head - length back.0) 0 ++ back.0), back.2))

all_read {ℓ} : {A : Type ℓ} → A → Text → Option A
all_read a [] = some a
all_read a (c ∷ s) = none

-- `raw.parse::<Ipv4Addr>()`, as an `IpAddr::V4`.
unfoldable pub parse_ipv4 : Text → Option IpAddr
unfolding read_ipv4_addr all_read
parse_ipv4 s =
    if ltb 15 (length s)
    then none
    else (do ((a, b, c, d), rest) ← read_ipv4_addr s; all_read (v4 a b c d) rest)

-- `IpAddr::read_ip_addr`: an IPv4 address, else an IPv6 address.
read_ip_addr : Text → Option (IpAddr × Text)
unfolding read_ipv4_addr read_ipv6_addr
read_ip_addr s = elim (read_ipv4_addr s) [
  | some ((a, b, c, d), rest) ↦ some (v4 a b c d, rest)
  | none ↦ (do (groups, rest) ← read_ipv6_addr s; some (v6 groups, rest))
]

-- `token.parse::<IpAddr>()`
unfoldable pub parse_ip : Text → Option IpAddr
unfolding read_ip_addr all_read
parse_ip s = do (ip, rest) ← read_ip_addr s; all_read ip rest

parses_v4 : parse_ip (codes "112.64.213.194") ≡ some (v4 112 64 213 194)
unfolding parse_ip
parses_v4 = refl

rejects :
    (parse_ipv4 (codes "1.2.3") ≡ none)
    × (parse_ipv4 (codes "1.2.3.256") ≡ none)
    × (parse_ipv4 (codes "1.02.3.4") ≡ none)
    × (parse_ip (codes "XboxCn1") ≡ none)
    × (parse_ip (codes "") ≡ none)
unfolding parse_ip parse_ipv4
rejects = (refl, refl, refl, refl, refl)

parses_v6 :
    (parse_ip (codes "2001:db8::1") ≡ some (v6 (0x2001 ∷ 0xdb8 ∷ 0 ∷ 0 ∷ 0 ∷ 0 ∷ 0 ∷ 1 ∷ [])))
    × (parse_ip (codes "::ffff:1.2.3.4")
        ≡ some (v6 (0 ∷ 0 ∷ 0 ∷ 0 ∷ 0 ∷ 0xffff ∷ 0x102 ∷ 0x304 ∷ [])))
unfolding parse_ip
parses_v6 = (refl, refl)
