-- ===== src/Text.antt =====
-- The operations of Rust's `str` that the program uses, on a text as the list of its characters'
-- code points: `==`, `to_ascii_lowercase`, `trim`, `trim_end_matches`, `ends_with`, `split`.
pub mod Equality
pub mod Case
pub mod Suffix
use Prim.Native.Char.{code}
use Prim.Native.String.{String}
use xboxproxy.Prelude.{
  ℕ, ◌+◌, ◌-◌, Bool, true, false, ◌&&◌, ◌||◌, List, [], ◌∷◌, map, Option, none, some, leb, ◌==◌,
  if◌then◌else◌,
}

abbrev pub Text : Type 0
Text = List ℕ

-- A literal of the program.
abbrev pub codes : String → Text
codes String.[] = []
codes (String.◌∷◌ c s) = code c ∷ codes s

unfoldable pub text_eq : Text → Text → Bool
text_eq [] [] = true
text_eq [] (_ ∷ _) = false
text_eq (_ ∷ _) [] = false
text_eq (a ∷ s) (b ∷ t) = a == b && text_eq s t

unfoldable pub to_lower : ℕ → ℕ
to_lower c = if leb b'A' c && leb c b'Z' then c + 32 else c

unfoldable pub to_upper : ℕ → ℕ
to_upper c = if leb b'a' c && leb c b'z' then c - 32 else c

unfoldable pub to_ascii_lowercase : Text → Text
unfolding to_lower
to_ascii_lowercase = map to_lower

-- `a.eq_ignore_ascii_case(b)`
unfoldable pub eq_ignore_ascii_case : Text → Text → Bool
unfolding text_eq to_ascii_lowercase
eq_ignore_ascii_case s t = text_eq (to_ascii_lowercase s) (to_ascii_lowercase t)

-- One character before what is left of the text behind it.
abbrev pub trim_end_cons : (ℕ → Bool) → ℕ → Text → Text
trim_end_cons p c [] = if p c then [] else c ∷ []
trim_end_cons p c (d ∷ s) = c ∷ d ∷ s

unfoldable pub trim_end_by : (ℕ → Bool) → Text → Text
trim_end_by p [] = []
trim_end_by p (c ∷ s) = trim_end_cons p c (trim_end_by p s)

unfoldable pub trim_start_by : (ℕ → Bool) → Text → Text
trim_start_by p [] = []
trim_start_by p (c ∷ s) = let rest = trim_start_by p s in if p c then rest else c ∷ s

unfoldable pub trim_end_matches : ℕ → Text → Text
unfolding trim_end_by
trim_end_matches c = trim_end_by (λ d. d == c)

unfoldable pub trim_start_matches : ℕ → Text → Text
unfolding trim_start_by
trim_start_matches c = trim_start_by (λ d. d == c)

-- Unicode's `White_Space`, as `char::is_whitespace` reads it.
unfoldable pub is_whitespace : ℕ → Bool
is_whitespace c =
    (leb 9 c && leb c 13)
    || c == 0x20
    || c == 0x85
    || c == 0xa0
    || c == 0x1680
    || (leb 0x2000 c && leb c 0x200a)
    || c == 0x2028
    || c == 0x2029
    || c == 0x202f
    || c == 0x205f
    || c == 0x3000

unfoldable pub trim : Text → Text
unfolding trim_start_by trim_end_by is_whitespace
trim s = trim_start_by is_whitespace (trim_end_by is_whitespace s)

-- `s.ends_with(t)`
unfoldable pub ends_with : Text → Text → Bool
unfolding text_eq
ends_with [] t = text_eq [] t
ends_with (c ∷ s) t = text_eq (c ∷ s) t || ends_with s t

-- A part begun by `c`, before the parts of the text behind it.
abbrev pub cons_part : ℕ → List Text → List Text
cons_part c [] = (c ∷ []) ∷ []
cons_part c (s ∷ parts) = (c ∷ s) ∷ parts

-- `s.split(p)`: the parts between the characters with `p`, at least one.
unfoldable pub split_by : (ℕ → Bool) → Text → List Text
split_by p [] = [] ∷ []
split_by p (c ∷ s) = let rest = split_by p s in if p c then [] ∷ rest else cons_part c rest
