-- ===== src/Text/Case.antt =====
-- Lower case, and the trimming of final characters.
use xboxproxy.Prelude.{
  ℕ, ◌≡◌, refl, ap, Bool, [], ◌∷◌, ◌++◌, map, arith, ◌==◌, replicate, zero, suc, ==_refl,
}
use xboxproxy.Text.{
  Text, to_lower, to_upper, to_ascii_lowercase, trim_end_cons, trim_end_by, trim_end_matches,
}

-- `to_ascii_uppercase`
abbrev pub to_ascii_uppercase : Text → Text
to_ascii_uppercase = map to_upper

to_lower_idem : (c : ℕ) → to_lower (to_lower c) ≡ to_lower c
unfolding to_lower
to_lower_idem c = ground arith

to_lower-to_upper : (c : ℕ) → to_lower (to_upper c) ≡ to_lower c
unfolding to_lower to_upper
to_lower-to_upper c = ground arith

pub to_lower-eq-dot : (c : ℕ) → (to_lower c == b'.') ≡ (c == b'.')
unfolding to_lower
to_lower-eq-dot c = ground arith

pub to_ascii_lowercase_idem :
    (s : Text) → to_ascii_lowercase (to_ascii_lowercase s) ≡ to_ascii_lowercase s
unfolding to_ascii_lowercase
to_ascii_lowercase_idem [] = refl
to_ascii_lowercase_idem (c ∷ s) = cc (to_lower_idem c, to_ascii_lowercase_idem s)

pub to_ascii_lowercase-to_ascii_uppercase :
    (s : Text) → to_ascii_lowercase (to_ascii_uppercase s) ≡ to_ascii_lowercase s
unfolding to_ascii_lowercase
to_ascii_lowercase-to_ascii_uppercase [] = refl
to_ascii_lowercase-to_ascii_uppercase (c ∷ s) =
    cc (to_lower-to_upper c, to_ascii_lowercase-to_ascii_uppercase s)

-- A test that ignores case sees the same final characters.
pub trim_end_by-to_ascii_lowercase :
    (p : ℕ → Bool) (s : Text)
    → ((c : ℕ) → p (to_lower c) ≡ p c)
    → trim_end_by p (to_ascii_lowercase s) ≡ to_ascii_lowercase (trim_end_by p s)
unfolding trim_end_by to_ascii_lowercase
trim_end_by-to_ascii_lowercase p [] h = refl
trim_end_by-to_ascii_lowercase p (c ∷ s) h =
    rw (trim_end_by-to_ascii_lowercase p s h) (cons (trim_end_by p s))
  where
    cons :
        (t : Text)
        → trim_end_cons p (to_lower c) (to_ascii_lowercase t)
          ≡ to_ascii_lowercase (trim_end_cons p c t)
    cons [] = ground (arith, h c)
    cons (d ∷ t) = refl

pub trim_end_by_idem : (p : ℕ → Bool) (s : Text) → trim_end_by p (trim_end_by p s) ≡ trim_end_by p s
unfolding trim_end_by
trim_end_by_idem p [] = refl
trim_end_by_idem p (c ∷ s) = cons (trim_end_by p s) (trim_end_by_idem p s)
  where
    cons :
        (t : Text) → trim_end_by p t ≡ t → trim_end_by p (trim_end_cons p c t) ≡ trim_end_cons p c t
    cons [] h = ground arith
    cons (d ∷ t) h = ap (trim_end_cons p c) h

pub trim_end_by-append :
    (p : ℕ → Bool) (s t : Text) → trim_end_by p t ≡ [] → trim_end_by p (s ++ t) ≡ trim_end_by p s
unfolding trim_end_by
trim_end_by-append p [] t h = h
trim_end_by-append p (c ∷ s) t h = ap (trim_end_cons p c) (trim_end_by-append p s t h)

pub trim_end_matches-replicate : (c n : ℕ) → trim_end_matches c (replicate n c) ≡ []
unfolding trim_end_matches
trim_end_matches-replicate c zero = refl
trim_end_matches-replicate c (suc n) = rw (trim_end_matches-replicate c n) (rw (==_refl c))
