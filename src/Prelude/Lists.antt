-- ===== src/Prelude/Lists.antt =====
-- Lists measured and indexed by native numbers, under the library's names, and predicates on them.
use Prim.Native.Nat.{ℕ, zero, suc}
use mathlib.Core.Path.{◌≡◌, refl, ap}
use mathlib.Core.Logic.{◌≢◌, ◌⊎◌, inl, inr}
use mathlib.Core.Bool.{Bool, true, false, not, ◌&&◌, ◌||◌}
use mathlib.Core.List.{List, [], ◌∷◌, ◌++◌, map, Memᴰ, reverse_aux}
use mathlib.Core.List.Memᴰ
use mathlib.Core.Option.{Option, none, some}
use native.Mathlib.Omega.{arith}
use xboxproxy.Prelude.Tests.{if◌then◌else◌, Bool-cases}

module _ {ℓ} {A : Type ℓ} where
  abbrev pub length : List A → ℕ
  length [] = 0
  length (x ∷ xs) = suc (length xs)

  abbrev pub get_elem? : List A → ℕ → Option A
  get_elem? [] i = none
  get_elem? (x ∷ xs) zero = some x
  get_elem? (x ∷ xs) (suc i) = get_elem? xs i

  abbrev pub replicate : ℕ → A → List A
  replicate zero a = []
  replicate (suc n) a = a ∷ replicate n a

  -- `v[i] = f(v[i])`; out of bounds nothing changes.
  abbrev pub modify : List A → ℕ → (A → A) → List A
  modify [] i f = []
  modify (x ∷ xs) zero f = f x ∷ xs
  modify (x ∷ xs) (suc i) f = x ∷ modify xs i f

  -- `iter().filter(p)`
  abbrev pub select : (A → Bool) → List A → List A
  select p [] = []
  select p (x ∷ xs) = let rest = select p xs in if p x then x ∷ rest else rest

  -- `iter().any(p)`
  abbrev pub any : (A → Bool) → List A → Bool
  any p [] = false
  any p (x ∷ xs) = p x || any p xs

  abbrev pub is_empty : List A → Bool
  is_empty [] = true
  is_empty (x ∷ xs) = false

  abbrev pub take : ℕ → List A → List A
  take zero xs = []
  take (suc n) [] = []
  take (suc n) (x ∷ xs) = x ∷ take n xs

  -- `iter_mut().find(p)` followed by a change of what it found.
  abbrev pub update_first : (A → Bool) → (A → A) → List A → List A
  update_first p f [] = []
  update_first p f (x ∷ xs) = let rest = update_first p f xs in if p x then f x ∷ xs else x ∷ rest

  pub get_elem?-modify_self :
      (xs : List A) (i : ℕ) (f : A → A) {x : A}
      → get_elem? xs i ≡ some x
      → get_elem? (modify xs i f) i ≡ some (f x)
  get_elem?-modify_self [] i f h = absurd (ground arith)
  get_elem?-modify_self (x ∷ xs) zero f h = ground arith
  get_elem?-modify_self (x ∷ xs) (suc i) f h = get_elem?-modify_self xs i f h

  pub modify-modify :
      (xs : List A) (i : ℕ) (f g : A → A) → modify (modify xs i f) i g ≡ modify xs i (λ x. g (f x))
  modify-modify [] i f g = refl
  modify-modify (x ∷ xs) zero f g = refl
  modify-modify (x ∷ xs) (suc i) f g = ap (λ l. x ∷ l) (modify-modify xs i f g)

  pub get_elem?-modify_ne :
      (xs : List A) (i j : ℕ) (f : A → A) → i ≢ j → get_elem? (modify xs i f) j ≡ get_elem? xs j
  get_elem?-modify_ne [] i j f h = refl
  get_elem?-modify_ne (x ∷ xs) zero zero f h = absurd (h refl)
  get_elem?-modify_ne (x ∷ xs) zero (suc j) f h = refl
  get_elem?-modify_ne (x ∷ xs) (suc i) zero f h = refl
  get_elem?-modify_ne (x ∷ xs) (suc i) (suc j) f h =
      get_elem?-modify_ne xs i j f (λ e. h (ap suc e))

-- A predicate of every element.
abbrev pub All {ℓ κ} : {A : Type ℓ} → (A → Type κ) → List A → Type κ
All P [] = Unit
All P (x ∷ xs) = P x × All P xs

module _ {ℓ κ} {A : Type ℓ} (P : A → Type κ) where
  pub All-modify :
      (xs : List A) (i : ℕ) (f : A → A)
      → ((x : A) → P x → P (f x))
      → All P xs
      → All P (modify xs i f)
  All-modify [] i f keep h = h
  All-modify (x ∷ xs) zero f keep (p, h) = (keep x p, h)
  All-modify (x ∷ xs) (suc i) f keep (p, h) = (p, All-modify xs i f keep h)

  pub All-append : (xs ys : List A) → All P xs → All P ys → All P (xs ++ ys)
  All-append [] ys h k = k
  All-append (x ∷ xs) ys (p, h) k = (p, All-append xs ys h k)

  pub All-get_elem? : (xs : List A) (i : ℕ) {x : A} → All P xs → get_elem? xs i ≡ some x → P x
  All-get_elem? [] i h e = absurd (ground arith)
  All-get_elem? (x ∷ xs) zero (p, h) e = ground arith
  All-get_elem? (x ∷ xs) (suc i) (p, h) e = All-get_elem? xs i h e

  pub All-Memᴰ : (xs : List A) → ((x : A) → Memᴰ x xs → P x) → All P xs
  All-Memᴰ [] h = tt
  All-Memᴰ (x ∷ xs) h = (h x (Memᴰ.head refl), All-Memᴰ xs (λ y m. h y (Memᴰ.tail m)))

module _ {ℓ} {A : Type ℓ} where
  pub Memᴰ-get_elem? : (xs : List A) (i : ℕ) {x : A} → get_elem? xs i ≡ some x → Memᴰ x xs
  Memᴰ-get_elem? [] i e = absurd (ground arith)
  Memᴰ-get_elem? (x ∷ xs) zero e = Memᴰ.head (ground arith)
  Memᴰ-get_elem? (x ∷ xs) (suc i) e = Memᴰ.tail (Memᴰ-get_elem? xs i e)

module _ {ℓ κ} {A : Type ℓ} (P : A → Type κ) where
  pub All-at : (xs : List A) {a : A} → All P xs → Memᴰ a xs → P a
  All-at [] h m = absurd (Memᴰ.not-nil m)
  All-at (x ∷ xs) h (Memᴰ.head e) = rw e h.0
  All-at (x ∷ xs) h (Memᴰ.tail m) = All-at xs h.1 m

  pub All-select : (p : A → Bool) (xs : List A) → All P xs → All P (select p xs)
  All-select p [] h = h
  All-select p (x ∷ xs) (q, h) = elim (Bool-cases (p x)) [
    | inl e ↦ rw e (q, All-select p xs h)
    | inr e ↦ rw e (All-select p xs h)
  ]

module _ {ℓ} {A : Type ℓ} (p : A → Bool) where
  select_cons :
      (x : A) (xs : List A) {a : A}
      → Memᴰ a (if p x then x ∷ xs else xs)
      → (a ≡ x) × (p a ≡ true) ⊎ Memᴰ a xs
  select_cons x xs m = elim (Bool-cases (p x)) [
    | inl e ↦ kept e (rw e at m)
    | inr e ↦ inr (rw e at m)
  ]
    where
      kept : {a : A} → p x ≡ true → Memᴰ a (x ∷ xs) → (a ≡ x) × (p a ≡ true) ⊎ Memᴰ a xs
      kept e (Memᴰ.head q) = inl (q, rw q e)
      kept e (Memᴰ.tail m) = inr m

  -- What a filter keeps.
  pub Memᴰ-select : (xs : List A) {a : A} → Memᴰ a (select p xs) → Memᴰ a xs × (p a ≡ true)
  Memᴰ-select [] m = absurd (Memᴰ.not-nil m)
  Memᴰ-select (x ∷ xs) m = elim (select_cons x (select p xs) m) [
    | inl e ↦ (Memᴰ.head e.0, e.1)
    | inr r ↦ let (n, e) = Memᴰ-select xs r in (Memᴰ.tail n, e)
  ]

  pub select-Memᴰ : (xs : List A) {a : A} → Memᴰ a xs → p a ≡ true → Memᴰ a (select p xs)
  select-Memᴰ [] m e = absurd (Memᴰ.not-nil m)
  select-Memᴰ (x ∷ xs) (Memᴰ.head q) e = rw (rw q at e) (Memᴰ.head q)
  select-Memᴰ (x ∷ xs) (Memᴰ.tail m) e = elim (Bool-cases (p x)) [
    | inl k ↦ rw k (Memᴰ.tail (select-Memᴰ xs m e))
    | inr k ↦ rw k (select-Memᴰ xs m e)
  ]

  pub is_empty-select : (xs : List A) → is_empty (select p xs) ≡ not (any p xs)
  is_empty-select [] = refl
  is_empty-select (x ∷ xs) = ground (arith, is_empty-select xs)

  pub any-Memᴰ : (xs : List A) {a : A} → Memᴰ a xs → p a ≡ true → any p xs ≡ true
  any-Memᴰ [] m e = absurd (Memᴰ.not-nil m)
  any-Memᴰ (x ∷ xs) (Memᴰ.head q) e = rw (rw q at e)
  any-Memᴰ (x ∷ xs) (Memᴰ.tail m) e = let h = any-Memᴰ xs m e in ground arith

module _ {ℓ κ} {A : Type ℓ} {B : Type κ} where
  pub map-modify :
      (g : A → B) (xs : List A) (i : ℕ) (f : A → A)
      → ((x : A) → g (f x) ≡ g x)
      → map g (modify xs i f) ≡ map g xs
  map-modify g [] i f same = refl
  map-modify g (x ∷ xs) zero f same = ap (λ b. b ∷ map g xs) (same x)
  map-modify g (x ∷ xs) (suc i) f same = ap (λ l. g x ∷ l) (map-modify g xs i f same)

  pub map-select :
      (g : A → B) (p : B → Bool) (xs : List A)
      → map g (select (λ x. p (g x)) xs) ≡ select p (map g xs)
  map-select g p [] = refl
  map-select g p (x ∷ xs) = elim (Bool-cases (p (g x))) [
    | inl e ↦ rw e (ap (λ l. g x ∷ l) (map-select g p xs))
    | inr e ↦ rw e (map-select g p xs)
  ]

  pub map-reverse_aux :
      (g : A → B) (xs ys : List A) → map g (reverse_aux xs ys) ≡ reverse_aux (map g xs) (map g ys)
  map-reverse_aux g [] ys = refl
  map-reverse_aux g (x ∷ xs) ys = map-reverse_aux g xs (x ∷ ys)

  pub map-take : (g : A → B) (n : ℕ) (xs : List A) → map g (take n xs) ≡ take n (map g xs)
  map-take g zero xs = refl
  map-take g (suc n) [] = refl
  map-take g (suc n) (x ∷ xs) = ap (λ l. g x ∷ l) (map-take g n xs)

module _ {ℓ} {A : Type ℓ} where
  pub select-append :
      (p : A → Bool) (xs ys : List A) → select p (xs ++ ys) ≡ select p xs ++ select p ys
  select-append p [] ys = refl
  select-append p (x ∷ xs) ys = elim (Bool-cases (p x)) [
    | inl e ↦ rw e (ap (λ l. x ∷ l) (select-append p xs ys))
    | inr e ↦ rw e (select-append p xs ys)
  ]

  pub select_all : (xs : List A) → select (λ x. true) xs ≡ xs
  select_all [] = refl
  select_all (x ∷ xs) = ap (λ l. x ∷ l) (select_all xs)

  pub select-select :
      (p q : A → Bool) (xs : List A) → select q (select p xs) ≡ select (λ x. p x && q x) xs
  select-select p q [] = refl
  select-select p q (x ∷ xs) = elim (Bool-cases (p x)) [
    | inl e ↦ rw e (ap (λ l. if q x then x ∷ l else l) (select-select p q xs))
    | inr e ↦ rw e (select-select p q xs)
  ]
