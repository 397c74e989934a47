-- ===== src/Db/Queries/Sums.antt =====
-- db.rs: sums of columns, and of the fields of groups.
use xboxproxy.Prelude.{
  ℕ, ◌≤◌, ◌≡◌, refl, ap, ◌∙◌, ℤ, pos, pos_part, neg_part, sub_ℕ, Bool, List, [], ◌∷◌, map, select,
  length, Result, ok, Bool-cases, inl, inr, arith,
}
use xboxproxy.Db.Queries.{SqlError, total, keys_of, collect}
use xboxproxy.Db.Queries.Groups.{group, total-group}

-- The exact sum.
unfoldable pub sum_ℤ : List ℤ → ℤ
sum_ℤ ns = sub_ℕ (total (map pos_part ns)) (total (map neg_part ns))

pub total-select-le :
    {A : Type 0} (w : A → ℕ) (p : A → Bool) (xs : List A)
    → total (map w (select p xs)) ≤ total (map w xs)
total-select-le w p [] = omega arith
total-select-le w p (x ∷ xs) = elim (Bool-cases (p x)) [
  | inl e ↦ rw e (omega (arith, total-select-le w p xs))
  | inr e ↦ rw e (omega (arith, total-select-le w p xs))
]

pub length-total : {A : Type 0} (xs : List A) → length xs ≡ total (map (λ x. 1) xs)
length-total [] = refl
length-total (x ∷ xs) = omega (arith, length-total xs)

pub sum_ℤ-pos : (ns : List ℕ) → sum_ℤ (map pos ns) ≡ pos (total ns)
unfolding sum_ℤ
sum_ℤ-pos ns = rw (parts ns, rest ns) (ground arith)
  where
    parts : (ns : List ℕ) → map pos_part (map pos ns) ≡ ns
    parts [] = refl
    parts (n ∷ ns) = ap (λ l. n ∷ l) (parts ns)

    rest : (ns : List ℕ) → total (map neg_part (map pos ns)) ≡ 0
    rest [] = refl
    rest (n ∷ ns) = omega (arith, rest ns)

pub collect-map :
    {A : Type 0} {B : Type 0} (f : A → Result SqlError B) (g : A → B) (xs : List A)
    → ((x : A) → f x ≡ ok (g x))
    → collect (map f xs) ≡ ok (map g xs)
unfolding collect
collect-map f g [] h = refl
collect-map f g (x ∷ xs) h = rw (h x, collect-map f g xs h) refl

pub map-fields :
    {B : Type 0} (g : B → ℤ) (h : ℤ → B) (n : ℤ → ℕ) (ks : List ℤ)
    → ((k : ℤ) → g (h k) ≡ pos (n k))
    → map g (map h ks) ≡ map pos (map n ks)
map-fields g h n [] e = refl
map-fields g h n (k ∷ ks) e = rw (e k, map-fields g h n ks e) refl

pub map-map_self :
    {B : Type 0} (g : B → ℤ) (h : ℤ → B) (ks : List ℤ)
    → ((k : ℤ) → g (h k) ≡ k)
    → map g (map h ks) ≡ ks
map-map_self g h [] e = refl
map-map_self g h (k ∷ ks) e = rw (e k, map-map_self g h ks e) refl

module _ {A : Type 0} where
  -- A field that weighs the rows of its group has the weight of all rows as its sum.
  pub sum-fields :
      {B : Type 0} (g : B → ℤ) (h : ℤ → B) (key : A → ℤ) (w : A → ℕ) (rows : List (A))
      → ((k : ℤ) → g (h k) ≡ pos (total (map w (group key k rows))))
      → sum_ℤ (map g (map h (keys_of (map key rows)))) ≡ pos (total (map w rows))
  sum-fields g h key w rows e =
      ap sum_ℤ (map-fields g h (λ k. total (map w (group key k rows))) (keys_of (map key rows)) e)
      ∙ sum_ℤ-pos _
      ∙ ap pos (total-group key w rows)
