-- ===== src/Candidates/Ranking.antt =====
-- The largest element and the sort, for a comparison that orders the elements with `P`.
use mathlib.Core.List.{Perm}
use mathlib.Core.List.Perm
use xboxproxy.Prelude.{
  ◌≡◌, refl, true, false, List, [], ◌∷◌, Ordering, Memᴰ, All, Bool-cases, inl, inr,
}
use xboxproxy.Prelude.{if◌then◌else◌}
use xboxproxy.Float.{is_gt}
use xboxproxy.Candidates.{max_from, insert_by, sort_by}

module _ {A : Type 0} (cmp : A → A → Ordering) where
  pub max_from-Memᴰ : (best : A) (xs : List A) → Memᴰ (max_from cmp best xs) (best ∷ xs)
  unfolding max_from
  max_from-Memᴰ best [] = Memᴰ.head refl
  max_from-Memᴰ best (x ∷ xs) = elim (Bool-cases (is_gt (cmp best x))) [
    | inl e ↦ rw e (skip (max_from-Memᴰ best xs))
    | inr e ↦ rw e (Memᴰ.tail (max_from-Memᴰ x xs))
  ]
    where
      skip : {a : A} → Memᴰ a (best ∷ xs) → Memᴰ a (best ∷ x ∷ xs)
      skip (Memᴰ.head e) = Memᴰ.head e
      skip (Memᴰ.tail m) = Memᴰ.tail (Memᴰ.tail m)

  insert_by-perm : (x : A) (xs : List A) → Perm (insert_by cmp x xs) (x ∷ xs)
  unfolding insert_by
  insert_by-perm x [] = Perm.refl (x ∷ [])
  insert_by-perm x (y ∷ ys) = elim (Bool-cases (is_gt (cmp x y))) [
    | inl e ↦ rw e (Perm.trans (Perm.cons y (insert_by-perm x ys)) (Perm.swap x y ys))
    | inr e ↦ rw e (Perm.refl (x ∷ y ∷ ys))
  ]

  pub sort_by-perm : (xs : List A) → Perm (sort_by cmp xs) xs
  unfolding sort_by
  sort_by-perm [] = Perm.refl []
  sort_by-perm (x ∷ xs) =
      Perm.trans (insert_by-perm x (sort_by cmp xs)) (Perm.cons x (sort_by-perm xs))

  -- No element compares above a later one.
  abbrev pub IsSortedBy : List A → Type 0
  IsSortedBy [] = Unit
  IsSortedBy (x ∷ xs) = All (λ y. is_gt (cmp x y) ≡ false) xs × IsSortedBy xs

  -- The comparison orders the elements with `P`.
  pub record Orders (P : A → Type 0) : Type 0 where
    pub asymm : (x y : A) → P x → P y → is_gt (cmp x y) ≡ true → is_gt (cmp y x) ≡ false
    pub trans :
        (x y z : A)
        → P x
        → P y
        → P z
        → is_gt (cmp x y) ≡ false
        → is_gt (cmp y z) ≡ false
        → is_gt (cmp x z) ≡ false

module _ {A : Type 0} (cmp : A → A → Ordering) {P : A → Type 0} (o : Orders cmp P) where
  not_gt_self : (x : A) → P x → is_gt (cmp x x) ≡ false
  not_gt_self x p = elim (Bool-cases (is_gt (cmp x x))) [ inl e ↦ o.asymm x x p p e | inr e ↦ e ]

  pub max_from-P : (best : A) (xs : List A) → P best → All P xs → P (max_from cmp best xs)
  unfolding max_from
  max_from-P best [] p h = p
  max_from-P best (x ∷ xs) p (q, h) = elim (Bool-cases (is_gt (cmp best x))) [
    | inl e ↦ rw e (max_from-P best xs p h)
    | inr e ↦ rw e (max_from-P x xs q h)
  ]

  -- The element that a round of the loop keeps compares below neither of the two.
  later_of :
      (best x : A)
      → P best
      → P x
      → let next = if is_gt (cmp best x) then best else x in
        P next × (is_gt (cmp best next) ≡ false) × (is_gt (cmp x next) ≡ false)
  later_of best x p q = elim (Bool-cases (is_gt (cmp best x))) [
    | inl e ↦ rw e (p, not_gt_self best p, o.asymm best x p q e)
    | inr e ↦ rw e (q, e, not_gt_self x q)
  ]

  -- No element compares above the largest.
  pub max_from_upper :
      (best : A) (xs : List A)
      → P best
      → All P xs
      → All (λ x. is_gt (cmp x (max_from cmp best xs)) ≡ false) (best ∷ xs)
  unfolding max_from
  max_from_upper best [] p h = (not_gt_self best p, tt)
  max_from_upper best (x ∷ xs) p (q, h) =
      let next = if is_gt (cmp best x) then best else x in
      let (n, e, k) = later_of best x p q in
      let (b, r) = max_from_upper next xs n h in
      let m = max_from-P next xs n h in
      (o.trans best next _ p n m e b, (o.trans x next _ q n m k b, r))

  above-All :
      (x y : A) (ys : List A)
      → P x
      → P y
      → All P ys
      → is_gt (cmp x y) ≡ false
      → All (λ z. is_gt (cmp y z) ≡ false) ys
      → All (λ z. is_gt (cmp x z) ≡ false) ys
  above-All x y [] p q h e a = tt
  above-All x y (z ∷ zs) p q (r, h) e (b, a) = (o.trans x y z p q r e b, above-All x y zs p q h e a)

  insert_by-All :
      (Q : A → Type 0) (x : A) (ys : List A) → Q x → All Q ys → All Q (insert_by cmp x ys)
  unfolding insert_by
  insert_by-All Q x [] q h = (q, tt)
  insert_by-All Q x (y ∷ ys) q (r, h) = elim (Bool-cases (is_gt (cmp x y))) [
    | inl e ↦ rw e (r, insert_by-All Q x ys q h)
    | inr e ↦ rw e (q, (r, h))
  ]

  insert_by-IsSortedBy :
      (x : A) (ys : List A)
      → P x
      → All P ys
      → IsSortedBy cmp ys
      → IsSortedBy cmp (insert_by cmp x ys)
  unfolding insert_by
  insert_by-IsSortedBy x [] p h s = (tt, tt)
  insert_by-IsSortedBy x (y ∷ ys) p (q, h) (a, s) = elim (Bool-cases (is_gt (cmp x y))) [
    | inl e ↦ rw e (
      insert_by-All (λ z. is_gt (cmp y z) ≡ false) x ys (o.asymm x y p q e) a,
      insert_by-IsSortedBy x ys p h s,
    )
    | inr e ↦ rw e ((e, above-All x y ys p q h e a), (a, s))
  ]

  sort_by-All : (xs : List A) → All P xs → All P (sort_by cmp xs)
  unfolding sort_by
  sort_by-All [] h = tt
  sort_by-All (x ∷ xs) (p, h) = insert_by-All P x (sort_by cmp xs) p (sort_by-All xs h)

  pub sort_by-IsSortedBy : (xs : List A) → All P xs → IsSortedBy cmp (sort_by cmp xs)
  unfolding sort_by
  sort_by-IsSortedBy [] h = tt
  sort_by-IsSortedBy (x ∷ xs) (p, h) =
      insert_by-IsSortedBy x (sort_by cmp xs) p (sort_by-All xs h) (sort_by-IsSortedBy xs h)
