-- ===== src/Db/Queries/Groups.antt =====
-- db.rs: `GROUP BY`. The groups of the rows share them out.
use mathlib.Core.Path.{subst}
use mathlib.Core.List.Memᴰ
use xboxproxy.Prelude.{
  ℕ, ◌+◌, ◌≡◌, refl, sym, ap, ◌∙◌, ℤ, pos, negsuc, ltb_ℤ, eq_ℤ, true, false, List, [], ◌∷◌, map,
  select, All, All-Memᴰ, Memᴰ, if◌then◌else◌, ◌∙◌, Bool-cases, inl, inr, arith,
}
use xboxproxy.Db.Queries.{total, insert_key, keys_of}

abbrev pub IsAscending : List ℤ → Type 0
IsAscending [] = Unit
IsAscending (k ∷ ks) = All (λ j. ltb_ℤ k j ≡ true) ks × IsAscending ks

ltb_ℤ-trans : (a b c : ℤ) → ltb_ℤ a b ≡ true → ltb_ℤ b c ≡ true → ltb_ℤ a c ≡ true
ltb_ℤ-trans a b c h k = ground arith

ltb_ℤ-total : (a b : ℤ) → eq_ℤ a b ≡ false → ltb_ℤ a b ≡ false → ltb_ℤ b a ≡ true
ltb_ℤ-total a b h k = ground arith

eq_ℤ-ltb : (a b : ℤ) → ltb_ℤ a b ≡ true → eq_ℤ a b ≡ false
eq_ℤ-ltb a b h = ground arith

eq_ℤ-self : (a : ℤ) → eq_ℤ a a ≡ true
eq_ℤ-self a = ground arith

eq_ℤ-≡ : (a b : ℤ) → eq_ℤ a b ≡ true → a ≡ b
eq_ℤ-≡ (pos m) (pos n) h = ap pos (ground arith)
eq_ℤ-≡ (pos m) (negsuc n) h = absurd (ground arith)
eq_ℤ-≡ (negsuc m) (pos n) h = absurd (ground arith)
eq_ℤ-≡ (negsuc m) (negsuc n) h = ap negsuc (ground arith)

module _ (P : ℤ → Type 0) where
  All-insert_key : (k : ℤ) (js : List ℤ) → P k → All P js → All P (insert_key k js)
  unfolding insert_key
  All-insert_key k [] p h = (p, tt)
  All-insert_key k (j ∷ js) p (q, h) = elim (Bool-cases (eq_ℤ k j)) [
    | inl e ↦ rw e (q, h)
    | inr e ↦ elim (Bool-cases (ltb_ℤ k j)) [
      | inl l ↦ rw (e, l) (p, (q, h))
      | inr l ↦ rw (e, l) (q, All-insert_key k js p h)
    ]
  ]

ltb_ℤ-All :
    (k j : ℤ) (js : List ℤ)
    → ltb_ℤ k j ≡ true
    → All (λ i. ltb_ℤ j i ≡ true) js
    → All (λ i. ltb_ℤ k i ≡ true) js
ltb_ℤ-All k j [] h a = tt
ltb_ℤ-All k j (i ∷ is) h (b, a) = (ltb_ℤ-trans k j i h b, ltb_ℤ-All k j is h a)

insert_key-IsAscending : (k : ℤ) (js : List ℤ) → IsAscending js → IsAscending (insert_key k js)
unfolding insert_key
insert_key-IsAscending k [] h = (tt, tt)
insert_key-IsAscending k (j ∷ js) (a, h) = elim (Bool-cases (eq_ℤ k j)) [
  | inl e ↦ rw e (a, h)
  | inr e ↦ elim (Bool-cases (ltb_ℤ k j)) [
    | inl l ↦ rw (e, l) ((l, ltb_ℤ-All k j js l a), (a, h))
    | inr l ↦
        rw (e, l)
          (
            All-insert_key (λ i. ltb_ℤ j i ≡ true) k js (ltb_ℤ-total k j e l) a,
            insert_key-IsAscending k js h,
          )
  ]
]

pub keys_of-IsAscending : (ks : List ℤ) → IsAscending (keys_of ks)
unfolding keys_of
keys_of-IsAscending [] = tt
keys_of-IsAscending (k ∷ ks) = insert_key-IsAscending k (keys_of ks) (keys_of-IsAscending ks)

-- What a row of key `k` and weight `c` adds to the groups with the given keys.
abbrev pub share : ℕ → ℤ → List ℤ → ℕ
share c k [] = 0
share c k (j ∷ js) = (if eq_ℤ k j then c else 0) + share c k js

share_below : (c : ℕ) (k : ℤ) (js : List ℤ) → All (λ j. ltb_ℤ k j ≡ true) js → share c k js ≡ 0
share_below c k [] h = refl
share_below c k (j ∷ js) (l, h) = rw (eq_ℤ-ltb k j l) (omega (arith, share_below c k js h))

share_self : (c : ℕ) (k : ℤ) (js : List ℤ) → IsAscending js → share c k (insert_key k js) ≡ c
unfolding insert_key
share_self c k [] h = rw (eq_ℤ-self k) (omega arith)
share_self c k (j ∷ js) (a, h) = elim (Bool-cases (eq_ℤ k j)) [
  | inl e ↦
      rw (e, e)
        (omega (
          arith,
          share_below c k js (subst (λ i. All (λ l. ltb_ℤ i l ≡ true) js) (sym (eq_ℤ-≡ k j e)) a),
        ))
  | inr e ↦ elim (Bool-cases (ltb_ℤ k j)) [
    | inl l ↦ rw (e, l, eq_ℤ-self k, e) (omega (arith, share_below c k js (ltb_ℤ-All k j js l a)))
    | inr l ↦ rw (e, l, e) (omega (arith, share_self c k js h))
  ]
]

share_other :
    (c : ℕ) (i k : ℤ) (js : List ℤ) → eq_ℤ i k ≡ false → share c i (insert_key k js) ≡ share c i js
unfolding insert_key
share_other c i k [] n = rw n (omega arith)
share_other c i k (j ∷ js) n = elim (Bool-cases (eq_ℤ k j)) [
  | inl e ↦ rw e refl
  | inr e ↦ elim (Bool-cases (ltb_ℤ k j)) [
    | inl l ↦ rw (e, l, n) (omega arith)
    | inr l ↦ rw (e, l) (omega (arith, share_other c i k js n))
  ]
]

share-keys_of : (c : ℕ) (ks : List ℤ) {k : ℤ} → Memᴰ k ks → share c k (keys_of ks) ≡ c
unfolding keys_of
share-keys_of c [] m = absurd (Memᴰ.not-nil m)
share-keys_of c (j ∷ js) (Memᴰ.head e) = rw e (share_self c j (keys_of js) (keys_of-IsAscending js))
share-keys_of c (j ∷ js) {k} (Memᴰ.tail m) = elim (Bool-cases (eq_ℤ k j)) [
  | inl e ↦
      subst (λ i. share c k (insert_key i (keys_of js)) ≡ c) (eq_ℤ-≡ k j e)
        (share_self c k (keys_of js) (keys_of-IsAscending js))
  | inr e ↦ share_other c k j (keys_of js) e ∙ share-keys_of c js m
]

-- The rows of one group.
abbrev pub group : {A : Type 0} → (A → ℤ) → ℤ → List A → List A
group key k xs = select (λ x. eq_ℤ (key x) k) xs

module _ {A : Type 0} (key : A → ℤ) (w : A → ℕ) where
  abbrev grouped : List ℤ → List A → ℕ
  grouped ks xs = total (map (λ k. total (map w (group key k xs))) ks)

  total-cons :
      (x : A) (xs : List A) (ks : List ℤ)
      → grouped ks (x ∷ xs) ≡ share (w x) (key x) ks + grouped ks xs
  total-cons x xs [] = omega arith
  total-cons x xs (k ∷ ks) = elim (Bool-cases (eq_ℤ (key x) k)) [
    | inl e ↦ rw e (omega (arith, total-cons x xs ks))
    | inr e ↦ rw e (omega (arith, total-cons x xs ks))
  ]

  total_nil : (ks : List ℤ) → grouped ks [] ≡ 0
  total_nil [] = refl
  total_nil (k ∷ ks) = omega (arith, total_nil ks)

  total_covered :
      (ks : List ℤ) (xs : List A)
      → All (λ x. share (w x) (key x) ks ≡ w x) xs
      → grouped ks xs ≡ total (map w xs)
  total_covered ks [] h = total_nil ks
  total_covered ks (x ∷ xs) (e, h) = omega (arith, total-cons x xs ks, e, total_covered ks xs h)

  pub total-group :
      (xs : List A)
      → total (map (λ k. total (map w (group key k xs))) (keys_of (map key xs))) ≡ total (map w xs)
  total-group xs =
      total_covered (keys_of (map key xs)) xs
        (All-Memᴰ _ xs (λ x m. share-keys_of (w x) (map key xs) (Memᴰ.map key m)))
