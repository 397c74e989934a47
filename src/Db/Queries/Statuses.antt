-- ===== src/Db/Queries/Statuses.antt =====
-- db.rs: the counts of the statuses in a window.
use mathlib.Core.Path.{subst}
use mathlib.Core.Logic.{∥∥₁_elim}
use native.Mathlib.Nat.{ℕ_set}
use mathlib.Core.List.{Perm, Permᴰ}
use mathlib.Core.List.Perm
use xboxproxy.Prelude.{
  ℕ, ◌≡◌, refl, sym, ap, ◌∙◌, ℤ, pos, pos_part, neg_part, List, map, some, arith,
}
use xboxproxy.Db.Tables.{RequestRow, Database}
use xboxproxy.Db.Queries.{
  StatusCount, Sqlite, IsSqlite, IsDescending, total, keys_of, requests_since, count_of,
  status_groups, status_counts,
}
use xboxproxy.Db.Queries.Sums.{sum_ℤ, sum-fields, length-total, map-map_self}

total-Permᴰ : {ms ns : List ℕ} → Permᴰ ms ns → total ms ≡ total ns
total-Permᴰ Permᴰ.nil = refl
total-Permᴰ (Permᴰ.cons e p) = omega (arith, e, total-Permᴰ p)
total-Permᴰ (Permᴰ.swap e e') = omega (arith, e, e')
total-Permᴰ (Permᴰ.trans p q) = total-Permᴰ p ∙ total-Permᴰ q

total-Perm : {ms ns : List ℕ} → Perm ms ns → total ms ≡ total ns
total-Perm p = ∥∥₁_elim p (ℕ_set _ _) total-Permᴰ

sum_ℤ-Perm : {ms ns : List ℤ} → Perm ms ns → sum_ℤ ms ≡ sum_ℤ ns
unfolding sum_ℤ
sum_ℤ-Perm p = rw (total-Perm (Perm.map pos_part p), total-Perm (Perm.map neg_part p)) refl

module _ {F : Type 0} where
  -- Each status of the window once, the most frequent first, and every request of the window counted.
  pub record Counts (rows : List (RequestRow F)) (counts : List StatusCount) : Type 0 where
    pub statuses :
        Perm (map (λ (s : StatusCount). s.status) counts) (keys_of (map (λ row. row.status) rows))
    pub descending : IsDescending counts
    pub sum : sum_ℤ (map (λ (s : StatusCount). s.count) counts) ≡ count_of rows

  pub status_counts-Counts :
      (sqlite : Sqlite F) (since : ℤ) (db : Database F)
      → IsSqlite sqlite
      → Counts (requests_since (some since) db) (status_counts sqlite since db)
  unfolding status_counts status_groups
  status_counts-Counts sqlite since db laws =
      let rows = requests_since (some since) db in
      let p = laws.order_desc-perm (status_groups rows) in
      record {
        statuses =
            subst (Perm (map (λ (s : StatusCount). s.status) (status_counts sqlite since db)))
              (map-map_self (λ s. s.status) _ (keys_of (map (λ row. row.status) rows)) (λ k. refl))
              (Perm.map (λ (s : StatusCount). s.status) p);
        descending = laws.order_desc-IsDescending (status_groups rows);
        sum =
            sum_ℤ-Perm (Perm.map (λ (s : StatusCount). s.count) p)
            ∙ sum-fields (λ s. s.count) _ (λ row. row.status) (λ row. 1) rows
                (λ k. ap pos (length-total _))
            ∙ ap pos (sym (length-total rows));
      }
