-- ===== src/Metrics/Interleaving.antt =====
-- metrics.rs: requests that run side by side. Each atomic operation of `begin_request` and of the
-- guard's `drop` is a step of its own, and so is each reading of the clock; any request may move next.
use mathlib.Core.Option.{some-injective}
use xboxproxy.Prelude.{
  ℕ, zero, suc, ◌+◌, ◌-◌, ◌≤◌, ◌<◌, ◌≡◌, refl, ap, Bool, true, false, List, [], ◌∷◌, some, arith,
  length, get_elem?, get_elem?-modify_self, modify, ◌↔◌, ◌⊎◌, if◌then◌else◌,
}
use xboxproxy.Metrics.{u64_mod, fetch_add_one, fetch_sub_one, busy_at}

-- Where a request stands: not begun, counted by `fetch_add`, with the time that it read for its first
-- stamp, in flight, no longer counted after `fetch_sub`, with the time for its last stamp, done.
pub data Phase : Type 0 where
  waiting counted in_flight uncounted done : Phase
  stamping closing : ℕ → Phase

pub record Shared : Type 0 where
  pub active_requests : ℕ
  pub last_activity : ℕ
  pub clock : ℕ
  pub requests : List Phase

-- The phases between `fetch_add` and `fetch_sub`.
abbrev pub is_live : Phase → Bool
is_live counted = true
is_live (stamping t) = true
is_live in_flight = true
is_live _ = false

abbrev pub live_count : List Phase → ℕ
live_count [] = 0
live_count (p ∷ ps) = (if is_live p then 1 else 0) + live_count ps

abbrev pub move : Shared → ℕ → Phase → Shared
move st i p = record st { requests = modify st.requests i (λ _. p) }

pub data Step (st : Shared) : Shared → Type 0 where
  tick : (d : ℕ) → Step st (record st { clock = st.clock + d })
  add :
      (i : ℕ)
      → get_elem? st.requests i ≡ some waiting
      → Step st (record (move st i counted) { active_requests = fetch_add_one st.active_requests })
  read_begin :
      (i : ℕ) → get_elem? st.requests i ≡ some counted → Step st (move st i (stamping st.clock))
  store_begin :
      (i t : ℕ)
      → get_elem? st.requests i ≡ some (stamping t)
      → Step st (record (move st i in_flight) { last_activity = t })
  sub :
      (i : ℕ)
      → get_elem? st.requests i ≡ some in_flight
      → Step st
          (record (move st i uncounted) { active_requests = fetch_sub_one st.active_requests })
  read_end :
      (i : ℕ) → get_elem? st.requests i ≡ some uncounted → Step st (move st i (closing st.clock))
  store_end :
      (i t : ℕ)
      → get_elem? st.requests i ≡ some (closing t)
      → Step st (record (move st i done) { last_activity = t })

pub data Reach (st : Shared) : Shared → Type 0 where
  here : Reach st st
  next : {t u : Shared} → Reach st t → Step t u → Reach st u

-- No more requests than the counter can count, and none between `fetch_add` and `fetch_sub`.
pub record IsInitial (st : Shared) : Type 0 where
  pub unbegun : live_count st.requests ≡ 0
  pub zero_active : st.active_requests ≡ 0
  pub few : length st.requests < u64_mod

-- The counter counts the live requests, and does not wrap around.
pub record IsCounted (st : Shared) : Type 0 where
  pub exact : st.active_requests ≡ live_count st.requests
  pub few : length st.requests < u64_mod

live_count-le-length : (ps : List Phase) → live_count ps ≤ length ps
live_count-le-length [] = omega arith
live_count-le-length (p ∷ ps) = ground (arith, live_count-le-length ps)

length-modify : (ps : List Phase) (i : ℕ) (q : Phase) → length (modify ps i (λ _. q)) ≡ length ps
length-modify [] i q = refl
length-modify (p ∷ ps) zero q = refl
length-modify (p ∷ ps) (suc i) q = ap suc (length-modify ps i q)

abbrev weight : Phase → ℕ
weight p = if is_live p then 1 else 0

live_count-modify :
    (ps : List Phase) (i : ℕ) (p q : Phase)
    → get_elem? ps i ≡ some p
    → live_count (modify ps i (λ _. q)) + weight p ≡ live_count ps + weight q
live_count-modify [] i p q e = absurd (ground arith)
live_count-modify (r ∷ ps) zero p q e = omega (arith, ap weight (some-injective r p e))
live_count-modify (r ∷ ps) (suc i) p q e = omega (arith, live_count-modify ps i p q e)

live_count_pos :
    (ps : List Phase) (i : ℕ) (p : Phase) → get_elem? ps i ≡ some p → weight p ≤ live_count ps
live_count_pos [] i p e = absurd (ground arith)
live_count_pos (r ∷ ps) zero p e = omega (arith, ap weight (some-injective r p e))
live_count_pos (r ∷ ps) (suc i) p e = omega (arith, live_count_pos ps i p e)

module _ (s : Shared) (c : IsCounted s) (i : ℕ) (p q : Phase)
    (e : get_elem? s.requests i ≡ some p) where
  still_few : length (modify s.requests i (λ _. q)) < u64_mod
  still_few = omega (arith, length-modify s.requests i q, c.few)

  -- A step that leaves the counter and the number of live requests.
  same_count : weight p ≡ weight q → s.active_requests ≡ live_count (modify s.requests i (λ _. q))
  same_count w = omega (arith, live_count-modify s.requests i p q e, c.exact)

  one_more :
      weight p ≡ 0
      → weight q ≡ 1
      → fetch_add_one s.active_requests ≡ live_count (modify s.requests i (λ _. q))
  one_more v w = omega (
    arith,
    live_count-modify s.requests i p q e,
    live_count-le-length (modify s.requests i (λ _. q)),
    still_few,
    c.exact,
  )

  one_less :
      weight p ≡ 1
      → weight q ≡ 0
      → fetch_sub_one s.active_requests ≡ live_count (modify s.requests i (λ _. q))
  one_less v w =
      omega (
        arith,
        live_count-modify s.requests i p q e,
        live_count-le-length s.requests,
        c.few,
        c.exact,
      )

Step-IsCounted : {s t : Shared} → Step s t → IsCounted s → IsCounted t
Step-IsCounted {s} (tick d) c = record { exact = c.exact; few = c.few }
Step-IsCounted {s} (add i e) c = record {
  exact = one_more s c i waiting counted e refl refl;
  few = still_few s c i waiting counted e;
}
Step-IsCounted {s} (read_begin i e) c = record {
  exact = same_count s c i counted (stamping s.clock) e refl;
  few = still_few s c i counted (stamping s.clock) e;
}
Step-IsCounted {s} (store_begin i t e) c = record {
  exact = same_count s c i (stamping t) in_flight e refl;
  few = still_few s c i (stamping t) in_flight e;
}
Step-IsCounted {s} (sub i e) c = record {
  exact = one_less s c i in_flight uncounted e refl refl;
  few = still_few s c i in_flight uncounted e;
}
Step-IsCounted {s} (read_end i e) c = record {
  exact = same_count s c i uncounted (closing s.clock) e refl;
  few = still_few s c i uncounted (closing s.clock) e;
}
Step-IsCounted {s} (store_end i t e) c = record {
  exact = same_count s c i (closing t) done e refl;
  few = still_few s c i (closing t) done e;
}

IsInitial-IsCounted : {s : Shared} → IsInitial s → IsCounted s
IsInitial-IsCounted h = record { exact = omega arith; few = h.few }

pub Reach-IsCounted : {s t : Shared} → IsInitial s → Reach s t → IsCounted t
Reach-IsCounted h here = IsInitial-IsCounted h
Reach-IsCounted h (next r st) = Step-IsCounted st (Reach-IsCounted h r)

abbrev pub busy_now : Shared → ℕ → Bool
busy_now st grace = busy_at st.active_requests st.last_activity st.clock grace

-- However the atomic steps of at most 2^64 - 1 requests interleave, starting with a count of 0 and
-- no request between its `fetch_add` and its `fetch_sub`, the store is busy exactly if a request
-- stands between its `fetch_add` and its `fetch_sub` or the last stamp is younger than the grace
-- period.
pub busy_at_iff :
    (s t : Shared) (grace : ℕ)
    → IsInitial s
    → Reach s t
    → (busy_now t grace ≡ true)
      ↔ ((0 < live_count t.requests) ⊎ (t.clock - t.last_activity < grace))
unfolding busy_at
busy_at_iff s t grace h r = let c = Reach-IsCounted h r in ground arith

-- In a state that is reached from a count of 0 and no request counted: if exactly one request is
-- between its `fetch_add` and its `fetch_sub`, is in flight, and the last stamp is at least a grace
-- period old, then its `fetch_sub` alone leads to a state in which the store is not busy.
pub busy_at_gap :
    (s t : Shared) (i grace : ℕ)
    → IsInitial s
    → Reach s t
    → get_elem? t.requests i ≡ some in_flight
    → live_count t.requests ≡ 1
    → grace ≤ t.clock - t.last_activity
    → (u : Shared) × Step t u
      × (get_elem? u.requests i ≡ some uncounted)
      × (busy_now u grace ≡ false)
unfolding busy_at
busy_at_gap s t i grace h r e one old = (
  record (move t i uncounted) { active_requests = fetch_sub_one t.active_requests },
  sub i e,
  get_elem?-modify_self t.requests i (λ _. uncounted) e,
  (let c = Reach-IsCounted h r in ground arith),
)
