-- ===== src/Tests/Activity.antt =====
-- Tests of metrics.rs: one request, from its beginning to the gap after `fetch_sub`.
use xboxproxy.Prelude.{◌≡◌, ◌<◌, ◌-◌, ◌⊎◌, ◌↔◌, refl, true, false, [], ◌∷◌, some, get_elem?, arith}
use xboxproxy.Metrics.Interleaving.{
  waiting, in_flight, uncounted, Shared, Step, tick, add, read_begin, store_begin, Reach, here,
  next, IsInitial, live_count, busy_now, busy_at_iff, busy_at_gap,
}

abbrev before : Shared
before = record {
  active_requests = 0;
  last_activity = 0;
  clock = 1000;
  requests = waiting ∷ waiting ∷ [];
}

before-IsInitial : IsInitial before
before-IsInitial = record { unbegun = refl; zero_active = refl; few = omega arith }

-- The second request is in flight since 1000, and the clock shows 1090.
abbrev running : Shared
running = record {
  active_requests = 1;
  last_activity = 1000;
  clock = 1090;
  requests = waiting ∷ in_flight ∷ [];
}

before-Reach : Reach before running
before-Reach =
    next (next (next (next here (add 1 refl)) (read_begin 1 refl)) (store_begin 1 1000 refl))
      (tick 90)

busy_at_iff_example :
    (busy_now running 60 ≡ true)
    ↔ ((0 < live_count running.requests) ⊎ (running.clock - running.last_activity < 60))
busy_at_iff_example = busy_at_iff before running 60 before-IsInitial before-Reach

busy_at_gap_example :
    (u : Shared) × Step running u
    × (get_elem? u.requests 1 ≡ some uncounted)
    × (busy_now u 60 ≡ false)
busy_at_gap_example =
    busy_at_gap before running 1 60 before-IsInitial before-Reach refl refl (omega arith)
