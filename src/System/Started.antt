-- ===== src/System/Started.antt =====
-- main.rs: the program from its start on.
use mathlib.Core.Path.{subst}
use mathlib.Core.Option.{none-ne-some, some-injective}
use xboxproxy.Prelude.{
  ◌≡◌, refl, ap, ◌∙◌, some, Bool, true, false, List, [], ok, err≢ok, ok-injective, Result-cases,
  Option-cases, inl, inr, arith,
}
use xboxproxy.Http.{Http}
use xboxproxy.Hosts.{HostDef}
use xboxproxy.Db.Tables.{Database, writer_loop}
use xboxproxy.Db.Opening.{Opening}
use xboxproxy.Db.Opening as Opened
use xboxproxy.Endpoints.{EndpointSpec, EnvVar, LoadedEndpoints, load}
use xboxproxy.Endpoints.Loading.{load-IsUsable}
use xboxproxy.Selector.Invariant.{new-IsValid}
use xboxproxy.Selector.Interleaving.{IsValid-IsLive}
use xboxproxy.Metrics.{new}
use xboxproxy.Speedtest.Control as Control
use xboxproxy.Speedtest.{default_config}
use xboxproxy.Speedtest.Loop.{start}
use xboxproxy.Speedtest.Loop.Control.{IsConsistent, start-IsConsistent}
use xboxproxy.Startup.{App, app_of, main, auto_from_env}
use xboxproxy.System.{World, launch, Reach}
use xboxproxy.System.Invariant.{IsCoherent, Reach-IsCoherent}

module _ {F : Type 0} where
  launch-IsCoherent :
      (specs : List EndpointSpec) (pin_cn1 pin_cn2 : EnvVar) (hosts : List HostDef)
      (is_pinned auto : Bool) (db : Database F)
      → load specs pin_cn1 pin_cn2 ≡ ok (record { hosts = hosts; pinned = is_pinned })
      → IsCoherent
          (record { hosts = hosts; pinned = is_pinned })
          default_config
          db
          (launch (app_of (record { hosts = hosts; pinned = is_pinned }) auto db))
  unfolding launch app_of new start writer_loop
  launch-IsCoherent specs pin_cn1 pin_cn2 hosts true auto db a = record {
    selector = IsValid-IsLive hosts default_config.failure_penalty_sec _ (
        new-IsValid F default_config.failure_penalty_sec hosts
          (load-IsUsable specs pin_cn1 pin_cn2 _ a).0);
    same_pin = refl;
    guards = record { counted = refl; few = omega arith };
    task = record {
      spawned = refl;
      untouched = λ h. (refl, refl);
      consistent = λ phase h. absurd (none-ne-some _ h);
    };
    writer = record { stored = refl; waiting = []; words = tt; in_order = refl };
  }
  launch-IsCoherent specs pin_cn1 pin_cn2 hosts false auto db a = record {
    selector = IsValid-IsLive hosts default_config.failure_penalty_sec _ (
        new-IsValid F default_config.failure_penalty_sec hosts
          (load-IsUsable specs pin_cn1 pin_cn2 _ a).0);
    same_pin = refl;
    guards = record { counted = refl; few = omega arith };
    task = record {
      spawned = refl;
      untouched = λ h. (refl, refl);
      consistent = λ phase h pass.
          subst
            (λ p.
              IsConsistent default_config
                (record { control = Control.new; pass = pass; phase = p }))
            (some-injective _ _ h) (start-IsConsistent default_config auto pass);
    };
    writer = record { stored = refl; waiting = []; words = tt; in_order = refl };
  }

  module _ (lib : Http) where
    -- If the program starts, then in every state that its tasks reach from there by their steps, in
    -- any order: the endpoints were loaded; the selector has their definitions and the default
    -- penalty, and though requests that pin a group may overlap, the candidates of each group are
    -- those of some pin or the bundled ones, which are those of the definition, at least one and
    -- none twice, and a candidate that is down has failed since its last success; the counter of
    -- active requests is the number of guards that handlers hold, below 2^64; there is a task of
    -- the speed tests exactly if no address is pinned, in it the flag `running` is set exactly
    -- while a pass runs, the rounds of the warm-up are in range, and a URL is pending only if the
    -- loop has a permit, is about to take it, or a request has stored a URL and not notified the
    -- loop yet; with a pin the control is as at the start and no request is let through; and the
    -- request records that were sent hold machine words, as each step that records one requires;
    -- and the commands that the writer has executed are the first of those that were sent, in their
    -- order, and the database is their outcome, from the one that `Db::start` opened.
    pub main-IsCoherent :
        (specs : List EndpointSpec) (pin_cn1 pin_cn2 auto : EnvVar) (opening : Opening F)
        (app : App F) (w : World F)
        → main specs pin_cn1 pin_cn2 auto opening ≡ ok app
        → Reach lib default_config (launch app) w
        → (loaded : LoadedEndpoints) × (load specs pin_cn1 pin_cn2 ≡ ok loaded)
          × (Opened.start opening ≡ some app.db)
          × IsCoherent loaded default_config app.db w
    unfolding main
    main-IsCoherent specs pin_cn1 pin_cn2 auto opening app w e r =
        elim (Result-cases (load specs pin_cn1 pin_cn2)) [
          | inr (x, a) ↦ absurd (err≢ok (rw (a, main) at e))
          | inl (loaded, a) ↦ elim (Option-cases (Opened.start opening)) [
            | inl b ↦ absurd (err≢ok (rw (a, main, b) at e))
            | inr (db, b) ↦
                let same = ok-injective (rw (a, main, b) at e) in
                (
                  loaded,
                  a,
                  b ∙ ap (λ x. some x.db) same,
                  Reach-IsCoherent loaded default_config app.db lib
                      (subst (λ x. IsCoherent loaded default_config x.db (launch x)) same
                        (launch-IsCoherent specs pin_cn1 pin_cn2 loaded.hosts loaded.pinned
                          (auto_from_env auto) db a))
                      r,
                )
          ]
        ]
