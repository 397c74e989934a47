-- ===== src/System/Shown.antt =====
-- metrics.rs, db.rs, dashboard.rs: what the running program has stored, and shows.
use mathlib.Core.List.{append-nil, append_assoc}
use mathlib.Core.Path.{subst}
use xboxproxy.Prelude.{
  All, ℕ, suc, true, some, ℤ, ◌≡◌, sym, ap, ◌∙◌, List, [], ◌∷◌, ◌++◌, map, select, take, Option,
  none, ok,
}
use mathlib.Core.List.{reverse}
use xboxproxy.Http.{Http}
use xboxproxy.Db.{DbCommand}
use xboxproxy.Db.Tables.{Answers, Prepared, all_prepared, writer_loop, writer_thread}
use xboxproxy.Db.Queries.{clamp_limit, recent_requests}
use xboxproxy.Db.Queries.Recent.{sent, is_since, recent_requests-writer_loop}
use xboxproxy.Endpoints.{EndpointSpec, EnvVar}
use xboxproxy.Speedtest.{SpeedTestConfig, default_config}
use xboxproxy.Db.Opening.{Opening, start_new}
use xboxproxy.Startup.{App, main}
use xboxproxy.System.{World, launch, Step, Reach, here, next}
use xboxproxy.System.Parts.{next_in_order, IsWordy, executed-HaveWords}
use xboxproxy.System.Invariant.{Reach-IsCoherent}
use xboxproxy.System.Started.{main-IsCoherent}

module _ (lib : Http) {F : Type 0} where
  -- In every state that a program started without a database from an earlier run reaches, by any
  -- order of its tasks' steps, in which a step that records a request records machine words (a
  -- status below 2^16, the other numbers below 2^64): the list of recent requests is that of the
  -- records themselves which were inserted, are not older than a later successful clean-up's
  -- cutoff, and are in the window, newest first and cut off at the limit, at 500 and at 0 if it is
  -- negative; and the commands that were sent are the executed ones, in their order, and then those
  -- that wait.
  pub recent_requests-Reach :
      (specs : List EndpointSpec) (pin_cn1 pin_cn2 auto : EnvVar) (opening : Opening F)
      (app : App F) (w : World F) (limit : ℤ) (since : Option ℤ)
      → main specs pin_cn1 pin_cn2 auto opening ≡ ok app
      → Reach lib default_config (launch app) w
      → opening.found ≡ none
      → (recent_requests limit since w.db
          ≡ take
              (clamp_limit limit)
              (reverse (select (λ r. is_since since r.ts) (sent w.executed))))
        × ((waiting : List (DbCommand F)) × (w.metrics.db_tx
              ≡ map (λ c. c.1) w.executed ++ waiting))
  recent_requests-Reach specs pin_cn1 pin_cn2 auto opening app w limit since e r new =
      let (loaded, _, started, i) =
        main-IsCoherent lib specs pin_cn1 pin_cn2 auto opening app w e r in
      (
        ap (recent_requests limit since)
              (i.writer.stored ∙ ap (writer_loop w.executed) (start_new opening app.db new started))
            ∙ recent_requests-writer_loop limit since w.executed (
                executed-HaveWords w.executed i.writer.waiting
                  (subst (All IsWordy) i.writer.in_order i.writer.words)),
        (i.writer.waiting, i.writer.in_order),
      )

  -- The commands with what SQLite answers to them, one after the other.
  unfoldable pub answered : (ℕ → Answers) → List (DbCommand F) → List (Answers × DbCommand F)
  answered answer [] = []
  answered answer (cmd ∷ cmds) = (answer 0, cmd) ∷ answered (λ k. answer (suc k)) cmds

  -- Each step of the run is one of the writer.
  unfoldable pub IsWriting : (cfg : SpeedTestConfig) → {w v : World F} → Reach lib cfg w v → Type 0
  IsWriting cfg Reach.here = Unit
  IsWriting cfg (Reach.next r (Step.writes p a cmd rest q b e)) = IsWriting cfg r
  IsWriting cfg (Reach.next r _) = ⊥

  -- What the writer leaves of a world when it has executed these commands too.
  abbrev pub executed_in : List (Answers × DbCommand F) → World F → World F
  executed_in cmds w = record w { executed = w.executed ++ cmds; db = writer_loop cmds w.db }

  module _ (cfg : SpeedTestConfig) where
    -- A run of the writer that ends with these commands executed, after those of the run before.
    drained :
        (p : Prepared) (cmds : List (DbCommand F)) (answer : ℕ → Answers) (w u : World F)
        (r : Reach lib cfg w u)
        → IsWriting cfg r
        → u.prepared ≡ some p
        → all_prepared p ≡ true
        → u.metrics.db_tx ≡ map (λ c. c.1) u.executed ++ cmds
        → (r' : Reach lib cfg w (executed_in (answered answer cmds) u)) × IsWriting cfg r'
    unfolding IsWriting answered writer_loop
    drained p [] answer w u r only q ready e =
        subst (λ l. (r' : Reach lib cfg w (record u { executed = l })) × IsWriting cfg r')
          (sym (append-nil u.executed)) (r, only)
    drained p (cmd ∷ cmds) answer w u r only q ready e =
        let there =
          drained p cmds (λ k. answer (suc k)) w _
            (next r (Step.writes p (answer 0) cmd cmds q ready e)) only q ready
            (next_in_order u.executed (answer 0) cmd cmds e) in
        subst
          (λ l.
            (r' : Reach lib cfg w
              (record u { executed = l; db = writer_loop (answered answer (cmd ∷ cmds)) u.db }))
            × IsWriting cfg r')
          (append_assoc u.executed ((answer 0, cmd) ∷ []) _) there

  -- In every state that a started program reaches in which the writer has prepared its statements
  -- without a panic, the commands that were sent are those that it has executed and then some that
  -- wait, in the order of the sending; and whatever SQLite answers from then on, to one command
  -- after the other, a run of the writer's steps alone leads to the state in which the waiting
  -- commands are executed too, with these answers, and all else is as it was, and there the
  -- database is what the writer's thread makes of the one that the program began with.
  pub writer_loop-Reach :
      (specs : List EndpointSpec) (pin_cn1 pin_cn2 auto : EnvVar) (opening : Opening F)
      (app : App F) (w : World F) (p : Prepared) (answer : ℕ → Answers)
      → main specs pin_cn1 pin_cn2 auto opening ≡ ok app
      → Reach lib default_config (launch app) w
      → w.prepared ≡ some p
      → all_prepared p ≡ true
      → (waiting : List (DbCommand F)) × (w.metrics.db_tx ≡ map (λ c. c.1) w.executed ++ waiting)
        × ((r : Reach lib default_config w (executed_in (answered answer waiting) w)) × IsWriting
              default_config r)
        × (writer_thread p (w.executed ++ answered answer waiting) app.db
            ≡ some (executed_in (answered answer waiting) w).db)
  unfolding IsWriting writer_thread
  writer_loop-Reach specs pin_cn1 pin_cn2 auto opening app w p answer e r q ready =
      let (loaded, _, _, i) = main-IsCoherent lib specs pin_cn1 pin_cn2 auto opening app w e r in
      let (run, only) =
        drained default_config p i.writer.waiting answer w w here tt q ready i.writer.in_order in
      (
        i.writer.waiting,
        i.writer.in_order,
        (run, only),
        rw (ready, writer_thread)
            (ap some (sym (Reach-IsCoherent loaded default_config app.db lib i run).writer.stored)),
      )
