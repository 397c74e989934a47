-- ===== src/System/Parts.antt =====
-- metrics.rs, speedtest.rs, db.rs: what holds of a part of the running program, and how it is kept.
use mathlib.Core.Path.{subst}
use mathlib.Core.Bool.{true≢false}
use mathlib.Core.Option.{some-injective}
use mathlib.Core.List.{append_assoc, map-append}
use xboxproxy.Prelude.{
  ℕ, suc, arith, ◌<◌, ◌≡◌, refl, sym, ap, ◌∙◌, Bool, true, false, not, List, [], ◌∷◌, ◌++◌, map,
  Option, some, is_some, All, All-append,
}
use xboxproxy.Db.{HasWords, DbCommand, insert_request, insert_speed_test, cleanup}
use xboxproxy.Db.Queries.Recent.{HaveWords}
use xboxproxy.Db.Tables.{Database, Answers, execute, writer_loop}
use xboxproxy.Metrics.{u64_mod}
use xboxproxy.Speedtest.{SpeedTestConfig}
use xboxproxy.Speedtest.Pass.{Pass}
use xboxproxy.Speedtest.Control.{SpeedTestControl, new, store_url, notify_one}
use xboxproxy.Text.{Text}
use xboxproxy.Speedtest.Loop.{Phase, Loop}
use xboxproxy.Speedtest.Loop.Control.{
  IsConsistent, outside-IsConsistent, store_url-IsConsistent, notify_one-IsConsistent,
}
use xboxproxy.System.Operations.{writer_loop-append}

-- The counter of active requests counts the guards that are held.
pub record IsCounted (active_requests guards : ℕ) : Type 0 where
  pub counted : active_requests ≡ guards
  pub few : guards < u64_mod

-- The next command is executed: it is not waiting any more.
pub next_in_order :
    {F : Type 0} {db_tx : List (DbCommand F)} (executed : List (Answers × DbCommand F))
    (a : Answers) (cmd : DbCommand F) (rest : List (DbCommand F))
    → db_tx ≡ map (λ c. c.1) executed ++ cmd ∷ rest
    → db_tx ≡ map (λ c. c.1) (executed ++ (a, cmd) ∷ []) ++ rest
next_in_order executed a cmd rest e =
    e
    ∙ sym (append_assoc (map (λ c. c.1) executed) (cmd ∷ []) rest)
    ∙ ap (λ l. l ++ rest) (sym (map-append (λ c. c.1) executed ((a, cmd) ∷ [])))

-- A command whose request record holds machine words.
abbrev pub IsWordy : {F : Type 0} → DbCommand F → Type 0
IsWordy (insert_request r) = HasWords r
IsWordy (insert_speed_test s) = Unit
IsWordy (cleanup cutoff) = Unit

-- The executed commands are among those that were sent.
pub executed-HaveWords :
    {F : Type 0} (executed : List (Answers × DbCommand F)) (rest : List (DbCommand F))
    → All IsWordy (map (λ c. c.1) executed ++ rest)
    → HaveWords executed
executed-HaveWords [] rest h = tt
executed-HaveWords ((a, insert_request r) ∷ cmds) rest (w, h) = (w, executed-HaveWords cmds rest h)
executed-HaveWords ((a, insert_speed_test s) ∷ cmds) rest (w, h) = executed-HaveWords cmds rest h
executed-HaveWords ((a, cleanup cutoff) ∷ cmds) rest (w, h) = executed-HaveWords cmds rest h

module _ {F : Type 0} (db0 : Database F) where
  -- The executed commands are the first of those that were sent, whose records hold machine words,
  -- and the database is their outcome.
  pub record IsWritten (db_tx : List (DbCommand F)) (executed : List (Answers × DbCommand F))
      (db : Database F) : Type 0 where
    pub stored : db ≡ writer_loop executed db0
    pub waiting : List (DbCommand F)
    pub words : All IsWordy db_tx
    pub in_order : db_tx ≡ map (λ c. c.1) executed ++ waiting

  module _ (db_tx : List (DbCommand F)) (executed : List (Answers × DbCommand F)) (db : Database F)
      (i : IsWritten db_tx executed db) (cmd : DbCommand F) where
    pub sent-IsWritten : IsWordy cmd → IsWritten (db_tx ++ cmd ∷ []) executed db
    sent-IsWritten w = record {
      words = All-append IsWordy db_tx (cmd ∷ []) i.words (w, tt);
      stored = i.stored;
      waiting = i.waiting ++ cmd ∷ [];
      in_order =
          ap (λ l. l ++ cmd ∷ []) i.in_order
          ∙ append_assoc (map (λ c. c.1) executed) i.waiting (cmd ∷ []);
    }

    pub executed-IsWritten :
        (a : Answers) (rest : List (DbCommand F))
        → db_tx ≡ map (λ c. c.1) executed ++ cmd ∷ rest
        → IsWritten db_tx (executed ++ (a, cmd) ∷ []) (execute a cmd db)
    executed-IsWritten a rest e = record {
      stored = ap (execute a cmd) i.stored ∙ sym (writer_loop-append executed a cmd db0);
      waiting = rest;
      words = i.words;
      in_order = next_in_order executed a cmd rest e;
    }

module _ (cfg : SpeedTestConfig) (F : Type 0) (is_pinned : Bool) where
  -- There is a task exactly if nothing is pinned, it is in order whatever the selector and the
  -- metrics are, and with a pin nobody touches the control, or is about to.
  pub record IsAttended (c : SpeedTestControl) (asked : List (Option Text)) (task : Option Phase)
      : Type 0 where
    pub spawned : is_some task ≡ not is_pinned
    pub untouched : is_pinned ≡ true → (c ≡ new) × (asked ≡ [])
    pub consistent :
        (phase : Phase)
        → task ≡ some phase
        → (pass : Pass F) → IsConsistent cfg (record { control = c; pass = pass; phase = phase })

  module _ (c : SpeedTestControl) (asked : List (Option Text)) (task : Option Phase)
      (i : IsAttended c asked task) where
    unpinned : (phase : Phase) → task ≡ some phase → is_pinned ≡ false
    unpinned phase e = go is_pinned (sym (ap is_some e) ∙ i.spawned)
      where
        go : (b : Bool) → true ≡ not b → b ≡ false
        go true h = absurd (true≢false h)
        go false h = refl

    -- The task takes a step from one phase to another.
    pub task-IsAttended :
        (phase : Phase) (l : Loop F)
        → task ≡ some phase
        → IsConsistent cfg l
        → IsAttended l.control asked (some l.phase)
    task-IsAttended phase l e h =
        let free = unpinned phase e in
        record {
          spawned = sym (ap not free);
          untouched = λ p. absurd (true≢false (sym p ∙ free));
          consistent = λ p q pass.
              subst (λ x. IsConsistent cfg (record { control = l.control; pass = pass; phase = x }))
                (some-injective _ _ q) (outside-IsConsistent cfg l pass h);
        }

    -- A request is let through.
    pub asked-IsAttended : (url : Option Text) → is_pinned ≡ false → IsAttended c (url ∷ asked) task
    asked-IsAttended url free = record {
      spawned = i.spawned;
      untouched = λ p. absurd (true≢false (sym p ∙ free));
      consistent = i.consistent;
    }

    not_in_nil :
        (before after : List (Option Text)) (url : Option Text) → [] ≡ before ++ url ∷ after → ⊥
    not_in_nil [] after url e = cc
    not_in_nil (b ∷ before) after url e = cc

    pub store_url-IsAttended :
        (before after : List (Option Text)) (url : Option Text)
        → asked ≡ before ++ url ∷ after
        → IsAttended (store_url c url) (before ++ after) task
    store_url-IsAttended before after url e = record {
      spawned = i.spawned;
      untouched = λ p. absurd (not_in_nil before after url (sym (i.untouched p).1 ∙ e));
      consistent = λ phase t pass. store_url-IsConsistent cfg _ url (i.consistent phase t pass);
    }

    pub notify_one-IsAttended : (n : ℕ) → c.asking ≡ suc n → IsAttended (notify_one c) asked task
    notify_one-IsAttended n e = record {
      spawned = i.spawned;
      untouched = λ p. absurd (not_asking n (ap (λ k. k.asking) (sym (i.untouched p).0) ∙ e));
      consistent = λ phase t pass. notify_one-IsConsistent cfg _ (i.consistent phase t pass);
    }
      where
        not_asking : (n : ℕ) → 0 ≡ suc n → ⊥
        not_asking n h = omega (arith, h)
