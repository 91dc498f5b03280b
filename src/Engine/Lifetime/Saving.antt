-- ===== src/Engine/Lifetime/Saving.antt =====
-- What Stop of internal/engine/engine.go leaves behind.
use nfuse.Base.{◌≡◌, ◌≢◌, refl, ap, ◌∙◌, true, false, none, arith}
use nfuse.Store.{Db}
use nfuse.Engine.{Manager, Env}
use nfuse.Engine.Loops.{persist_now, persist_copy, fold_used}
use nfuse.Engine.Metering.{fold_db, persist_accounts_lem}
use nfuse.Engine.Staleness.{persist_write_db}
use nfuse.Engine.Steps.{
  Call, adds_account, deletes_account, sets_tier, sets_expiry, adds_port, edits_port, deletes_port,
  moves_port, sets_usage, resets_account, regenerates_token, regenerates_master, syncs, System,
  Step, calls, begins, reads, fails, finishes, copies, writes, traffic,
}
use nfuse.Engine.Lifetime.{
  carrying, job_of_call, job, Task, Lifetime, last_persist, Life, works, serves, carries, closes,
  leaves, returns, Alone, unasked,
}

module _ (m : Manager) where
  abbrev Running : Type 0
  Running = Lifetime m.Kernel

  calls_not_carried : (call : Call) → job_of_call call ≢ carrying
  unfolding job_of_call
  calls_not_carried (adds_account a b c d) h = cc
  calls_not_carried (deletes_account a b) h = cc
  calls_not_carried (sets_tier a b c d) h = cc
  calls_not_carried (sets_expiry a b) h = cc
  calls_not_carried (adds_port a b c d e) h = cc
  calls_not_carried (edits_port a b c d e) h = cc
  calls_not_carried (deletes_port a) h = cc
  calls_not_carried (moves_port a b) h = cc
  calls_not_carried (sets_usage a b) h = cc
  calls_not_carried (resets_account a) h = cc
  calls_not_carried (regenerates_token a) h = cc
  calls_not_carried regenerates_master h = cc
  calls_not_carried syncs h = cc

  carried_db : {s t : System m.Kernel} (st : Step m s t) → job st ≡ carrying → t.ctl.db ≡ s.ctl.db
  unfolding job
  carried_db (calls s env call e) h = absurd (calls_not_carried call h)
  carried_db (begins s) h = cc
  carried_db (reads s g r a b) h = cc
  carried_db (fails s msg) h = cc
  carried_db (finishes s g r a) h = cc
  carried_db (copies s) h = cc
  carried_db (writes s env copy a) h = cc
  carried_db (traffic s k) h = refl

  -- Stop has returned, and the database is `db`.
  record IsOver (db : Db) (s : Running) : Type 0 where
    over : s.stopped ≡ true
    stopping : s.stopping ≡ true
    gone : (l : Task) → s.running l ≡ false
    saved : s.sys.ctl.db ≡ db

  Life-IsOver :
      {db : Db} {s t : Running} (st : Life m s t) → unasked m st ≡ true → IsOver db s → IsOver db t
  unfolding unasked
  Life-IsOver (works l runs st w) h o = absurd (ground (arith, o.gone l, runs))
  Life-IsOver (serves st a) h o = cc
  Life-IsOver (carries st a) h o = record {
    over = o.over;
    stopping = o.stopping;
    gone = o.gone;
    saved = carried_db st a ∙ o.saved;
  }
  Life-IsOver (closes a) h o = absurd (ground (arith, o.stopping, a))
  Life-IsOver (leaves l a runs b) h o = absurd (ground (arith, o.gone l, runs))
  Life-IsOver (returns env a b c) h o = absurd (ground (arith, o.over, c))

  Alone-IsOver : {db : Db} {s t : Running} → Alone m s t → IsOver db s → IsOver db t
  Alone-IsOver Alone.here o = o
  Alone-IsOver (Alone.next r st h) o = Life-IsOver st h (Alone-IsOver r o)

  -- When every loop has left and the statement works, Stop leaves in the database the usage of the last
  -- reading for each account that it has, and the others as they were; and nothing that still runs
  -- changes the database, as long as no client calls.
  pub stop_saves :
      (env : Env) (s : Running) {t : Running}
      → s.stopping ≡ true
      → ((l : Task) → s.running l ≡ false)
      → env.persist_fault ≡ none
      → Alone m (last_persist m env s) t
      → t.sys.ctl.db.accounts ≡ fold_used s.sys.ctl.live.account_used s.sys.ctl.db.accounts
  unfolding last_persist persist_now persist_copy fold_db
  stop_saves env s stopping gone stored after =
      ap (λ (d : Db). d.accounts) (Alone-IsOver after ended).saved
      ∙ persist_accounts_lem s.sys.ctl.live.account_used s.sys.ctl.db.accounts
    where
      ended : IsOver (fold_db s.sys.ctl.live s.sys.ctl.db) (last_persist m env s)
      ended = record {
        over = refl;
        stopping = stopping;
        gone = gone;
        saved = persist_write_db m env s.sys.ctl.live (persist_copy m s.sys.ctl).1 stored;
      }
