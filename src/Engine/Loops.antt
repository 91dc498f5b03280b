-- ===== src/Engine/Loops.antt =====
-- The background work of internal/engine/engine.go: start-up, sampling, persisting, the resync of the
-- kernel and the monthly resets. What runs without the lock is a step of its own.
pub mod Startup
pub mod Restart
use nfuse.Base.{
  ℕ, Bool, true, false, ◌&&◌, ◌||◌, not, none, some, List, [], ◌∷◌, map, is_empty, any, ◌==◌,
  if◌then◌else◌, Result, ok, err,
}
use nfuse.Base.Int.{ℤ}
use nfuse.Base.Map.{Map, lookup, insert, nat_eq}
use nfuse.Base.Text.{Text}
use nfuse.Model.{
  Account, Counter, CounterKey, Snapshot, Error, wrapped, load_state, load_master, probe_kernel,
  sample_live, persist_adopted, apply_initial, expired_at, key_eq_instance,
}
use nfuse.Store
use nfuse.Store.{Db, Fault, load, persist_usage}
use nfuse.Engine.{Manager, Controller, Env, Outcome, Sample, stamp, apply_locked, reconcile}

-- Readings over the persisted values.
unfoldable pub fold_used : Map ℕ ℕ → List Account → List Account
fold_used used =
    map λ a. elim (lookup a.id used) [ some u ↦ record a { used_bytes = u } | none ↦ a ]

merge_counters : Map CounterKey Counter → Map CounterKey Counter → Map CounterKey Counter
merge_counters [] counters = counters
merge_counters ((k, c) ∷ live) counters = insert k c (merge_counters live counters)

unfoldable pub fold_sample : Sample → Snapshot → Snapshot
unfolding fold_used merge_counters
fold_sample live s = record s {
  accounts = fold_used live.account_used s.accounts;
  counters = merge_counters live.counters s.counters;
}

abbrev empty_sample : Sample
empty_sample = record { counters = []; account_used = [] }

unfoldable pub persist_sample : Fault → Sample → Db → Result Error Db
persist_sample fault live db =
    if is_empty live.account_used && is_empty live.counters
    then ok db
    else persist_usage fault live.account_used live.counters db

module _ (m : Manager) where
  -- The controller before the first apply.
  unfoldable pub fresh : Env → Db → m.Kernel → Snapshot → Text → Controller m
  fresh env db k s master = record {
    db = db;
    kernel = k;
    snap = s;
    live = empty_sample;
    last_err = [];
    started_at = env.now;
    last_persist = none;
    master_token = master;
    gen = 0;
    expired = [];
    unsynced = false;
  }

  unfoldable pub adopt_sample :
      Env → Controller m → Result Error Sample → Result Error (Controller m)
  unfolding persist_sample
  adopt_sample env c (err e) = err (wrapped sample_live e)
  adopt_sample env c (ok live) = elim (persist_sample env.persist_fault live c.db) [
    | err e ↦ err (wrapped persist_adopted e)
    | ok db ↦ ok (record c {
      db = db;
      snap = fold_sample live c.snap;
      live = live;
      last_persist =
          if is_empty live.account_used && is_empty live.counters
          then c.last_persist
          else some env.now;
    })
  ]

  -- On a hot restart the kernel holds newer usage than the database.
  unfoldable pub adopt_live_state : Env → Controller m → Result Error (Controller m)
  unfolding adopt_sample
  adopt_live_state env c = adopt_sample env c (m.sample c.kernel)

  unfoldable pub start_applied : Snapshot → Fault × Controller m → Result Error (Controller m)
  start_applied s (some e, c) = err (wrapped apply_initial e)
  start_applied s (none, c) = ok (record c { snap = s })

  unfoldable pub start_apply : Env → Result Error (Controller m) → Result Error (Controller m)
  unfolding start_applied
  start_apply env (err e) = err e
  start_apply env (ok c) =
      let s = stamp env.apply_now c.snap in start_applied s (apply_locked m s c)

  unfoldable pub start_probe : Env → Controller m → Result Error (Controller m)
  unfolding adopt_live_state
  start_probe env c = elim (m.table_exists c.kernel) [
    | err e ↦ err (wrapped probe_kernel e)
    | ok true ↦ adopt_live_state env c
    | ok false ↦ ok c
  ]

  -- New.
  unfoldable pub start : Env → Db → m.Kernel → Result Error (Controller m)
  unfolding fresh start_apply start_probe
  start env db k = elim (load env.load_fault db) [
    | err e ↦ err (wrapped load_state e)
    | ok s ↦ elim (Store.master_token env.write_fault db) [
      | err e ↦ err (wrapped load_master e)
      | ok master ↦ start_apply env (start_probe env (fresh env db k s master))
    ]
  ]

  -- sampleLoop, after the lock-free reading that began at generation `start_gen`.
  unfoldable pub finish_sample : ℕ → Sample → Controller m → Controller m
  finish_sample start_gen s c = record c {
    live = if c.gen == start_gen then s else c.live;
    last_err = [];
  }

  -- persistNow under the lock: a copy of the reading is folded into the desired state.
  unfoldable pub persist_copy : Controller m → Sample × Controller m
  persist_copy c = (c.live, record c { snap = fold_sample c.live c.snap })

  unfoldable pub persist_written : Env → Controller m → Result Error Db → Outcome m (Unit {0})
  persist_written env c (err e) = (err e, c)
  persist_written env c (ok db) = (ok tt, record c { db = db; last_persist = some env.now })

  -- persistNow after the lock: the copy is written to the database.
  unfoldable pub persist_write : Env → Sample → Controller m → Outcome m (Unit {0})
  unfolding persist_written persist_sample
  persist_write env copy c = persist_written env c (persist_sample env.persist_fault copy c.db)

  unfoldable pub persist_now : Env → Controller m → Outcome m (Unit {0})
  unfolding persist_copy persist_write
  persist_now env c = let (copy, c') = persist_copy c in persist_write env copy c'

  -- An account whose expiry at `now` is not what the kernel was last given.
  unfoldable pub drifted : ℤ → List ℕ → List Account → Bool
  drifted now expired = any λ a.
      if expired_at a (some now)
      then not (any (λ id. id == a.id) expired)
      else any (λ id. id == a.id) expired

  -- The second part of syncKernel, under a lock of its own.
  unfoldable pub resync : Env → Controller m → Outcome m (Unit {0})
  resync env = reconcile m env (λ c. (ok tt, c))

  unfoldable pub sync_kernel : Env → Controller m → Outcome m (Unit {0})
  unfolding drifted resync
  sync_kernel env c =
      if c.unsynced || drifted env.now c.expired c.snap.accounts then resync env c else (ok tt, c)

  -- setErr.
  unfoldable pub set_err : Text → Controller m → Controller m
  set_err msg c = record c { last_err = msg }
