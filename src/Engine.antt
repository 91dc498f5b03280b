-- ===== src/Engine.antt =====
-- internal/engine/engine.go: the controller's state, and reconcile, the path of every mutation. The
-- lock c.mu makes each operation one step; what runs outside the lock is split in Engine/Loops.antt.
pub mod Mutations
pub mod Tokens
pub mod Views
pub mod Loops
pub mod Invariant
pub mod Access
pub mod Revocation
pub mod Metering
pub mod Retry
pub mod Background
pub mod Steps
pub mod Lifetime
pub mod Resets
pub mod Sync
pub mod Staleness
use nfuse.Base.{
  ℕ, ◌+◌, ◌%◌, ◌^◌, Bool, true, false, Option, none, some, List, map, is_empty, keep, ◌&&◌, not,
  Result, ok, err, if◌then◌else◌,
}
use nfuse.Base.Int.{ℤ}
use nfuse.Base.Map.{Map}
use nfuse.Base.Text.{Text}
use nfuse.Model.{
  Account, Counter, CounterKey, Snapshot, Error, Stage, wrapped, probe_table, fresh_sample,
  pre_persist, reload, apply_retried, expired_at, validate,
}
use nfuse.Model.Token.{Reads}
use nfuse.Store.{Db, Fault, load, persist_usage}

-- One reading of the kernel's counters and quotas.
pub record Sample : Type 0 where
  pub counters : Map CounterKey Counter
  pub account_used : Map ℕ ℕ

-- The interface of internal/nft/nft.go to the kernel, over an unknown kernel state.
pub record Manager : Type 1 where
  pub Kernel : Type 0
  pub apply : Snapshot → Kernel → Fault × Kernel
  pub sample : Kernel → Result Error Sample
  pub table_exists : Kernel → Result Error Bool
  pub teardown : Kernel → Fault × Kernel

-- The controller with the database and the kernel that it drives.
pub record State (Kernel : Type 0) : Type 0 where
  pub db : Db
  pub kernel : Kernel
  pub snap : Snapshot
  pub live : Sample
  pub last_err : Text
  pub started_at : ℤ
  pub last_persist : Option ℤ
  pub master_token : Text
  pub gen : ℕ
  pub expired : List ℕ
  pub unsynced : Bool

abbrev pub Controller : Manager → Type 0
Controller m = State m.Kernel

-- What one operation meets: the time when the mutation and when the apply read the clock, the faults
-- of its statements, and the reads of the random source.
pub record Env : Type 0 where
  pub now : ℤ
  pub apply_now : ℤ
  pub persist_fault : Fault
  pub write_fault : Fault
  pub load_fault : Fault
  pub reads : Reads

-- An operation returns its result and the state after it.
abbrev pub Outcome {ℓ} : Manager → Type ℓ → Type ℓ
Outcome m A = Result Error A × Controller m

-- The ids of the accounts that are expired at the snapshot's time.
pub expired_set : Snapshot → List ℕ
expired_set s = map (λ (a : Account). a.id) (keep (λ (a : Account). expired_at a s.now) s.accounts)

pub stamp : ℤ → Snapshot → Snapshot
stamp now s = record s { now = some now }

module _ (m : Manager) where
  -- The snapshot is stamped with the time; the ids that it renders as expired are recorded.
  unfoldable pub record_applied : Snapshot → Fault × m.Kernel → Controller m → Fault × Controller m
  record_applied s (some e, k) c = (some e, record c { kernel = k })
  record_applied s (none, k) c = (none, record c { kernel = k; expired = expired_set s })

  unfoldable pub apply_locked : Snapshot → Controller m → Fault × Controller m
  unfolding record_applied
  apply_locked s c = record_applied s (m.apply s c.kernel) c

  -- The reading that reconcile folds: a fresh one, or the last one if there is no table.
  unfoldable pub fresh_live : Controller m → Result Error Sample
  fresh_live c = elim (m.table_exists c.kernel) [
    | err e ↦ err (wrapped probe_table e)
    | ok false ↦ ok c.live
    | ok true ↦ elim (m.sample c.kernel) [ err e ↦ err (wrapped fresh_sample e) | ok s ↦ ok s ]
  ]

  -- Nothing is written if the reading is empty.
  pub fold_live : Fault → Controller m → Result Error Db
  fold_live fault c =
      if is_empty c.live.account_used && is_empty c.live.counters
      then ok c.db
      else persist_usage fault c.live.account_used c.live.counters c.db

  module _ {ℓ} {A : Type ℓ} where
    pub settle : A → Snapshot → Fault × Controller m → Outcome m A
    settle x s (some e, c) = (err (wrapped apply_retried e), record c { snap = s; unsynced = true })
    settle x s (none, c) =
        (ok x, record c { snap = s; unsynced = false; gen = (c.gen + 1) % 2 ^ 64 })

    -- The desired state is read back, checked, and given to the kernel.
    pub rebuild : Env → A → Controller m → Outcome m A
    unfolding settle
    rebuild env x c = elim (load env.load_fault c.db) [
      | err e ↦ (err (wrapped reload e), c)
      | ok s ↦ elim (validate s) [
        | some e ↦ (err e, c)
        | none ↦ settle x (stamp env.apply_now s) (apply_locked (stamp env.apply_now s) c)
      ]
    ]

    pub after_mutate : Env → Outcome m A → Outcome m A
    after_mutate env (err e, c) = (err e, c)
    after_mutate env (ok x, c) = rebuild env x c

    pub after_fold :
        Env → (Controller m → Outcome m A) → Controller m → Result Error Db → Outcome m A
    unfolding after_mutate
    after_fold env mutate c (err e) = (err (wrapped pre_persist e), c)
    after_fold env mutate c (ok db) = after_mutate env (mutate (record c { db = db }))

    pub after_sample :
        Env → (Controller m → Outcome m A) → Controller m → Result Error Sample → Outcome m A
    unfolding after_fold
    after_sample env mutate c (err e) = (err e, c)
    after_sample env mutate c (ok s) =
        let c' = record c { live = s } in after_fold env mutate c' (fold_live env.persist_fault c')

    pub reconcile : Env → (Controller m → Outcome m A) → Controller m → Outcome m A
    unfolding after_sample
    reconcile env mutate c = after_sample env mutate c (fresh_live c)
