-- ===== src/Engine/Invariant.antt =====
-- The invariant of internal/engine/engine.go: the database is well-formed, and the ports in memory
-- are the ports that Load reads. Here: that reconcile keeps it around any mutation that does.
use nfuse.Base.{
  ℕ, ◌≡◌, refl, sym, ap, ◌∙◌, ◌&&◌, ◌⊎◌, true, false, Option-cases, none, some, is_empty, arith,
  Result, ok, err, inl, inr, Bool-cases,
}
use nfuse.Base.Map.{Map}
use nfuse.Model.{Counter, CounterKey, Snapshot, Error, validate, wrapped, apply_retried}
use nfuse.Store.{Db, Fault, load, load_rows, persist_usage}
use nfuse.Store.Rows.{DbIsValid, validate-load_rows}
use nfuse.Store.Changes.{persist_usage-Keeps}
use nfuse.Engine.{
  Manager, State, Controller, Env, Outcome, Sample, stamp, record_applied, apply_locked, fresh_live,
  fold_live, settle, rebuild, after_mutate, after_fold, after_sample, reconcile,
}

pub record Inv {Kernel : Type 0} (c : State Kernel) : Type 0 where
  pub db_valid : DbIsValid c.db
  pub ports_synced : c.snap.ports ≡ (load_rows c.db).ports

-- What a mutation inside reconcile owes: on success a well-formed database, on an error the
-- invariant.
abbrev pub MutationKeeps {ℓ} :
    {Kernel : Type 0} {A : Type ℓ} → Result Error A × State Kernel → Type 0
MutationKeeps (ok x, c) = DbIsValid c.db
MutationKeeps (err e, c) = Inv c

-- The ports that Load reads depend on the ports alone.
pub ports-load : (db db' : Db) → db'.ports ≡ db.ports → (load_rows db').ports ≡ (load_rows db).ports
unfolding load_rows
ports-load db db' e = rw e

abbrev pub FoldKeeps : Db → Result Error Db → Type 0
FoldKeeps db (ok db') = DbIsValid db' × (db'.ports ≡ db.ports)
FoldKeeps db (err e) = Unit {0}

pub persist_usage-FoldKeeps :
    (fault : Fault) (used : Map ℕ ℕ) (counters : Map CounterKey Counter) (db : Db)
    → DbIsValid db
    → FoldKeeps db (persist_usage fault used counters db)
unfolding persist_usage
persist_usage-FoldKeeps (some e) used counters db v = tt
persist_usage-FoldKeeps none used counters db v =
    (persist_usage-Keeps none used counters db v, refl)

module _ (m : Manager) where
  fold_live-FoldKeeps :
      (fault : Fault) (c : Controller m) → DbIsValid c.db → FoldKeeps c.db (fold_live m fault c)
  unfolding fold_live
  fold_live-FoldKeeps fault c v =
      elim (Bool-cases (is_empty c.live.account_used && is_empty c.live.counters)) [
        | inl empty ↦ rw empty (v, refl)
        | inr full ↦
            rw full (persist_usage-FoldKeeps fault c.live.account_used c.live.counters c.db v)
      ]

  pub db-apply_locked : (s : Snapshot) (c : Controller m) → (apply_locked m s c).1.db ≡ c.db
  unfolding apply_locked
  db-apply_locked s c = go (m.apply s c.kernel)
    where
      go : (r : Fault × m.Kernel) → (record_applied m s r c).1.db ≡ c.db
      go (some e, k) = refl
      go (none, k) = refl

  module _ {ℓ} {A : Type ℓ} where
    pub rebuild_settled :
        (env : Env) (x : A) (c : Controller m)
        → env.load_fault ≡ none
        → DbIsValid c.db
        → rebuild m env x c
          ≡ settle m x
              (stamp env.apply_now (load_rows c.db))
              (apply_locked m (stamp env.apply_now (load_rows c.db)) c)
    unfolding rebuild load
    rebuild_settled env x c e v = ground (arith, e, validate-load_rows c.db v)

    -- The kernel has been given the snapshot, memory has it too, and the outcome is the kernel's.
    abbrev pub Given : A → Snapshot → Controller m → Outcome m A → Type ℓ
    Given x s c after =
        (after.1.kernel ≡ (m.apply s c.kernel).1)
        × (after.1.snap ≡ s)
        × (after.1.db ≡ c.db)
        × ((((m.apply s c.kernel).0 ≡ none) × (after.0 ≡ ok x) × (after.1.unsynced ≡ false))
            ⊎ ((e : Error) × ((m.apply s c.kernel).0 ≡ some e)
                × (after.0 ≡ err (wrapped apply_retried e))
                × (after.1.unsynced ≡ true)))

    settle-Given :
        (x : A) (s : Snapshot) (c : Controller m) (r : Fault × m.Kernel)
        → m.apply s c.kernel ≡ r
        → Given x s c (settle m x s (record_applied m s r c))
    unfolding settle record_applied
    settle-Given x s c (some e, k) h = rw h (refl, refl, refl, inr (e, refl, refl, refl))
    settle-Given x s c (none, k) h = rw h (refl, refl, refl, inl (refl, refl, refl))

    -- When the reload works, a rebuild does one of two things. If Validate accepts the rows of the database,
    -- it gives the kernel exactly these rows with the time of the apply, and keeps them in memory;
    -- it reports the error of the kernel, and that there is something to retry, exactly if the
    -- kernel refuses. If Validate rejects the rows, it returns that error and changes nothing, and
    -- the database was not well-formed.
    pub rebuild_reaches_kernel :
        (env : Env) (x : A) (c : Controller m)
        → env.load_fault ≡ none
        → ((validate (load_rows c.db) ≡ none)
            × Given x (record (load_rows c.db) { now = some env.apply_now }) c (rebuild m env x c))
          ⊎ ((e : Error) × (validate (load_rows c.db) ≡ some e)
              × (rebuild m env x c ≡ (err e, c))
              × ¬ DbIsValid c.db)
    unfolding rebuild load stamp apply_locked
    rebuild_reaches_kernel env x c works = elim (Option-cases (validate (load_rows c.db))) [
      | inr (e, rejected) ↦ inr (
        e,
        rejected,
        rw (rebuild, works, rejected) refl,
        λ v. (let accepted = validate-load_rows c.db v in cc),
      )
      | inl accepted ↦ inl (
        accepted,
        rw (rebuild, works, accepted)
            (settle-Given x (record (load_rows c.db) { now = some env.apply_now }) c
              (m.apply (record (load_rows c.db) { now = some env.apply_now }) c.kernel) refl),
      )
    ]

    settle-Inv :
        (x : A) (s : Snapshot) (r : Fault × Controller m)
        → DbIsValid r.1.db
        → s.ports ≡ (load_rows r.1.db).ports
        → Inv (settle m x s r).1
    unfolding settle
    settle-Inv x s (some e, c) v h = record { db_valid = v; ports_synced = h }
    settle-Inv x s (none, c) v h = record { db_valid = v; ports_synced = h }

    rebuild-Inv :
        (env : Env) (x : A) (c : Controller m)
        → env.load_fault ≡ none
        → DbIsValid c.db
        → Inv (rebuild m env x c).1
    unfolding stamp
    rebuild-Inv env x c e v =
        let s = stamp env.apply_now (load_rows c.db) in
        let same = db-apply_locked s c in
        rw (rebuild_settled env x c e v) (
          settle-Inv x s (apply_locked m s c) (rw same v)
            (sym (ports-load c.db (apply_locked m s c).1.db (ap (λ (d : Db). d.ports) same))))

    after_mutate-Inv :
        (env : Env) (r : Outcome m A)
        → env.load_fault ≡ none
        → MutationKeeps r
        → Inv (after_mutate m env r).1
    unfolding after_mutate
    after_mutate-Inv env (err x, c) e h = h
    after_mutate-Inv env (ok x, c) e h = rebuild-Inv env x c e h

    after_fold-Inv :
        (env : Env) (mutate : Controller m → Outcome m A) (c : Controller m) (r : Result Error Db)
        → env.load_fault ≡ none
        → ((c' : Controller m) → Inv c' → MutationKeeps (mutate c'))
        → Inv c
        → FoldKeeps c.db r
        → Inv (after_fold m env mutate c r).1
    unfolding after_fold
    after_fold-Inv env mutate c (err x) e keeps v h = v
    after_fold-Inv env mutate c (ok db) e keeps v h =
        after_mutate-Inv env (mutate (record c { db = db })) e (
          keeps (record c { db = db })
            (record {
              db_valid = h.0;
              ports_synced = v.ports_synced ∙ sym (ports-load c.db db h.1);
            }))

    after_sample-Inv :
        (env : Env) (mutate : Controller m → Outcome m A) (c : Controller m)
        (r : Result Error Sample)
        → env.load_fault ≡ none
        → ((c' : Controller m) → Inv c' → MutationKeeps (mutate c'))
        → Inv c
        → Inv (after_sample m env mutate c r).1
    unfolding after_sample
    after_sample-Inv env mutate c (err x) e keeps v = v
    after_sample-Inv env mutate c (ok s) e keeps v =
        let c' = record c { live = s } in
        after_fold-Inv env mutate c' (fold_live m env.persist_fault c') e keeps
          (record { db_valid = v.db_valid; ports_synced = v.ports_synced })
          (fold_live-FoldKeeps env.persist_fault c' v.db_valid)

    -- Whatever the kernel and the statements report, reconcile keeps the invariant, if the reload
    -- works and the mutation keeps the database well-formed.
    pub reconcile-Inv :
        (env : Env) (mutate : Controller m → Outcome m A) (c : Controller m)
        → env.load_fault ≡ none
        → ((c' : Controller m) → Inv c' → MutationKeeps (mutate c'))
        → Inv c
        → Inv (reconcile m env mutate c).1
    unfolding reconcile
    reconcile-Inv env mutate c e keeps v = after_sample-Inv env mutate c (fresh_live m c) e keeps v
