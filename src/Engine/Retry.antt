-- ===== src/Engine/Retry.antt =====
-- A refused apply of internal/engine/engine.go and the resync after it.
use mathlib.Core.Path.{subst}
use nfuse.Base.{
  ℕ, ◌≡◌, refl, sym, ap, ◌∙◌, true, none, some, List, [], ◌∷◌, All, Result, Result-cases, ok, err,
  arith, Option-cases, inl, inr, ◌==◌, update_where,
}
use nfuse.Base.Map.{Map, lookup, nat_eq}
use nfuse.Model.{Account, Snapshot, Error, validate}
use nfuse.Store.{Db, Fault, load, mark_reset}
use nfuse.Engine.{
  Manager, Controller, Env, Outcome, Sample, stamp, record_applied, apply_locked, fresh_live,
  settle, rebuild, after_mutate,
}
use nfuse.Engine.Mutations.{write_used, reset_tested}
use nfuse.Engine.Loops.{fold_used, resync}
use nfuse.Engine.Metering.{folded, reconcile_folds, resync_usage, reset_usage}

-- The rows of an account hold a usage.
abbrev pub UsedIs : ℕ → ℕ → List Account → Type 0
UsedIs id u = All (λ a. a.id ≡ id → a.used_bytes ≡ u)

pub fold_used-UsedIs :
    (id u : ℕ) (used : Map ℕ ℕ) (rows : List Account)
    → lookup id used ≡ some u
    → UsedIs id u (fold_used used rows)
unfolding fold_used
fold_used-UsedIs id u used [] h = tt
fold_used-UsedIs id u used (a ∷ rows) h =
    (λ e. ground (arith, h, e), fold_used-UsedIs id u used rows h)

pub update-UsedIs :
    (id u : ℕ) (f : Account → Account) (rows : List Account)
    → ((a : Account) → (f a).id ≡ a.id)
    → ((a : Account) → (f a).used_bytes ≡ u)
    → UsedIs id u (update_where (λ a. a.id == id) f rows)
update-UsedIs id u f [] same set = tt
update-UsedIs id u f (a ∷ rows) same set =
    (λ e. ground (arith, e, same a, set a), update-UsedIs id u f rows same set)

module _ (m : Manager) where
  -- The kernel refuses every ruleset, and keeps the one that it has.
  abbrev Refuses : m.Kernel → Type 0
  Refuses k = (s : Snapshot) → (e : Error) × (m.apply s k ≡ (some e, k))

  kernel-settle :
      {A : Type 0} (x : A) (s : Snapshot) (r : Fault × Controller m)
      → (settle m x s r).1.kernel ≡ r.1.kernel
  unfolding settle
  kernel-settle x s (some e, c) = refl
  kernel-settle x s (none, c) = refl

  kernel-apply_locked :
      (s : Snapshot) (c : Controller m)
      → Refuses c.kernel
      → (apply_locked m s c).1.kernel ≡ c.kernel
  unfolding apply_locked record_applied
  kernel-apply_locked s c refuses =
      let (e, h) = refuses s in rw (h, apply_locked, record_applied) refl

  kernel-rebuild :
      {A : Type 0} (env : Env) (x : A) (c : Controller m)
      → Refuses c.kernel
      → (rebuild m env x c).1.kernel ≡ c.kernel
  unfolding rebuild
  kernel-rebuild env x c refuses = elim (Result-cases (load env.load_fault c.db)) [
    | inr (e, h) ↦ rw (h, rebuild) refl
    | inl (s, h) ↦ elim (Option-cases (validate s)) [
      | inr (e, k) ↦ rw (h, k, rebuild) refl
      | inl k ↦
          let s' = stamp env.apply_now s in
          rw (h, k, rebuild)
            (kernel-settle x s' (apply_locked m s' c) ∙ kernel-apply_locked s' c refuses)
    ]
  ]

  kernel-after_mutate :
      {A : Type 0} (env : Env) (k : m.Kernel) (r : Outcome m A)
      → r.1.kernel ≡ k
      → Refuses k
      → (after_mutate m env r).1.kernel ≡ k
  unfolding after_mutate
  kernel-after_mutate env k (err e, c) same refuses = same
  kernel-after_mutate env k (ok x, c) same refuses =
      kernel-rebuild env x c (subst Refuses (sym same) refuses) ∙ same

  kernel-write_used :
      (id used : ℕ) (c : Controller m) (o : Result Error Db)
      → (write_used m id used c o).1.kernel ≡ c.kernel
  unfolding write_used
  kernel-write_used id used c (ok db) = refl
  kernel-write_used id used c (err e) = refl

  module _ (c : Controller m) (r : Sample) (refuses : Refuses c.kernel)
      (table : m.table_exists c.kernel ≡ ok true) (reading : m.sample c.kernel ≡ ok r) where
    fresh_live_of : (c' : Controller m) → c'.kernel ≡ c.kernel → fresh_live m c' ≡ ok r
    unfolding fresh_live
    fresh_live_of c' e = rw (ap m.table_exists e ∙ table, ap m.sample e ∙ reading, fresh_live) refl

    kernel-reset :
        (env : Env) (id : ℕ)
        → env.persist_fault ≡ none
        → (reset_tested m env id c).1.kernel ≡ c.kernel
    unfolding reset_tested folded
    kernel-reset env id p =
        ap (λ o. o.1.kernel) (reconcile_folds m env _ c r (fresh_live_of c refl) p)
        ∙ kernel-after_mutate env c.kernel
            (write_used m id 0 (folded m r c)
              (mark_reset env.write_fault id env.now (folded m r c).db))
            (kernel-write_used id 0 (folded m r c)
              (mark_reset env.write_fault id env.now (folded m r c).db))
            refuses

    -- While the kernel refuses every ruleset and can still be read, and the statements work, a reset is
    -- undone by the resync that follows: the database first holds usage 0 for the account, and after
    -- the resync the usage that the kernel still counts.
    pub reset_undone :
        (env retry : Env) (id u : ℕ)
        → env.persist_fault ≡ none
        → env.write_fault ≡ none
        → retry.persist_fault ≡ none
        → lookup id r.account_used ≡ some u
        → UsedIs id 0 (reset_tested m env id c).1.db.accounts
          × UsedIs id u (resync m retry (reset_tested m env id c).1).1.db.accounts
    reset_undone env retry id u p w q h = (
      rw (reset_usage m env c r (fresh_live_of c refl) p id w) (
          update-UsedIs id 0 (λ a. record a { used_bytes = 0; last_reset_unix = env.now })
            (fold_used r.account_used c.db.accounts) (λ a. refl) (λ a. refl)),
      rw
          (resync_usage m retry (reset_tested m env id c).1 r
            (fresh_live_of _ (kernel-reset env id p)) q)
          (fold_used-UsedIs id u r.account_used _ h),
    )
