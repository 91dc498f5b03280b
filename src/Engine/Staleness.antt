-- ===== src/Engine/Staleness.antt =====
-- Readings and copies of internal/engine/engine.go that are older than a mutation: the generation c.gen
-- drops a reading, and nothing drops a copy that persistNow has taken.
use nfuse.Base.{
  ℕ, ◌+◌, ◌%◌, ◌^◌, ◌≡◌, refl, ap, ◌∙◌, false, none, some, ◌==◌, Result, ok, err, Result-cases,
  Option-cases, inl, inr, arith,
}
use nfuse.Base.Text.{Text}
use nfuse.Base.Map.{lookup, nat_eq}
use nfuse.Model.{Snapshot, Error, validate}
use nfuse.Store.{Db, Fault, load, mark_reset}
use nfuse.Engine.{
  Manager, Controller, Env, Outcome, Sample, stamp, record_applied, apply_locked, fresh_live,
  fold_live, settle, rebuild, after_mutate, after_fold, after_sample, reconcile,
}
use nfuse.Engine.Mutations.{write_used, reset_tested}
use nfuse.Engine.Loops.{
  finish_sample, persist_copy, persist_write, persist_written, persist_sample, set_err, fold_used,
}
use nfuse.Engine.Metering.{reset_usage, fold_db, skip_empty, persist_accounts_lem}
use nfuse.Engine.Retry.{UsedIs, fold_used-UsedIs, update-UsedIs}

module _ (m : Manager) where
  -- One tick of sampleLoop: what the lock-free reading gave, against the generation before it.
  sample_tick : (Error → Text) → ℕ → Result Error Sample → Controller m → Controller m
  unfolding finish_sample set_err
  sample_tick words start_gen (err e) c = set_err m (words e) c
  sample_tick words start_gen (ok s) c = finish_sample m start_gen s c

  -- The generation of a success is the next one.
  abbrev Advances : {A : Type 0} → ℕ → Outcome m A → Type 0
  Advances {A} g out = (x : A) → out.0 ≡ ok x → out.1.gen ≡ (g + 1) % 2 ^ 64

  gen-apply_locked : (s : Snapshot) (c : Controller m) → (apply_locked m s c).1.gen ≡ c.gen
  unfolding apply_locked
  gen-apply_locked s c = go (m.apply s c.kernel)
    where
      go : (r : Fault × m.Kernel) → (record_applied m s r c).1.gen ≡ c.gen
      go (some e, k) = refl
      go (none, k) = refl

  module _ {A : Type 0} where
    settle-Advances :
        (g : ℕ) (x : A) (s : Snapshot) (r : Fault × Controller m)
        → r.1.gen ≡ g
        → Advances g (settle m x s r)
    unfolding settle
    settle-Advances g x s (some e, c) same y h = cc
    settle-Advances g x s (none, c) same y h = rw same refl

    rebuild-Advances : (env : Env) (x : A) (c : Controller m) → Advances c.gen (rebuild m env x c)
    unfolding rebuild
    rebuild-Advances env x c = elim (Result-cases (load env.load_fault c.db)) [
      | inr (e, h) ↦ rw (rebuild, h) λ y k. cc
      | inl (s, h) ↦ elim (Option-cases (validate s)) [
        | inr (e, v) ↦ rw (rebuild, h, v) λ y k. cc
        | inl v ↦
            let s' = stamp env.apply_now s in
            rw (rebuild, h, v)
              (settle-Advances c.gen x s' (apply_locked m s' c) (gen-apply_locked s' c))
      ]
    ]

    after_mutate-Advances :
        (env : Env) (g : ℕ) (r : Outcome m A) → r.1.gen ≡ g → Advances g (after_mutate m env r)
    unfolding after_mutate
    after_mutate-Advances env g (err e, c) same y h = cc
    after_mutate-Advances env g (ok x, c) same y h =
        rebuild-Advances env x c y h ∙ ap (λ n. (n + 1) % 2 ^ 64) same

    after_fold-Advances :
        (env : Env) (mutate : Controller m → Outcome m A) (c : Controller m) (r : Result Error Db)
        → ((c' : Controller m) → (mutate c').1.gen ≡ c'.gen)
        → Advances c.gen (after_fold m env mutate c r)
    unfolding after_fold
    after_fold-Advances env mutate c (err e) keeps y h = cc
    after_fold-Advances env mutate c (ok db) keeps y h =
        after_mutate-Advances env c.gen (mutate (record c { db = db }))
          (keeps (record c { db = db })) y h

    reconcile-Advances :
        (env : Env) (mutate : Controller m → Outcome m A) (c : Controller m)
        → ((c' : Controller m) → (mutate c').1.gen ≡ c'.gen)
        → Advances c.gen (reconcile m env mutate c)
    unfolding reconcile after_sample
    reconcile-Advances env mutate c keeps = elim (Result-cases (fresh_live m c)) [
      | inr (e, h) ↦ rw (reconcile, h, after_sample) λ y k. cc
      | inl (s, h) ↦
          rw (reconcile, h, after_sample)
            (after_fold-Advances env mutate (record c { live = s })
              (fold_live m env.persist_fault (record c { live = s })) keeps)
    ]

  gen-write_used :
      (id used : ℕ) (c : Controller m) (o : Result Error Db)
      → (write_used m id used c o).1.gen ≡ c.gen
  unfolding write_used
  gen-write_used id used c (ok db) = refl
  gen-write_used id used c (err e) = refl

  next_differs : (g n : ℕ) → n ≡ (g + 1) % 2 ^ 64 → (n == g) ≡ false
  next_differs g n h = ground (arith, h)

  -- A reading that was taken before a reset does not bring the old usage back: if the reset succeeds
  -- while the reading is under way, the sampler drops the reading and keeps the live view that
  -- the reset has left.
  pub stale_sample_dropped :
      (env : Env) (id : ℕ) (c : Controller m) (stale : Sample)
      → (reset_tested m env id c).0 ≡ ok tt
      → (finish_sample m c.gen stale (reset_tested m env id c).1).live
        ≡ (reset_tested m env id c).1.live
  unfolding finish_sample reset_tested
  stale_sample_dropped env id c stale h =
      let advanced =
        reconcile-Advances env
          (λ c'. write_used m id 0 c' (mark_reset env.write_fault id env.now c'.db)) c
          (λ c'. gen-write_used id 0 c' (mark_reset env.write_fault id env.now c'.db)) tt h in
      rw (next_differs c.gen _ advanced) refl

  pub persist_write_db :
      (env : Env) (copy : Sample) (c : Controller m)
      → env.persist_fault ≡ none
      → (persist_write m env copy c).1.db ≡ fold_db copy c.db
  unfolding persist_write persist_written persist_sample
  persist_write_db env copy c e =
      rw (persist_write, e, persist_sample, skip_empty copy.account_used copy.counters c.db) refl

  -- A copy that persistNow takes before a reset and writes after it brings the old usage back into the
  -- database: if the kernel can be read and the statements work, the account has usage 0 after
  -- the reset, and after the late write the usage that the copy had for it.
  pub late_persist_revives :
      (env late : Env) (id u : ℕ) (c : Controller m) (r : Sample)
      → fresh_live m (persist_copy m c).1 ≡ ok r
      → env.persist_fault ≡ none
      → env.write_fault ≡ none
      → late.persist_fault ≡ none
      → lookup id c.live.account_used ≡ some u
      → UsedIs id 0 (reset_tested m env id (persist_copy m c).1).1.db.accounts
        × UsedIs id u
            (persist_write m late
              (persist_copy m c).0
              (reset_tested m env id (persist_copy m c).1).1).1.db.accounts
  unfolding persist_copy fold_db
  late_persist_revives env late id u c r reads p w q h =
      let c1 = (persist_copy m c).1 in
      let reset = (reset_tested m env id c1).1 in
      (
        rw (reset_usage m env c1 r reads p id w) (
            update-UsedIs id 0 (λ a. record a { used_bytes = 0; last_reset_unix = env.now })
              (fold_used r.account_used c1.db.accounts) (λ a. refl) (λ a. refl)),
        rw
            (
              persist_write_db late c.live reset q,
              persist_accounts_lem c.live.account_used reset.db.accounts,
            )
            (fold_used-UsedIs id u c.live.account_used reset.db.accounts h),
      )
