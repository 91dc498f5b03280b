-- ===== src/Engine/Sync.antt =====
-- syncKernel of internal/engine/engine.go: that the kernel catches up.
use nfuse.Base.{
  ℕ, ◌≤◌, ◌<◌, ◌≡◌, refl, sym, ◌∙◌, true, false, ◌||◌, none, some, List, [], ◌∷◌, map, keep, any,
  ◌==◌, ==_iff, All, All-mono, Result, ok, err, Bool-cases, inl, inr, arith,
}
use mathlib.Core.Path.{subst}
use nfuse.Base.Int.{ℤ}
use nfuse.Base.Sort.{Ascending}
use nfuse.Model.{Account, Snapshot, expired_at, validate}
use nfuse.Store.{mark_reset, update_account, persist_usage, Db, Fault, load_rows}
use nfuse.Store.Rows.{validate-load_rows, DbIsValid, accounts-load_rows, account_ids}
use nfuse.Engine.{
  Manager, Controller, Env, Sample, expired_set, stamp, record_applied, apply_locked, fresh_live,
  settle, rebuild, after_mutate,
}
use nfuse.Model.Validation.{validate_at}
use nfuse.Store.Keeps.{Keeps}
use nfuse.Store.Changes.{mark_reset-Keeps}
use nfuse.Base.Map.{insert, nat_eq}
use nfuse.Engine.Mutations.{write_used, reset_tested}
use nfuse.Model.{Error}
use nfuse.Engine.Loops.{resync, drifted, sync_kernel}
use nfuse.Engine.Invariant.{Inv, persist_usage-FoldKeeps, rebuild_settled}
use nfuse.Engine.Metering.{folded, fold_db, reconcile_folds}

-- The ids of the expired accounts of a list.
abbrev expired_ids : ℤ → List Account → List ℕ
expired_ids now accounts =
    map (λ (a : Account). a.id) (keep (λ (a : Account). expired_at a (some now)) accounts)

any_above :
    (now : ℤ) (id low high : ℕ) (accounts : List Account)
    → id ≤ low
    → Ascending low (account_ids accounts) high
    → any (λ i. i == id) (expired_ids now accounts) ≡ false
any_above now id low high [] h asc = refl
any_above now id low high (a ∷ rest) h asc = elim (Bool-cases (expired_at a (some now))) [
  | inl e ↦
      rw e
        (ground (arith, h, asc.0, any_above now id a.id high rest (omega (arith, h, asc.0)) asc.1))
  | inr e ↦ rw e (any_above now id a.id high rest (omega (arith, h, asc.0)) asc.1)
]

abbrev Fits : ℤ → List ℕ → ℕ → Account → Type 0
Fits now ids low a = (low < a.id) × (any (λ i. i == a.id) ids ≡ expired_at a (some now))

expired_ids-Fits :
    (now : ℤ) (low high : ℕ) (accounts : List Account)
    → Ascending low (account_ids accounts) high
    → All (Fits now (expired_ids now accounts) low) accounts
expired_ids-Fits now low high [] asc = tt
expired_ids-Fits now low high (a ∷ rest) asc =
    let ih = expired_ids-Fits now a.id high rest asc.1 in
    let above = any_above now a.id a.id high rest (omega arith) asc.1 in
    elim (Bool-cases (expired_at a (some now))) [
      | inl e ↦
          let ids : expired_ids now (a ∷ rest) ≡ a.id ∷ expired_ids now rest = rw e refl in
          subst (λ l. All (Fits now l low) (a ∷ rest)) (sym ids)
            (
              (asc.0, ground (arith, e, ==_iff a.id a.id)),
              All-mono (λ b h. (omega (arith, asc.0, h.0), ground (arith, h.0, h.1))) rest ih,
            )
      | inr e ↦
          let ids : expired_ids now (a ∷ rest) ≡ expired_ids now rest = rw e refl in
          subst (λ l. All (Fits now l low) (a ∷ rest)) (sym ids)
            ((asc.0, above ∙ sym e), All-mono (λ b h. (omega (arith, asc.0, h.0), h.1)) rest ih)
    ]

Fits-drifted :
    (m : Manager) (now : ℤ) (ids : List ℕ) (low : ℕ) (accounts : List Account)
    → All (Fits now ids low) accounts
    → drifted m now ids accounts ≡ false
unfolding drifted
Fits-drifted m now ids low [] h = refl
Fits-drifted m now ids low (a ∷ rest) h = ground (arith, h.0.1, Fits-drifted m now ids low rest h.1)

module _ (m : Manager) where
  -- The kernel takes the ruleset of every snapshot that Validate accepts.
  abbrev pub Accepts : Type 0
  Accepts = (s : Snapshot) (k : m.Kernel) → validate s ≡ none → (m.apply s k).0 ≡ none

  -- Nothing is left for syncKernel to do at a time.
  pub record IsInStep (now : ℤ) (c : Controller m) : Type 0 where
    synced : c.unsynced ≡ false
    no_drift : drifted m now c.expired c.snap.accounts ≡ false

  settle-IsInStep :
      (now : ℤ) (s : Snapshot) (r : Fault × Controller m)
      → r.0 ≡ none
      → r.1.expired ≡ expired_set s
      → drifted m now (expired_set s) s.accounts ≡ false
      → ((settle m (tt {0}) s r).0 ≡ ok (tt {0})) × IsInStep now (settle m (tt {0}) s r).1
  unfolding settle
  settle-IsInStep now s (some e, c) h same quiet = cc
  settle-IsInStep now s (none, c) h same quiet =
      (refl, record { synced = refl; no_drift = rw same quiet })

  applied_lem :
      (s : Snapshot) (c : Controller m) (r : Fault × m.Kernel)
      → r.0 ≡ none
      → ((record_applied m s r c).0 ≡ none) × ((record_applied m s r c).1.expired ≡ expired_set s)
  unfolding record_applied
  applied_lem s c (none, k) h = (refl, refl)
  applied_lem s c (some e, k) h = cc

  stamped_quiet :
      (now : ℤ) (db : Db)
      → DbIsValid db
      → drifted m now (expired_set (stamp now (load_rows db))) (stamp now (load_rows db)).accounts
        ≡ false
  unfolding expired_set stamp
  stamped_quiet now db v = rw (accounts-load_rows db v) (
      Fits-drifted m now (expired_ids now db.accounts) 0 db.accounts
        (expired_ids-Fits now 0 db.last_account db.accounts v.accounts_ascend))

  rebuild-IsInStep :
      (env : Env) (c : Controller m)
      → Accepts
      → env.load_fault ≡ none
      → DbIsValid c.db
      → ((rebuild m env (tt {0}) c).0 ≡ ok (tt {0}))
        × IsInStep env.apply_now (rebuild m env (tt {0}) c).1
  unfolding apply_locked stamp
  rebuild-IsInStep env c accepts e v =
      let s = stamp env.apply_now (load_rows c.db) in
      let applied = applied_lem s c (m.apply s c.kernel) (
        accepts s c.kernel
          (validate_at (load_rows c.db) env.apply_now ∙ validate-load_rows c.db v)) in
      rw (rebuild_settled m env (tt {0}) c e v) (
        settle-IsInStep env.apply_now s (apply_locked m s c) applied.0 applied.1
          (stamped_quiet env.apply_now c.db v))

  folded-DbIsValid : (r : Sample) (c : Controller m) → DbIsValid c.db → DbIsValid (folded m r c).db
  unfolding folded fold_db persist_usage
  folded-DbIsValid r c v = (persist_usage-FoldKeeps none r.account_used r.counters c.db v).0

  -- From a state with the invariant: once the kernel takes the rulesets of the snapshots that Validate
  -- accepts again and can be read, and the statements work, one tick of syncLoop that finds the
  -- kernel behind brings it in step. The reconcile succeeds, nothing waits to be applied any more,
  -- and the accounts that are blocked are exactly those that are expired at the time of the apply.
  pub sync_kernel-IsInStep :
      (env : Env) (c : Controller m) (r : Sample)
      → Accepts
      → Inv c
      → fresh_live m c ≡ ok r
      → env.persist_fault ≡ none
      → env.load_fault ≡ none
      → (c.unsynced || drifted m env.now c.expired c.snap.accounts) ≡ true
      → ((sync_kernel m env c).0 ≡ ok (tt {0})) × IsInStep env.apply_now (sync_kernel m env c).1
  unfolding sync_kernel resync after_mutate
  sync_kernel-IsInStep env c r accepts v reads p e behind =
      rw (sync_kernel, behind, resync, reconcile_folds m env (λ c'. (ok (tt {0}), c')) c r reads p)
        (rebuild-IsInStep env (folded m r c) accepts e (folded-DbIsValid r c v.db_valid))

  write_used-IsInStep :
      (env : Env) (id used : ℕ) (c : Controller m) (o : Result Error Db) (db : Db)
      → Accepts
      → env.load_fault ≡ none
      → o ≡ ok db
      → DbIsValid db
      → ((after_mutate m env (write_used m id used c o)).0 ≡ ok (tt {0}))
        × IsInStep env.apply_now (after_mutate m env (write_used m id used c o)).1
  unfolding after_mutate write_used
  write_used-IsInStep env id used c (ok db) db' accepts e same v =
      let db_same : db' ≡ db = ground (arith, same) in
      rebuild-IsInStep env
        (record c {
          db = db;
          live = record c.live { account_used = insert id used c.live.account_used };
        })
        accepts e (subst DbIsValid db_same v)
  write_used-IsInStep env id used c (err x) db' accepts e same v = cc

  -- A reset succeeds and leaves the kernel in step, if the kernel takes the rulesets of valid snapshots, can be read, and the
  -- statements work.
  pub reset-IsInStep :
      (env : Env) (id : ℕ) (c : Controller m) (r : Sample)
      → Accepts
      → Inv c
      → fresh_live m c ≡ ok r
      → env.persist_fault ≡ none
      → env.write_fault ≡ none
      → env.load_fault ≡ none
      → ((reset_tested m env id c).0 ≡ ok (tt {0}))
        × IsInStep env.apply_now (reset_tested m env id c).1
  unfolding reset_tested mark_reset
  reset-IsInStep env id c r accepts v reads p w e =
      let c1 = folded m r c in
      let db =
        update_account id (λ a. record a { used_bytes = 0; last_reset_unix = env.now }) c1.db in
      let written : mark_reset env.write_fault id env.now c1.db ≡ ok db = rw (mark_reset, w) refl in
      let valid : DbIsValid db =
        subst Keeps written
          (mark_reset-Keeps env.write_fault id env.now c1.db (folded-DbIsValid r c v.db_valid)) in
      rw
        (reconcile_folds m env
          (λ c'. write_used m id 0 c' (mark_reset env.write_fault id env.now c'.db)) c r reads p)
        (write_used-IsInStep env id 0 c1 (mark_reset env.write_fault id env.now c1.db) db accepts e
          written valid)
