-- ===== src/Engine/Loops/Restart.antt =====
-- Which usage New of internal/engine/engine.go starts from: the database's on a cold start, the kernel's where
-- a table is left from before.
use mathlib.Core.Path.{subst}
use nfuse.Base.{
  ℕ, ◌≡◌, refl, sym, ap, ◌∙◌, Bool, Bool-cases, true, none, some, List, [], ◌∷◌, Result,
  Result-cases, ok, err, inl, inr, Option-cases, is_empty, ◌&&◌, if◌then◌else◌,
}
use nfuse.Model.{Account, Snapshot, Error, Counter, CounterKey}
use nfuse.Base.Map.{Map}
use nfuse.Store
use nfuse.Store.{Db, Fault, load, load_rows, persist_usage}
use nfuse.Engine.{Manager, Controller, Env, Sample, stamp, record_applied, apply_locked}
use nfuse.Engine.Metering.{fold_db, fold_used-nil, skip_empty, persist_accounts_lem}
use nfuse.Engine.Loops.{
  fold_used, fold_sample, persist_sample, fresh, adopt_sample, adopt_live_state, start_applied,
  start_apply, start_probe, start,
}

-- The usage to start from: the kernel's for the accounts that it has, if its table is there.
pub counted : Bool → Sample → List Account → List Account
counted there live rows = if there then fold_used live.account_used rows else rows

ok_accounts : (x y : Db) → ◌≡◌ {A = Result Error Db} (ok x) (ok y) → y.accounts ≡ x.accounts
ok_accounts x y e = cc

accounts-written :
    (fault : Fault) (used : Map ℕ ℕ) (counters : Map CounterKey Counter) (d d' : Db)
    → (if is_empty used && is_empty counters then ok d else persist_usage fault used counters d)
      ≡ ok d'
    → d'.accounts ≡ fold_used used d.accounts
unfolding persist_usage fold_db
accounts-written (some e) [] [] d d' h = ok_accounts d d' h ∙ sym (fold_used-nil d.accounts)
accounts-written (some e) [] (c ∷ counters) d d' h = cc
accounts-written (some e) (u ∷ used) counters d d' h = cc
accounts-written none used counters d d' h =
    ok_accounts _ d' (sym (skip_empty used counters d) ∙ h) ∙ persist_accounts_lem used d.accounts

module _ (m : Manager) (env : Env) (db : Db) (k : m.Kernel) (there : Bool) (live : Sample) where
  abbrev Probed : Result Error (Controller m) → Type 0
  Probed (err e) = Unit {0}
  Probed (ok c) =
      (c.db.accounts ≡ counted there live db.accounts)
      × (c.snap.accounts ≡ counted there live (load_rows db).accounts)
      × (c.kernel ≡ k)

  abbrev Begun : Result Error (Controller m) → Type 0
  Begun (err e) = Unit {0}
  Begun (ok c) =
      (c.db.accounts ≡ counted there live db.accounts)
      × (c.snap.accounts ≡ counted there live (load_rows db).accounts)
      × (m.apply c.snap k ≡ (none, c.kernel))

  start_applied-Begun :
      (c : Controller m)
      → Probed (ok c)
      → (s : Snapshot) → s.accounts ≡ c.snap.accounts
      → Begun (start_applied m s (apply_locked m s c))
  unfolding start_applied apply_locked record_applied
  start_applied-Begun c p s same = go (m.apply s c.kernel) refl
    where
      go :
          (r : Fault × m.Kernel)
          → m.apply s c.kernel ≡ r
          → Begun (start_applied m s (record_applied m s r c))
      go (some e, k') h = tt
      go (none, k') h = (p.0, same ∙ p.1, ap (m.apply s) (sym p.2) ∙ h)

  start_apply-Begun : (r : Result Error (Controller m)) → Probed r → Begun (start_apply m env r)
  unfolding start_apply stamp
  start_apply-Begun (err e) p = tt
  start_apply-Begun (ok c) p = start_applied-Begun c p (stamp env.apply_now c.snap) refl

  adopt_sample-Probed :
      (c : Controller m)
      → there ≡ true
      → c.db ≡ db
      → c.snap ≡ load_rows db
      → c.kernel ≡ k
      → Probed (adopt_sample m env c (ok live))
  unfolding adopt_sample fold_sample counted persist_sample
  adopt_sample-Probed c is_there at rows on =
      elim (Result-cases (persist_sample env.persist_fault live c.db)) [
        | inr (e, failed) ↦ rw (adopt_sample, failed) tt
        | inl (d, written) ↦
            rw (adopt_sample, written, is_there)
              (
                accounts-written env.persist_fault live.account_used live.counters c.db d written
                    ∙ ap (λ (x : Db). fold_used live.account_used x.accounts) at,
                ap (λ (x : Snapshot). fold_used live.account_used x.accounts) rows,
                on,
              )
      ]

  module _ (probed : m.table_exists k ≡ ok there)
      (sampled : there ≡ true → m.sample k ≡ ok live) where
    start_probe-Probed :
        (c : Controller m)
        → c.db ≡ db
        → c.snap ≡ load_rows db
        → c.kernel ≡ k
        → Probed (start_probe m env c)
    unfolding start_probe adopt_live_state counted
    start_probe-Probed c at rows on = elim (Bool-cases there) [
      | inl is_there ↦
          rw
            (
              start_probe,
              ap m.table_exists on ∙ probed ∙ ap ok is_there,
              adopt_live_state,
              ap m.sample on ∙ sampled is_there,
            )
            (adopt_sample-Probed c is_there at rows on)
      | inr absent ↦
          rw (start_probe, on, probed, absent)
            (ap (λ (x : Db). x.accounts) at, ap (λ (x : Snapshot). x.accounts) rows, on)
    ]

    start-Begun : Begun (start m env db k)
    unfolding start load fresh
    start-Begun = elim (Option-cases env.load_fault) [
      | inr (e, failed) ↦ rw (start, failed) tt
      | inl works ↦ elim (Result-cases (Store.master_token env.write_fault db)) [
        | inr (e, failed) ↦ rw (start, works, failed) tt
        | inl (master, found) ↦
            let c = fresh m env db k (load_rows db) master in
            rw (start, works, found)
              (start_apply-Begun (start_probe m env c) (start_probe-Probed c refl refl refl))
      ]
    ]

    -- A controller that starts has taken the usage that the kernel counts where its table is there, and
    -- that of the database where it is not; the same usage is in the database, in memory and in the
    -- ruleset that the kernel has taken.
    pub start_usage :
        (c : Controller m)
        → start m env db k ≡ ok c
        → (c.db.accounts ≡ counted there live db.accounts)
          × (c.snap.accounts ≡ counted there live (load_rows db).accounts)
          × (m.apply c.snap k ≡ (none, c.kernel))
    start_usage c h = subst Begun h start-Begun
