-- ===== src/Engine/Metering.antt =====
-- Usage across reconcile of internal/engine/engine.go: what the kernel has counted is folded into the
-- database before a mutation writes, and what the mutation writes survives the rebuild.
use nfuse.Base.{
  ℕ, ◌≡◌, refl, sym, ap, ◌∙◌, ◌&&◌, none, some, List, [], ◌∷◌, is_empty, update_where, Result,
  Result-cases, ok, err, arith, inl, inr, Option-cases, if◌then◌else◌, ◌==◌, ==_iff,
}
use nfuse.Base.Map.{Map, lookup, nat_eq}
use nfuse.Model.{Account, Counter, CounterKey, Snapshot, Error, validate}
use nfuse.Store.{
  Db, Fault, load, update_account, set_usage, mark_reset, persist_accounts, persist_counters,
  persist_usage,
}
use nfuse.Engine.{
  Manager, Controller, Env, Outcome, Sample, stamp, record_applied, apply_locked, fresh_live,
  fold_live, settle, rebuild, after_mutate, after_fold, after_sample, reconcile,
}
use nfuse.Engine.Mutations.{write_used, reset_tested, set_usage_tested}
use nfuse.Engine.Loops.{fold_used, resync}

-- A row with the reading of its account.
abbrev fold_row : Map ℕ ℕ → Account → Account
fold_row used a = elim (lookup a.id used) [ some u ↦ record a { used_bytes = u } | none ↦ a ]

fold_row_step :
    (id u : ℕ) (used : Map ℕ ℕ) (a : Account)
    → (if (fold_row used a).id == id
        then record (fold_row used a) { used_bytes = u }
        else fold_row used a)
      ≡ fold_row ((id, u) ∷ used) a
fold_row_step id u used a = ground (arith, ==_iff a.id id)

update-fold_used :
    (id u : ℕ) (used : Map ℕ ℕ) (rows : List Account)
    → update_where (λ a. a.id == id) (λ a. record a { used_bytes = u }) (fold_used used rows)
      ≡ fold_used ((id, u) ∷ used) rows
unfolding fold_used
update-fold_used id u used [] = refl
update-fold_used id u used (a ∷ rows) =
    cc (fold_row_step id u used a, update-fold_used id u used rows)

pub fold_used-nil : (rows : List Account) → fold_used [] rows ≡ rows
unfolding fold_used
fold_used-nil [] = refl
fold_used-nil (a ∷ rows) = cc (fold_used-nil rows)

-- The UPDATE statements of PersistUsage leave every row with its reading, if it has one.
pub persist_accounts_lem :
    (used : Map ℕ ℕ) (rows : List Account) → persist_accounts used rows ≡ fold_used used rows
unfolding persist_accounts
persist_accounts_lem [] rows = sym (fold_used-nil rows)
persist_accounts_lem ((id, u) ∷ used) rows =
    ap (update_where (λ a. a.id == id) (λ a. record a { used_bytes = u }))
      (persist_accounts_lem used rows)
    ∙ update-fold_used id u used rows

-- The database with a reading folded in.
unfoldable pub fold_db : Sample → Db → Db
fold_db r db = record db {
  accounts = persist_accounts r.account_used db.accounts;
  counters = persist_counters r.counters db.counters;
}

pub skip_empty :
    (used : Map ℕ ℕ) (counters : Map CounterKey Counter) (db : Db)
    → (if is_empty used && is_empty counters then ok db else persist_usage none used counters db)
      ≡ ok (fold_db (record { counters = counters; account_used = used }) db)
unfolding fold_db persist_usage persist_accounts persist_counters
skip_empty [] [] db = refl
skip_empty [] (c ∷ counters) db = refl
skip_empty (u ∷ used) counters db = refl

module _ (m : Manager) where
  fold_live_lem : (c : Controller m) → fold_live m none c ≡ ok (fold_db c.live c.db)
  unfolding fold_live
  fold_live_lem c = skip_empty c.live.account_used c.live.counters c.db

  db-settle :
      {A : Type 0} (x : A) (s : Snapshot) (r : Fault × Controller m)
      → (settle m x s r).1.db ≡ r.1.db
  unfolding settle
  db-settle x s (some e, c) = refl
  db-settle x s (none, c) = refl

  db-apply_locked : (s : Snapshot) (c : Controller m) → (apply_locked m s c).1.db ≡ c.db
  unfolding apply_locked
  db-apply_locked s c = go (m.apply s c.kernel)
    where
      go : (r : Fault × m.Kernel) → (record_applied m s r c).1.db ≡ c.db
      go (some e, k) = refl
      go (none, k) = refl

  -- The rebuild writes nothing to the database, whatever it meets.
  db-rebuild : {A : Type 0} (env : Env) (x : A) (c : Controller m) → (rebuild m env x c).1.db ≡ c.db
  unfolding rebuild
  db-rebuild env x c = elim (Result-cases (load env.load_fault c.db)) [
    | inr (e, h) ↦ rw (h, rebuild) refl
    | inl (s, h) ↦ elim (Option-cases (validate s)) [
      | inr (e, k) ↦ rw (h, k, rebuild) refl
      | inl k ↦
          rw (h, k, rebuild)
            (db-settle x (stamp env.apply_now s) (apply_locked m (stamp env.apply_now s) c)
              ∙ db-apply_locked (stamp env.apply_now s) c)
    ]
  ]

  db-after_mutate :
      {A : Type 0} (env : Env) (r : Outcome m A) → (after_mutate m env r).1.db ≡ r.1.db
  unfolding after_mutate
  db-after_mutate env (err e, c) = refl
  db-after_mutate env (ok x, c) = db-rebuild env x c

  -- The state that a mutation meets: the reading is the live view, and is folded into the database.
  unfoldable pub folded : Sample → Controller m → Controller m
  folded r c = record c { live = r; db = fold_db r c.db }

  pub reconcile_folds :
      {A : Type 0} (env : Env) (mutate : Controller m → Outcome m A) (c : Controller m) (r : Sample)
      → fresh_live m c ≡ ok r
      → env.persist_fault ≡ none
      → reconcile m env mutate c ≡ after_mutate m env (mutate (folded r c))
  unfolding reconcile after_sample after_fold folded
  reconcile_folds env mutate c r h p = ground (arith, h, p, fold_live_lem (record c { live = r }))

  db-reconcile :
      {A : Type 0} (env : Env) (mutate : Controller m → Outcome m A) (c : Controller m) (r : Sample)
      → fresh_live m c ≡ ok r
      → env.persist_fault ≡ none
      → (reconcile m env mutate c).1.db ≡ (mutate (folded r c)).1.db
  db-reconcile env mutate c r h p =
      ap (λ o. o.1.db) (reconcile_folds env mutate c r h p)
      ∙ db-after_mutate env (mutate (folded r c))

  -- The rows after a statement that writes a usage and works.
  accounts-write_used :
      (id used : ℕ) (c : Controller m) (o : Result Error Db) (db : Db)
      → o ≡ ok db
      → (write_used m id used c o).1.db.accounts ≡ db.accounts
  unfolding write_used
  accounts-write_used id used c o db h = rw (h, write_used) refl

  accounts-folded :
      (r : Sample) (c : Controller m)
      → (folded r c).db.accounts ≡ fold_used r.account_used c.db.accounts
  unfolding folded fold_db
  accounts-folded r c = persist_accounts_lem r.account_used c.db.accounts

-- The rows of an account with another usage.
abbrev pub with_used : ℕ → ℕ → List Account → List Account
with_used id used = update_where (λ a. a.id == id) (λ a. record a { used_bytes = used })

module _ (m : Manager) (env : Env) (c : Controller m) (r : Sample) (h : fresh_live m c ≡ ok r)
    (p : env.persist_fault ≡ none) where
  -- If the kernel can be read and the statement that saves the reading works, a resync leaves in the
  -- database what the kernel has counted, whatever the rebuild meets.
  pub resync_usage : (resync m env c).1.db.accounts ≡ fold_used r.account_used c.db.accounts
  unfolding resync
  resync_usage =
      ap (λ (d : Db). d.accounts) (db-reconcile m env (λ c'. (ok tt, c')) c r h p)
      ∙ accounts-folded m r c

  -- If the kernel can be read and the statements work, SetUsage writes the target for its account,
  -- and leaves to all others what the kernel has counted, whatever the rebuild meets.
  pub set_usage_lem :
      (id used : ℕ)
      → env.write_fault ≡ none
      → (set_usage_tested m env id used c).1.db.accounts
        ≡ with_used id used (fold_used r.account_used c.db.accounts)
  unfolding set_usage_tested set_usage update_account
  set_usage_lem id used w =
      ap (λ (d : Db). d.accounts) (db-reconcile m env _ c r h p)
      ∙ accounts-write_used m id used (folded m r c)
          (set_usage env.write_fault id used (folded m r c).db)
          (update_account id (λ a. record a { used_bytes = used }) (folded m r c).db) (rw w)
      ∙ ap (with_used id used) (accounts-folded m r c)

  -- If the kernel can be read and the statements work, ResetAccount sets the usage of its account to
  -- 0 and its last reset to now, and leaves to all others what the kernel has counted, whatever the
  -- rebuild meets.
  pub reset_usage :
      (id : ℕ)
      → env.write_fault ≡ none
      → (reset_tested m env id c).1.db.accounts
        ≡ update_where
            (λ (a : Account). a.id == id)
            (λ a. record a { used_bytes = 0; last_reset_unix = env.now })
            (fold_used r.account_used c.db.accounts)
  unfolding reset_tested mark_reset update_account
  reset_usage id w =
      ap (λ (d : Db). d.accounts) (db-reconcile m env _ c r h p)
      ∙ accounts-write_used m id 0 (folded m r c)
          (mark_reset env.write_fault id env.now (folded m r c).db)
          (update_account id (λ a. record a { used_bytes = 0; last_reset_unix = env.now })
            (folded m r c).db)
          (rw w)
      ∙ ap
          (update_where (λ (a : Account). a.id == id)
            (λ a. record a { used_bytes = 0; last_reset_unix = env.now }))
          (accounts-folded m r c)
