-- ===== src/Engine/Mutations/Kept.antt =====
-- The mutations of internal/engine/engine.go keep the invariant: the tests that they make before
-- their statement are enough for a well-formed database.
use nfuse.Base.{
  ℕ, ◌≡◌, refl, ◌∙◌, Bool, true, false, not, ◌&&◌, Option, none, some, [], find, find-none_iff, All,
  arith, Result, ok, err, inl, inr, Bool-cases, Option-cases, ltb, length,
}
use nfuse.Base.Int.{ℤ}
use nfuse.Base.Text.{Text}
use nfuse.Base.Float64.{Float64, le_zero}
use nfuse.Base.Sort.{All-sort_by}
use nfuse.Model.{Account, Port, Tier, Error, valid, has_quota, ports_for, normalize_name}
use nfuse.Model.Validation.{AccountIsAccepted}
use nfuse.Store
use nfuse.Store.{Db}
use nfuse.Store.Rows.{DbIsValid, ports-load_rows}
use nfuse.Store.Keeps.{Keeps, delete_account-Keeps, delete_port-Keeps}
use nfuse.Store.Changes.{
  set_tier-Keeps, set_expiry-Keeps, set_usage-Keeps, mark_reset-Keeps, move_port-Keeps,
}
use nfuse.Store.Intervals.{KeepsId, create_account-Keeps}
use nfuse.Engine.{Manager, Controller, Env, Outcome, reconcile}
use nfuse.Engine.Invariant.{Inv, MutationKeeps, reconcile-Inv}
use nfuse.Engine.Mutations.{
  check_policy, new_account, unique_token_locked, write, write_id, write_port, write_used,
  create_with, insert_account, add_account, remove_account, delete_account, set_tier, write_expiry,
  set_expiry, delete_port, move_tested, set_usage_tested, reset_tested,
}

check_policy_sound :
    (tier : Tier) (limit : Float64) (anchor : ℤ)
    → check_policy tier limit anchor ≡ none
    → (valid tier ≡ true) × ((has_quota tier && le_zero limit) ≡ false)
unfolding check_policy
check_policy_sound tier limit anchor h = ground arith

module _ (m : Manager) where
  pub write-Keeps :
      (c : Controller m) (r : Result Error Db) → Inv c → Keeps r → MutationKeeps (write m c r)
  unfolding write
  write-Keeps c (ok db) v h = h
  write-Keeps c (err e) v h = v

  write_id-Keeps :
      (c : Controller m) (r : Result Error (ℕ × Db))
      → Inv c
      → KeepsId r
      → MutationKeeps (write_id m c r)
  unfolding write_id
  write_id-Keeps c (ok (id, db)) v h = h
  write_id-Keeps c (err e) v h = v

  pub write_port-Keeps :
      (c : Controller m) (r : Result Error (ℕ × Db))
      → Inv c
      → KeepsId r
      → MutationKeeps (write_port m c r)
  unfolding write_port
  write_port-Keeps c (ok (id, db)) v h = h
  write_port-Keeps c (err e) v h = v

  write_used-Keeps :
      (id used : ℕ) (c : Controller m) (r : Result Error Db)
      → Inv c
      → Keeps r
      → MutationKeeps (write_used m id used c r)
  unfolding write_used
  write_used-Keeps id used c (ok db) v h = h
  write_used-Keeps id used c (err e) v h = v

  -- A test of the ports in memory is one of the ports in the database.
  pub ports_in_db :
      (test : Port → Bool) (c : Controller m)
      → Inv c
      → find test c.snap.ports ≡ none
      → All (λ p. test p ≡ false) c.db.ports
  ports_in_db test c v h =
      (All-sort_by (λ (p : Port). p.start) (λ p. test p ≡ false) c.db.ports).0 (
        rw (← (v.ports_synced ∙ ports-load_rows c.db v.db_valid))
          ((find-none_iff test c.snap.ports).0 h))

  insert_account-Keeps :
      (env : Env) (a : Account) (c : Controller m)
      → AccountIsAccepted a
      → Inv c
      → MutationKeeps (insert_account m env a c)
  unfolding insert_account
  insert_account-Keeps env a c h v = go (unique_token_locked m env c)
    where
      go : (r : Result Error Text) → MutationKeeps (create_with m env c a r)
      go (err e) = v
      go (ok token) =
          write_id-Keeps c
            (Store.create_account env.write_fault env.now (record a { token = token }) c.db) v
            (create_account-Keeps env.write_fault env.now (record a { token = token }) c.db h
              v.db_valid)

  pub add_account-Inv :
      (env : Env) (name : Text) (tier : Tier) (limit : Float64) (anchor : ℤ) (c : Controller m)
      → env.load_fault ≡ none
      → Inv c
      → Inv (add_account m env name tier limit anchor c).1
  unfolding add_account
  add_account-Inv env name tier limit anchor c e v = named (normalize_name name)
    where
      tested :
          (n : Text) (r : Option Error)
          → check_policy tier limit anchor ≡ r
          → Inv
              (elim r as (λ _. Outcome m ℕ) [
                | some x ↦ (err x, c)
                | none ↦
                    reconcile m env (insert_account m env (new_account n tier limit anchor [])) c
              ]).1
      tested n (some x) h = v
      tested n none h =
          reconcile-Inv m env (insert_account m env (new_account n tier limit anchor [])) c e
            (λ c' v'.
              insert_account-Keeps env (new_account n tier limit anchor []) c'
                (check_policy_sound tier limit anchor h) v')
            v

      named :
          (r : Result Error Text)
          → Inv
              (elim r as (λ _. Outcome m ℕ) [
                | err x ↦ (err x, c)
                | ok n ↦ elim (check_policy tier limit anchor) [
                  | some x ↦ (err x, c)
                  | none ↦
                      reconcile m env (insert_account m env (new_account n tier limit anchor [])) c
                ]
              ]).1
      named (err x) = v
      named (ok n) = tested n (check_policy tier limit anchor) refl

  pub delete_account-Inv :
      (env : Env) (id : ℕ) (cascade : Bool) (c : Controller m)
      → env.load_fault ≡ none
      → Inv c
      → Inv (delete_account m env id cascade c).1
  unfolding delete_account remove_account
  delete_account-Inv env id cascade c e v =
      reconcile-Inv m env (remove_account m env id cascade) c e (λ c' v'. kept c' v') v
    where
      kept : (c' : Controller m) → Inv c' → MutationKeeps (remove_account m env id cascade c')
      kept c' v' = elim (Bool-cases (ltb 0 (length (ports_for c'.snap.ports id)) && not cascade)) [
        | inl owns ↦ rw (owns, remove_account) v'
        | inr free ↦
            rw (free, remove_account)
              (write-Keeps c' (Store.delete_account env.write_fault id c'.db) v'
                (delete_account-Keeps env.write_fault id c'.db v'.db_valid))
      ]

  pub set_tier-Inv :
      (env : Env) (id : ℕ) (tier : Tier) (limit : Float64) (anchor : ℤ) (c : Controller m)
      → env.load_fault ≡ none
      → Inv c
      → Inv (set_tier m env id tier limit anchor c).1
  unfolding set_tier
  set_tier-Inv env id tier limit anchor c e v =
      elim (Option-cases (check_policy tier limit anchor)) [
        | inr (x, h) ↦ rw (h, set_tier) v
        | inl h ↦
            rw (h, set_tier)
              (reconcile-Inv m env _ c e
                (λ c' v'.
                  write-Keeps c' (Store.set_tier env.write_fault id tier limit anchor c'.db) v' (
                    set_tier-Keeps env.write_fault id tier limit anchor c'.db
                      (check_policy_sound tier limit anchor h).0
                      (check_policy_sound tier limit anchor h).1 v'.db_valid))
                v)
      ]

  -- A mutation that makes one statement, which keeps the database well-formed.
  write-Inv :
      (env : Env) (statement : Db → Result Error Db) (c : Controller m)
      → env.load_fault ≡ none
      → ((db : Db) → DbIsValid db → Keeps (statement db))
      → Inv c
      → Inv (reconcile m env (λ c'. write m c' (statement c'.db)) c).1
  write-Inv env statement c e keeps v =
      reconcile-Inv m env (λ c'. write m c' (statement c'.db)) c e
        (λ c' v'. write-Keeps c' (statement c'.db) v' (keeps c'.db v'.db_valid)) v

  write_used-Inv :
      (env : Env) (id used : ℕ) (statement : Db → Result Error Db) (c : Controller m)
      → env.load_fault ≡ none
      → ((db : Db) → DbIsValid db → Keeps (statement db))
      → Inv c
      → Inv (reconcile m env (λ c'. write_used m id used c' (statement c'.db)) c).1
  write_used-Inv env id used statement c e keeps v =
      reconcile-Inv m env (λ c'. write_used m id used c' (statement c'.db)) c e
        (λ c' v'. write_used-Keeps id used c' (statement c'.db) v' (keeps c'.db v'.db_valid)) v

  write_expiry-Keeps :
      (env : Env) (id : ℕ) (expires : ℤ) (c : Controller m)
      → Inv c
      → MutationKeeps (write_expiry m env id expires c)
  unfolding write_expiry
  write_expiry-Keeps env id expires c v = ground (
    arith,
    v,
    write-Keeps c (Store.set_expiry env.write_fault id expires c.db) v
        (set_expiry-Keeps env.write_fault id expires c.db v.db_valid),
  )

  pub set_expiry-Inv :
      (env : Env) (id : ℕ) (expires : ℤ) (c : Controller m)
      → env.load_fault ≡ none
      → Inv c
      → Inv (set_expiry m env id expires c).1
  unfolding set_expiry
  set_expiry-Inv env id expires c e v = ground (
    arith,
    v,
    reconcile-Inv m env (write_expiry m env id expires) c e
        (λ (c' : Controller m) (v' : Inv c'). write_expiry-Keeps env id expires c' v') v,
  )

  pub delete_port-Inv :
      (env : Env) (id : ℕ) (c : Controller m)
      → env.load_fault ≡ none
      → Inv c
      → Inv (delete_port m env id c).1
  unfolding delete_port
  delete_port-Inv env id c e v =
      write-Inv env (Store.delete_port env.write_fault id) c e
        (λ db h. delete_port-Keeps env.write_fault id db h) v

  pub move_tested-Inv :
      (env : Env) (port_id account_id : ℕ) (c : Controller m)
      → env.load_fault ≡ none
      → Inv c
      → Inv (move_tested m env port_id account_id c).1
  unfolding move_tested
  move_tested-Inv env port_id account_id c e v =
      write-Inv env (Store.move_port env.write_fault port_id account_id) c e
        (λ db h. move_port-Keeps env.write_fault port_id account_id db h) v

  pub set_usage_tested-Inv :
      (env : Env) (id used : ℕ) (c : Controller m)
      → env.load_fault ≡ none
      → Inv c
      → Inv (set_usage_tested m env id used c).1
  unfolding set_usage_tested
  set_usage_tested-Inv env id used c e v =
      write_used-Inv env id used (Store.set_usage env.write_fault id used) c e
        (λ db h. set_usage-Keeps env.write_fault id used db h) v

  pub reset_tested-Inv :
      (env : Env) (id : ℕ) (c : Controller m)
      → env.load_fault ≡ none
      → Inv c
      → Inv (reset_tested m env id c).1
  unfolding reset_tested
  reset_tested-Inv env id c e v =
      write_used-Inv env id 0 (Store.mark_reset env.write_fault id env.now) c e
        (λ db h. mark_reset-Keeps env.write_fault id env.now db h) v
