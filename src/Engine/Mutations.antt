-- ===== src/Engine/Mutations.antt =====
-- The mutations of internal/engine/engine.go.
pub mod Kept
pub mod Ranges
use nfuse.Base.{
  ℕ, Bool, true, false, not, ◌&&◌, ◌||◌, Option, none, some, List, [], ◌∷◌, ◌++◌, map, is_empty,
  keep, find, any, update_where, length, ltb, ◌==◌, if◌then◌else◌, Result, ok, err,
}
use nfuse.Base.Int.{ℤ, pos, ltb_ℤ}
use nfuse.Base.Map.{insert, nat_eq}
use nfuse.Base.Text.{Text}
use nfuse.Base.Float64.{Float64, le_zero}
use nfuse.Model.{
  Account, Port, Snapshot, Tier, Error, invalid_tier, limit_required, anchor_day, out_of_reads,
  still_owns, no_account, no_port, overlaps_existing, port_range, invalid_expiry, unlimited_expiry,
  unlimited_usage, no_quota, valid, has_quota, valid_range, overlaps, ports_for, account,
  normalize_name,
}
use nfuse.Model.Token.{Draw, drew, failed, waiting, unique_token}
use nfuse.Store
use nfuse.Store.{Db}
use nfuse.Engine.{Manager, State, Controller, Env, Outcome, Sample, reconcile}

-- The tests that AddAccount and SetTier share.
pub check_policy : Tier → Float64 → ℤ → Option Error
check_policy tier limit anchor =
    if not (valid tier)
    then some (invalid_tier tier)
    else if has_quota tier && le_zero limit
    then some (limit_required tier)
    else if ltb_ℤ anchor (pos 1) || ltb_ℤ (pos 28) anchor
    then some (anchor_day anchor)
    else none

-- The row that AddAccount hands to the store.
new_account : Text → Tier → Float64 → ℤ → Text → Account
new_account name tier limit anchor token = record {
  id = 0;
  name = name;
  tier = tier;
  limit_gib = limit;
  billing_anchor_day = anchor;
  used_bytes = 0;
  last_reset_unix = pos 0;
  token = token;
  expires_unix = pos 0;
}

unfoldable pub used_tokens : Text → List Account → List Text
used_tokens master accounts =
    (if is_empty master then [] else master ∷ [])
    ++ keep (λ t. not (is_empty t)) (map (λ (a : Account). a.token) accounts)

unfoldable pub token_of : Draw → Result Error Text
token_of (drew t rest) = ok t
token_of (failed e) = err e
token_of waiting = err out_of_reads

-- An end of 0 stands for a single port.
pub new_port : ℕ → ℕ → ℕ → ℕ → Port
new_port id account_id start end = record {
  id = id;
  account_id = account_id;
  start = start;
  end = if end == 0 then start else end;
}

module _ (m : Manager) where
  unfoldable pub unique_token_locked : Env → Controller m → Result Error Text
  unfolding token_of used_tokens
  unique_token_locked env c =
      token_of (unique_token (used_tokens c.master_token c.snap.accounts) env.reads)

  -- A statement of the store inside reconcile.
  pub write : Controller m → Result Error Db → Outcome m (Unit {0})
  write c (err e) = (err e, c)
  write c (ok db) = (ok tt, record c { db = db })

  write_id : Controller m → Result Error (ℕ × Db) → Outcome m ℕ
  write_id c (err e) = (err e, c)
  write_id c (ok (id, db)) = (ok id, record c { db = db })

  create_with : Env → Controller m → Account → Result Error Text → Outcome m ℕ
  unfolding write_id
  create_with env c a (err e) = (err e, c)
  create_with env c a (ok token) =
      write_id c (Store.create_account env.write_fault env.now (record a { token = token }) c.db)

  pub insert_account : Env → Account → Controller m → Outcome m ℕ
  unfolding create_with
  insert_account env a c = create_with env c a (unique_token_locked env c)

  pub add_account : Env → Text → Tier → Float64 → ℤ → Controller m → Outcome m ℕ
  unfolding insert_account new_account
  add_account env name tier limit anchor c = elim (normalize_name name) [
    | err e ↦ (err e, c)
    | ok n ↦ elim (check_policy tier limit anchor) [
      | some e ↦ (err e, c)
      | none ↦ reconcile m env (insert_account env (new_account n tier limit anchor [])) c
    ]
  ]

  pub remove_account : Env → ℕ → Bool → Controller m → Outcome m (Unit {0})
  unfolding write
  remove_account env id cascade c =
      let ports = ports_for c.snap.ports id in
      if ltb 0 (length ports) && not cascade
      then (err (still_owns (length ports)), c)
      else write c (Store.delete_account env.write_fault id c.db)

  pub delete_account : Env → ℕ → Bool → Controller m → Outcome m (Unit {0})
  unfolding remove_account
  delete_account env id cascade c = reconcile m env (remove_account env id cascade) c

  pub set_tier : Env → ℕ → Tier → Float64 → ℤ → Controller m → Outcome m (Unit {0})
  unfolding write
  set_tier env id tier limit anchor c = elim (check_policy tier limit anchor) [
    | some e ↦ (err e, c)
    | none ↦
        reconcile m env (λ c'. write c' (Store.set_tier env.write_fault id tier limit anchor c'.db))
          c
  ]

  pub write_expiry : Env → ℕ → ℤ → Controller m → Outcome m (Unit {0})
  unfolding write
  write_expiry env id expires c = elim (account c.snap.accounts id) [
    | none ↦ (err (no_account id), c)
    | some a ↦
        if not (ltb_ℤ expires (pos 0)) && not (ltb_ℤ (pos 0) expires) || has_quota a.tier
        then write c (Store.set_expiry env.write_fault id expires c.db)
        else (err (unlimited_expiry a.name), c)
  ]

  pub set_expiry : Env → ℕ → ℤ → Controller m → Outcome m (Unit {0})
  unfolding write_expiry
  set_expiry env id expires c =
      if ltb_ℤ expires (pos 0)
      then (err (invalid_expiry expires), c)
      else reconcile m env (write_expiry env id expires) c

  -- The new port's id is dropped.
  pub write_port : Controller m → Result Error (ℕ × Db) → Outcome m (Unit {0})
  write_port c (err e) = (err e, c)
  write_port c (ok (id, db)) = (ok tt, record c { db = db })

  pub insert_port : Env → Port → Controller m → Outcome m (Unit {0})
  unfolding write_port
  insert_port env np c = elim (account c.snap.accounts np.account_id) [
    | none ↦ (err (no_account np.account_id), c)
    | some a ↦ elim (find (λ p. overlaps p np) c.snap.ports) [
      | some p ↦ (err (overlaps_existing np p), c)
      | none ↦ write_port c (Store.create_port env.write_fault np c.db)
    ]
  ]

  pub add_port : Env → ℕ → ℕ → ℕ → Controller m → Outcome m (Unit {0})
  unfolding insert_port new_port
  add_port env account_id start end c =
      let np = new_port 0 account_id start end in
      if not (valid_range np)
      then (err (port_range np), c)
      else reconcile m env (insert_port env np) c

  -- The overlap test leaves out the port itself.
  pub write_interval : Env → Port → Controller m → Outcome m (Unit {0})
  unfolding write
  write_interval env np c = elim (find (λ p. not (p.id == np.id) && overlaps p np) c.snap.ports) [
    | some p ↦ (err (overlaps_existing np p), c)
    | none ↦
        if any (λ p. p.id == np.id) c.snap.ports
        then write c (Store.edit_port env.write_fault np.id np.start np.end c.db)
        else (err (no_port np.id), c)
  ]

  pub edit_port : Env → ℕ → ℕ → ℕ → Controller m → Outcome m (Unit {0})
  unfolding write_interval new_port
  edit_port env port_id start end c =
      let np = new_port port_id 0 start end in
      if not (valid_range np)
      then (err (port_range np), c)
      else reconcile m env (write_interval env np) c

  pub delete_port : Env → ℕ → Controller m → Outcome m (Unit {0})
  unfolding write
  delete_port env id c =
      reconcile m env (λ c'. write c' (Store.delete_port env.write_fault id c'.db)) c

  -- MovePort, SetUsage and ResetAccount test under a lock that they give back before reconcile takes
  -- it: the second part may find another state.
  pub move_tested : Env → ℕ → ℕ → Controller m → Outcome m (Unit {0})
  unfolding write
  move_tested env port_id account_id =
      reconcile m env (λ c. write c (Store.move_port env.write_fault port_id account_id c.db))

  unfoldable pub move_port : Env → ℕ → ℕ → Controller m → Outcome m (Unit {0})
  unfolding move_tested
  move_port env port_id account_id c =
      if not (any (λ p. p.id == port_id) c.snap.ports)
      then (err (no_port port_id), c)
      else elim (account c.snap.accounts account_id) [
        | none ↦ (err (no_account account_id), c)
        | some a ↦ move_tested env port_id account_id c
      ]

  -- After a write of the usage, the view of the kernel is set to it too.
  unfoldable pub write_used : ℕ → ℕ → Controller m → Result Error Db → Outcome m (Unit {0})
  write_used id used c (err e) = (err e, c)
  write_used id used c (ok db) = (
    ok tt,
    record c {
      db = db;
      live = record c.live { account_used = insert id used c.live.account_used };
    },
  )

  unfoldable pub set_usage_tested : Env → ℕ → ℕ → Controller m → Outcome m (Unit {0})
  unfolding write_used
  set_usage_tested env id used =
      reconcile m env (λ c. write_used id used c (Store.set_usage env.write_fault id used c.db))

  unfoldable pub set_usage : Env → ℕ → ℕ → Controller m → Outcome m (Unit {0})
  unfolding set_usage_tested
  set_usage env id used c = elim (account c.snap.accounts id) [
    | none ↦ (err (no_account id), c)
    | some a ↦
        if not (has_quota a.tier)
        then (err (unlimited_usage a.name), c)
        else set_usage_tested env id used c
  ]

  unfoldable pub reset_tested : Env → ℕ → Controller m → Outcome m (Unit {0})
  unfolding write_used
  reset_tested env id =
      reconcile m env (λ c. write_used id 0 c (Store.mark_reset env.write_fault id env.now c.db))

  unfoldable pub reset_account : Env → ℕ → Controller m → Outcome m (Unit {0})
  unfolding reset_tested
  reset_account env id c = elim (account c.snap.accounts id) [
    | none ↦ (err (no_account id), c)
    | some a ↦ if not (has_quota a.tier) then (err (no_quota a.name), c) else reset_tested env id c
  ]
