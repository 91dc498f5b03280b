-- ===== src/Rpc/Live.antt =====
-- The controller of internal/engine/engine.go as the backend of the server in
-- internal/rpc/server.go.
use nfuse.Base.{ℕ, suc, Result, ◌≡◌, not, none, List, any, Bool-cases, Option-cases, inl, inr, ◌==◌}
use nfuse.Base.Text.{Text}
use nfuse.Model.{Error, Port, account, has_quota}
use nfuse.Engine.{Manager, Controller, Env, Outcome}
use nfuse.Engine.Views.{view}
use nfuse.Engine.Mutations
use nfuse.Engine.Tokens
use nfuse.Engine.Loops.{persist_now, persist_copy}
use nfuse.Engine.Invariant.{Inv}
use nfuse.Engine.Mutations.Kept.{
  add_account-Inv, delete_account-Inv, set_tier-Inv, set_expiry-Inv, delete_port-Inv,
  move_tested-Inv, set_usage_tested-Inv, reset_tested-Inv,
}
use nfuse.Engine.Mutations.Ranges.{add_port-Inv, edit_port-Inv}
use nfuse.Engine.Background.{
  regenerate_token-Inv, regenerate_master_token-Inv, persist_copy-Inv, persist_write-Inv,
}
use nfuse.Rpc.{Backend, Codec, Host, handle}
use nfuse.Rpc.Keeping.{ReadsUint16, Keeping, handle_keeps}

-- The controller with what each of its coming calls meets: faults, times and random reads.
abbrev pub Session : Manager → Type 0
Session m = Controller m × (ℕ → Env)

-- One call takes what the next call meets.
in_turn :
    (m : Manager) {A : Type 0}
    → (Env → Controller m → Outcome m A)
    → Session m
    → Result Error A × Session m
in_turn m op s = let r = op (s.1 0) s.0 in (r.0, (r.1, λ i. s.1 (suc i)))

pub controller : (m : Manager) → Backend (Session m)
unfolding in_turn
controller m = record {
  read_view = λ s. view m s.0;
  add_account =
      λ name tier limit anchor. in_turn m λ env. Mutations.add_account m env name tier limit anchor;
  delete_account = λ id cascade. in_turn m λ env. Mutations.delete_account m env id cascade;
  set_tier = λ id tier limit anchor. in_turn m λ env. Mutations.set_tier m env id tier limit anchor;
  add_port = λ account_id start end. in_turn m λ env. Mutations.add_port m env account_id start end;
  edit_port = λ port_id start end. in_turn m λ env. Mutations.edit_port m env port_id start end;
  delete_port = λ id. in_turn m λ env. Mutations.delete_port m env id;
  move_port = λ port_id account_id. in_turn m λ env. Mutations.move_port m env port_id account_id;
  reset_account = λ id. in_turn m λ env. Mutations.reset_account m env id;
  set_usage = λ id used. in_turn m λ env. Mutations.set_usage m env id used;
  set_expiry = λ id expires. in_turn m λ env. Mutations.set_expiry m env id expires;
  force_persist = in_turn m (persist_now m);
  regenerate_token = λ id. in_turn m λ env. Tokens.regenerate_token m env id;
  master_token = λ s. s.0.master_token;
  regenerate_master_token = in_turn m (Tokens.regenerate_master_token m);
  stats = λ s. (s.0.started_at, s.0.last_persist);
}

module _ (m : Manager) (env : Env) (e : env.load_fault ≡ none) where
  move_port-Inv :
      (port_id account_id : ℕ) (c : Controller m)
      → Inv c
      → Inv (Mutations.move_port m env port_id account_id c).1
  unfolding Mutations.move_port
  move_port-Inv port_id account_id c v =
      elim (Bool-cases (not (any (λ (p : Port). p.id == port_id) c.snap.ports))) [
        | inl no_port ↦ rw no_port v
        | inr known ↦ elim (Option-cases (account c.snap.accounts account_id)) [
          | inl no_account ↦ rw (known, no_account) v
          | inr (a, found) ↦ rw (known, found) (move_tested-Inv m env port_id account_id c e v)
        ]
      ]

  set_usage-Inv :
      (id used : ℕ) (c : Controller m) → Inv c → Inv (Mutations.set_usage m env id used c).1
  unfolding Mutations.set_usage
  set_usage-Inv id used c v = elim (Option-cases (account c.snap.accounts id)) [
    | inl no_account ↦ rw (Mutations.set_usage, no_account) v
    | inr (a, found) ↦ elim (Bool-cases (not (has_quota a.tier))) [
      | inl unlimited ↦ rw (Mutations.set_usage, found, unlimited) v
      | inr limited ↦
          rw (Mutations.set_usage, found, limited) (set_usage_tested-Inv m env id used c e v)
    ]
  ]

  reset_account-Inv :
      (id : ℕ) (c : Controller m) → Inv c → Inv (Mutations.reset_account m env id c).1
  unfolding Mutations.reset_account
  reset_account-Inv id c v = elim (Option-cases (account c.snap.accounts id)) [
    | inl no_account ↦ rw (Mutations.reset_account, no_account) v
    | inr (a, found) ↦ elim (Bool-cases (not (has_quota a.tier))) [
      | inl unlimited ↦ rw (Mutations.reset_account, found, unlimited) v
      | inr limited ↦ rw (Mutations.reset_account, found, limited) (reset_tested-Inv m env id c e v)
    ]
  ]

  persist_now-Inv : (c : Controller m) → Inv c → Inv (persist_now m env c).1
  unfolding persist_now
  persist_now-Inv c v =
      persist_write-Inv m env (persist_copy m c).0 (persist_copy m c).1 (persist_copy-Inv m c v)

module _ (m : Manager) where
  -- The invariant, and no call to come whose reload fails.
  abbrev Lasts : Session m → Type 0
  Lasts s = Inv s.0 × ((i : ℕ) → (s.1 i).load_fault ≡ none)

  in_turn-Lasts :
      {A : Type 0} (op : Env → Controller m → Outcome m A)
      → ((env : Env) (c : Controller m) → env.load_fault ≡ none → Inv c → Inv (op env c).1)
      → (s : Session m) → Lasts s
      → Lasts (in_turn m op s).1
  unfolding in_turn
  in_turn-Lasts op keeps s h = (keeps (s.1 0) s.0 (h.1 0) h.0, λ i. h.1 (suc i))

  controller-Keeping : Keeping Lasts (controller m)
  unfolding controller
  controller-Keeping = record {
    add_account = λ name tier limit anchor s v.
        in_turn-Lasts (λ env. Mutations.add_account m env name tier limit anchor)
          (λ env c e w. add_account-Inv m env name tier limit anchor c e w) s v;
    delete_account = λ id cascade s v.
        in_turn-Lasts (λ env. Mutations.delete_account m env id cascade)
          (λ env c e w. delete_account-Inv m env id cascade c e w) s v;
    set_tier = λ id tier limit anchor s v.
        in_turn-Lasts (λ env. Mutations.set_tier m env id tier limit anchor)
          (λ env c e w. set_tier-Inv m env id tier limit anchor c e w) s v;
    add_port = λ id start end s h k v.
        in_turn-Lasts (λ env. Mutations.add_port m env id start end)
          (λ env c e w. add_port-Inv m env id start end c h k e w) s v;
    edit_port = λ id start end s h k v.
        in_turn-Lasts (λ env. Mutations.edit_port m env id start end)
          (λ env c e w. edit_port-Inv m env id start end c h k e w) s v;
    delete_port = λ id s v.
        in_turn-Lasts (λ env. Mutations.delete_port m env id)
          (λ env c e w. delete_port-Inv m env id c e w) s v;
    move_port = λ id account_id s v.
        in_turn-Lasts (λ env. Mutations.move_port m env id account_id)
          (λ env c e w. move_port-Inv m env e id account_id c w) s v;
    reset_account = λ id s v.
        in_turn-Lasts (λ env. Mutations.reset_account m env id)
          (λ env c e w. reset_account-Inv m env e id c w) s v;
    set_usage = λ id used s v.
        in_turn-Lasts (λ env. Mutations.set_usage m env id used)
          (λ env c e w. set_usage-Inv m env e id used c w) s v;
    set_expiry = λ id expires s v.
        in_turn-Lasts (λ env. Mutations.set_expiry m env id expires)
          (λ env c e w. set_expiry-Inv m env id expires c e w) s v;
    force_persist =
        λ s v. in_turn-Lasts (persist_now m) (λ env c e w. persist_now-Inv m env e c w) s v;
    regenerate_token = λ id s v.
        in_turn-Lasts (λ env. Tokens.regenerate_token m env id)
          (λ env c e w. regenerate_token-Inv m env id c w) s v;
    regenerate_master_token = λ s v.
        in_turn-Lasts (Tokens.regenerate_master_token m)
          (λ env c e w. regenerate_master_token-Inv m env c w) s v;
  }

-- Whatever lines a client sends over a connection, wherever the connection breaks, and whatever
-- faults, times and random reads each call meets, the controller keeps its invariant, if port
-- numbers are read into uint16 and no reload fails.
pub handle-Inv :
    (m : Manager) (codec : Codec) (host : Host)
    → ReadsUint16 codec
    → (sends : ℕ) (lines : List Text) (c : Controller m) (envs : ℕ → Env) → Inv c
    → ((i : ℕ) → (envs i).load_fault ≡ none)
    → Inv (handle (controller m) codec host sends lines (c, envs)).1.0
handle-Inv m codec host uint16 sends lines c envs v calm =
    (handle_keeps (Lasts m) (controller m) codec host (controller-Keeping m) uint16 sends lines
      (c, envs) (v, calm)).0
