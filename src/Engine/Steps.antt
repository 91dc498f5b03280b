-- ===== src/Engine/Steps.antt =====
-- The controller's threads as interleaved steps. A client's call, the resync and a reset are one step
-- each, under the lock; a reading and a write of the persister overlap them; traffic changes the
-- kernel at any time.
use nfuse.Base.{ℕ, ◌<◌, ◌^◌, ◌≡◌, Bool, Option, none, some, ok}
use nfuse.Base.Int.{ℤ}
use nfuse.Base.Text.{Text}
use nfuse.Base.Float64.{Float64}
use nfuse.Model.{Tier}
use nfuse.Engine.{Manager, State, Controller, Env, Sample}
use nfuse.Engine.Mutations.{
  add_account, delete_account, set_tier, set_expiry, add_port, edit_port, delete_port, move_tested,
  set_usage_tested, reset_tested,
}
use nfuse.Engine.Tokens.{regenerate_token, regenerate_master_token}
use nfuse.Engine.Loops.{finish_sample, persist_copy, persist_write, resync, set_err, start}
use nfuse.Engine.Invariant.{Inv}
use nfuse.Engine.Mutations.Kept.{
  add_account-Inv, delete_account-Inv, set_tier-Inv, set_expiry-Inv, delete_port-Inv,
  move_tested-Inv, set_usage_tested-Inv, reset_tested-Inv,
}
use nfuse.Engine.Background.{
  regenerate_token-Inv, regenerate_master_token-Inv, resync-Inv, set_err-Inv, finish_sample-Inv,
  persist_copy-Inv, persist_write-Inv,
}
use nfuse.Engine.Mutations.Ranges.{add_port-Inv, edit_port-Inv}

-- What runs under one hold of the lock and changes the state: a call, or the part of it behind the
-- test that MovePort, SetUsage, ResetAccount and syncKernel make under an earlier hold. Port numbers
-- are uint16.
pub data Call : Type 0 where
  adds_account : Text → Tier → Float64 → ℤ → Call
  deletes_account : ℕ → Bool → Call
  sets_tier : ℕ → Tier → Float64 → ℤ → Call
  sets_expiry : ℕ → ℤ → Call
  adds_port : (account_id start end : ℕ) → start < 2 ^ 16 → end < 2 ^ 16 → Call
  edits_port : (port_id start end : ℕ) → start < 2 ^ 16 → end < 2 ^ 16 → Call
  deletes_port : ℕ → Call
  moves_port : ℕ → ℕ → Call
  sets_usage : ℕ → ℕ → Call
  resets_account : ℕ → Call
  regenerates_token : ℕ → Call
  regenerates_master : Call
  syncs : Call

pub perform : (m : Manager) → Env → Call → Controller m → Controller m
perform m env (adds_account name tier limit anchor) c =
    (add_account m env name tier limit anchor c).1
perform m env (deletes_account id cascade) c = (delete_account m env id cascade c).1
perform m env (sets_tier id tier limit anchor) c = (set_tier m env id tier limit anchor c).1
perform m env (sets_expiry id expires) c = (set_expiry m env id expires c).1
perform m env (adds_port account_id start end h k) c = (add_port m env account_id start end c).1
perform m env (edits_port port_id start end h k) c = (edit_port m env port_id start end c).1
perform m env (deletes_port id) c = (delete_port m env id c).1
perform m env (moves_port port_id account_id) c = (move_tested m env port_id account_id c).1
perform m env (sets_usage id used) c = (set_usage_tested m env id used c).1
perform m env (resets_account id) c = (reset_tested m env id c).1
perform m env (regenerates_token id) c = (regenerate_token m env id c).1
perform m env regenerates_master c = (regenerate_master_token m env c).1
perform m env syncs c = (resync m env c).1

-- The sampling loop between two ticks: idle, the generation read, or the reading in hand.
pub data Sampling : Type 0 where
  idle : Sampling
  begun : ℕ → Sampling
  read : ℕ → Sample → Sampling

pub record System (Kernel : Type 0) : Type 0 where
  pub ctl : State Kernel
  pub sampling : Sampling
  pub persisting : Option Sample

-- The reload of a call works; any other statement and the kernel may fail.
pub data Step (m : Manager) : System m.Kernel → System m.Kernel → Type 0 where
  calls :
      (s : System m.Kernel) (env : Env) (call : Call)
      → env.load_fault ≡ none
      → Step m s (record s { ctl = perform m env call s.ctl })
  begins : (s : System m.Kernel) → Step m s (record s { sampling = begun s.ctl.gen })
  reads :
      (s : System m.Kernel) (g : ℕ) (r : Sample)
      → s.sampling ≡ begun g
      → m.sample s.ctl.kernel ≡ ok r
      → Step m s (record s { sampling = read g r })
  fails :
      (s : System m.Kernel) (msg : Text)
      → Step m s (record s { ctl = set_err m msg s.ctl; sampling = idle })
  finishes :
      (s : System m.Kernel) (g : ℕ) (r : Sample)
      → s.sampling ≡ read g r
      → Step m s (record s { ctl = finish_sample m g r s.ctl; sampling = idle })
  copies :
      (s : System m.Kernel)
      → Step m s
          (record s { ctl = (persist_copy m s.ctl).1; persisting = some (persist_copy m s.ctl).0 })
  writes :
      (s : System m.Kernel) (env : Env) (copy : Sample)
      → s.persisting ≡ some copy
      → Step m s (record s { ctl = (persist_write m env copy s.ctl).1; persisting = none })
  traffic :
      (s : System m.Kernel) (k : m.Kernel)
      → Step m s (record s { ctl = record s.ctl { kernel = k } })

pub data Reach (m : Manager) (s : System m.Kernel) : System m.Kernel → Type 0 where
  here : Reach m s s
  next : {t u : System m.Kernel} → Reach m s t → Step m t u → Reach m s u

module _ (m : Manager) where
  module _ (env : Env) (e : env.load_fault ≡ none) where
    perform-Inv : (call : Call) (c : Controller m) → Inv c → Inv (perform m env call c)
    unfolding perform
    perform-Inv (adds_account name tier limit anchor) c v =
        add_account-Inv m env name tier limit anchor c e v
    perform-Inv (deletes_account id cascade) c v = delete_account-Inv m env id cascade c e v
    perform-Inv (sets_tier id tier limit anchor) c v = set_tier-Inv m env id tier limit anchor c e v
    perform-Inv (sets_expiry id expires) c v = set_expiry-Inv m env id expires c e v
    perform-Inv (adds_port account_id start end h k) c v =
        add_port-Inv m env account_id start end c h k e v
    perform-Inv (edits_port port_id start end h k) c v =
        edit_port-Inv m env port_id start end c h k e v
    perform-Inv (deletes_port id) c v = delete_port-Inv m env id c e v
    perform-Inv (moves_port port_id account_id) c v = move_tested-Inv m env port_id account_id c e v
    perform-Inv (sets_usage id used) c v = set_usage_tested-Inv m env id used c e v
    perform-Inv (resets_account id) c v = reset_tested-Inv m env id c e v
    perform-Inv (regenerates_token id) c v = regenerate_token-Inv m env id c v
    perform-Inv regenerates_master c v = regenerate_master_token-Inv m env c v
    perform-Inv syncs c v = resync-Inv m env c e v

  Step-Inv : {s t : System m.Kernel} → Step m s t → Inv s.ctl → Inv t.ctl
  Step-Inv (calls s env call e) v = perform-Inv env e call s.ctl v
  Step-Inv (begins s) v = v
  Step-Inv (reads s g r h k) v = v
  Step-Inv (fails s msg) v = set_err-Inv m msg s.ctl v
  Step-Inv (finishes s g r h) v = finish_sample-Inv m g r s.ctl v
  Step-Inv (copies s) v = persist_copy-Inv m s.ctl v
  Step-Inv (writes s env copy h) v = persist_write-Inv m env copy s.ctl v
  Step-Inv (traffic s k) v = record { db_valid = v.db_valid; ports_synced = v.ports_synced }

  -- From a state with the invariant every interleaving of calls, resyncs, readings, writes of the
  -- persister and traffic, with any failures but a failed reload, leads to one with the invariant:
  -- the database is well-formed, and the ports in memory are those that Load reads.
  pub Reach-Inv : {s t : System m.Kernel} → Reach m s t → Inv s.ctl → Inv t.ctl
  Reach-Inv here v = v
  Reach-Inv (next r st) v = Step-Inv st (Reach-Inv r v)
