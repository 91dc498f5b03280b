-- ===== src/Rpc/Client/Refinement.antt =====
-- What it is for a client, such as that of internal/rpc/client.go, to implement the backend of
-- internal/rpc/server.go: each of its methods is the operation of the backend at the other end.
use nfuse.Base.{ℕ, ◌≡◌, Bool, false, some, Result, ok, err}
use nfuse.Base.Int.{ℤ}
use nfuse.Base.Text.{Text}
use nfuse.Base.Float64.{Float64}
use nfuse.Model.{Tier, Error}
use nfuse.Rpc.{Backend, Codec, Method, tier_of, state}
use nfuse.Rpc.Client.{ClientCodec, account_params, tier_params, tier_text, has_conn_words}
use nfuse.Rpc.Client.Calls.{OpClient, account_text}
use nfuse.Rpc.Client.Carrying.{Wording}

unfoldable pub told : {A : Type 0} → Wording → Result Error A → Result Text A
told words (ok x) = ok x
told words (err e) = err (words.of_error e)

-- The words of an error do not make it look like a broken connection.
abbrev pub Quiet : {A : Type 0} → Wording → Result Error A → Type 0
Quiet words r = (e : Error) → r ≡ err e → has_conn_words (words.of_error e) ≡ false

-- The call found what the operation returns, and the two sides are still connected.
abbrev pub Same :
    {A S W : Type 0} → Wording → (S → W → Type 0) → Result Error A × S → Result Text A × W → Type 0
Same words At out found = (found.0 ≡ told words out.0) × At out.1 found.1

-- Each method of a client is the operation of a backend: the same result, an error by its text, and
-- the same change of the state.
pub record Implements {S W : Type 0} (words : Wording) (codec : Codec) (json : ClientCodec)
    (At : S → W → Type 0) (be : Backend S) (cl : OpClient W) : Type 0 where
  pub read_view :
      (s : S) (w : W) (raw : Text)
      → At s w
      → codec.write_result (state (be.read_view s).0 (be.read_view s).1) ≡ ok raw
      → ((cl.read_view w).0 ≡ (some (be.read_view s).0, (be.read_view s).1))
        × At s (cl.read_view w).1
  pub add_account :
      (name : Text) (tier : Tier) (limit : Float64) (anchor : ℤ) (raw : Text) (s : S) (w : W)
      → At s w
      → tier_of (tier_text tier) ≡ tier
      → json.write_params Method.add_account (account_params (account_text name tier limit anchor))
        ≡ ok raw
      → Quiet words (be.add_account name tier limit anchor s).0
      → Same words At
          (be.add_account name tier limit anchor s)
          (cl.add_account name tier limit anchor w)
  pub delete_account :
      (id : ℕ) (cascade : Bool) (s : S) (w : W)
      → At s w
      → Quiet words (be.delete_account id cascade s).0
      → Same words At (be.delete_account id cascade s) (cl.delete_account id cascade w)
  pub set_tier :
      (id : ℕ) (tier : Tier) (limit : Float64) (anchor : ℤ) (raw : Text) (s : S) (w : W)
      → At s w
      → tier_of (tier_text tier) ≡ tier
      → json.write_params Method.set_tier (tier_params (account_text id tier limit anchor)) ≡ ok raw
      → Quiet words (be.set_tier id tier limit anchor s).0
      → Same words At (be.set_tier id tier limit anchor s) (cl.set_tier id tier limit anchor w)
  pub add_port :
      (id start end : ℕ) (s : S) (w : W)
      → At s w
      → Quiet words (be.add_port id start end s).0
      → Same words At (be.add_port id start end s) (cl.add_port id start end w)
  pub edit_port :
      (id start end : ℕ) (s : S) (w : W)
      → At s w
      → Quiet words (be.edit_port id start end s).0
      → Same words At (be.edit_port id start end s) (cl.edit_port id start end w)
  pub delete_port :
      (id : ℕ) (s : S) (w : W)
      → At s w
      → Quiet words (be.delete_port id s).0
      → Same words At (be.delete_port id s) (cl.delete_port id w)
  pub move_port :
      (id account_id : ℕ) (s : S) (w : W)
      → At s w
      → Quiet words (be.move_port id account_id s).0
      → Same words At (be.move_port id account_id s) (cl.move_port id account_id w)
  pub reset_account :
      (id : ℕ) (s : S) (w : W)
      → At s w
      → Quiet words (be.reset_account id s).0
      → Same words At (be.reset_account id s) (cl.reset_account id w)
  pub set_usage :
      (id used : ℕ) (s : S) (w : W)
      → At s w
      → Quiet words (be.set_usage id used s).0
      → Same words At (be.set_usage id used s) (cl.set_usage id used w)
  pub set_expiry :
      (id : ℕ) (expires : ℤ) (s : S) (w : W)
      → At s w
      → Quiet words (be.set_expiry id expires s).0
      → Same words At (be.set_expiry id expires s) (cl.set_expiry id expires w)
  pub force_persist :
      (s : S) (w : W)
      → At s w
      → Quiet words (be.force_persist s).0
      → Same words At (be.force_persist s) (cl.force_persist w)
  pub regenerate_token :
      (id : ℕ) (s : S) (w : W)
      → At s w
      → Quiet words (be.regenerate_token id s).0
      → Same words At (be.regenerate_token id s) (cl.regenerate_token id w)
  pub master_token :
      (s : S) (w : W)
      → At s w
      → ((cl.master_token w).0 ≡ ok (be.master_token s)) × At s (cl.master_token w).1
  pub regenerate_master_token :
      (s : S) (w : W)
      → At s w
      → Quiet words (be.regenerate_master_token s).0
      → Same words At (be.regenerate_master_token s) (cl.regenerate_master_token w)
