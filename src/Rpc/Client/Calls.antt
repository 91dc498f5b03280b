-- ===== src/Rpc/Client/Calls.antt =====
-- The methods of the client in internal/rpc/client.go, as the interface opClient that
-- internal/cli/commands.go uses.
use nfuse.Base.{ℕ, Bool, false, Option, none, some, [], Result, ok, err}
use nfuse.Base.Int.{ℤ, pos}
use nfuse.Base.Text.{Text}
use nfuse.Base.Float64.{Float64, fin}
use nfuse.Model.{Tier}
use nfuse.Rpc.{Method, AccountParams, HealthResult}
use nfuse.Rpc.Client.{
  Link, ClientCodec, ClientError, StateResult, Want, Params, NetError, error_text, tier_text, call,
  account_params, tier_params, delete_params, interval_params, id_params, pair_params,
  expiry_params,
}

-- The client as the commands see it: an error is seen by its text only.
pub record OpClient {ℓ} (W : Type ℓ) : Type ℓ where
  pub read_view : W → StateResult × W
  pub add_account : Text → Tier → Float64 → ℤ → W → Result Text ℕ × W
  pub delete_account : ℕ → Bool → W → Result Text (Unit {0}) × W
  pub set_tier : ℕ → Tier → Float64 → ℤ → W → Result Text (Unit {0}) × W
  pub add_port : ℕ → ℕ → ℕ → W → Result Text (Unit {0}) × W
  pub edit_port : ℕ → ℕ → ℕ → W → Result Text (Unit {0}) × W
  pub delete_port : ℕ → W → Result Text (Unit {0}) × W
  pub move_port : ℕ → ℕ → W → Result Text (Unit {0}) × W
  pub reset_account : ℕ → W → Result Text (Unit {0}) × W
  pub set_usage : ℕ → ℕ → W → Result Text (Unit {0}) × W
  pub set_expiry : ℕ → ℤ → W → Result Text (Unit {0}) × W
  pub force_persist : W → Result Text (Unit {0}) × W
  pub regenerate_token : ℕ → W → Result Text Text × W
  pub master_token : W → Result Text Text × W
  pub regenerate_master_token : W → Result Text Text × W
  pub close : W → Option NetError × W

-- The calls that read no result.
abbrev pub nothing : Want (Unit {0})
nothing = record { absent = tt; decode = none }

abbrev no_health : HealthResult
no_health = record {
  alive = false;
  iface = [];
  kernel_ok = false;
  kernel_version = [];
  uptime_seconds = fin false 0 (pos 0);
  last_persist_unix = pos 0;
}

module _ {ℓ} {W : Type ℓ} where
  unfoldable pub in_text : {A : Type 0} → Result ClientError A × W → Result Text A × W
  in_text (ok x, w) = (ok x, w)
  in_text (err e, w) = (err (error_text e), w)

  -- An error becomes the status of an empty view.
  unfoldable pub as_view : Result ClientError StateResult × W → StateResult × W
  as_view (ok v, w) = (v, w)
  as_view (err e, w) = ((none, error_text e), w)

unfoldable pub account_text : {Key : Type 0} → Key → Tier → Float64 → ℤ → AccountParams Key
account_text key tier limit anchor = record {
  key = key;
  tier = tier_text tier;
  limit_gib = limit;
  anchor_day = anchor;
}

module _ {ℓ} {W : Type ℓ} (link : Link W) (json : ClientCodec) where
  abbrev pub want_state : Want StateResult
  want_state = record { absent = (none, []); decode = some json.read_state }

  abbrev pub want_token : Want Text
  want_token = record { absent = []; decode = some json.read_token }

  abbrev pub want_added : Want ℕ
  want_added = record { absent = 0; decode = some json.read_added }

  abbrev want_health : Want HealthResult
  want_health = record { absent = no_health; decode = some json.read_health }

  pub read_health : W → Result ClientError HealthResult × W
  unfolding call
  read_health w = call link json Method.get_health none want_health w

  unfoldable pub command : Method → Option Params → W → Result Text (Unit {0}) × W
  unfolding call in_text
  command m params w = in_text (call link json m params nothing w)

  unfoldable pub client : OpClient W
  unfolding call in_text as_view command account_text
  client = record {
    read_view = λ w. as_view (call link json Method.get_state none want_state w);
    add_account = λ name tier limit anchor w. in_text (
        call link json Method.add_account
          (some (account_params (account_text name tier limit anchor))) want_added w);
    delete_account = λ id cascade. command Method.delete_account (some (delete_params id cascade));
    set_tier = λ id tier limit anchor.
        command Method.set_tier (some (tier_params (account_text id tier limit anchor)));
    add_port = λ account_id start end.
        command Method.add_port
          (some (interval_params (record { id = account_id; start = start; end = end })));
    edit_port = λ port_id start end.
        command Method.edit_port
          (some (interval_params (record { id = port_id; start = start; end = end })));
    delete_port = λ port_id. command Method.delete_port (some (id_params port_id));
    move_port =
        λ port_id account_id. command Method.move_port (some (pair_params port_id account_id));
    reset_account = λ id. command Method.reset_account (some (id_params id));
    set_usage = λ id used. command Method.set_usage (some (pair_params id used));
    set_expiry = λ id expires. command Method.set_expiry (some (expiry_params id expires));
    force_persist = command Method.force_persist none;
    regenerate_token =
        λ id w. in_text (call link json Method.regenerate_token (some (id_params id)) want_token w);
    master_token = λ w. in_text (call link json Method.get_master_token none want_token w);
    regenerate_master_token =
        λ w. in_text (call link json Method.regenerate_master_token none want_token w);
    close = link.close;
  }
