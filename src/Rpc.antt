-- ===== src/Rpc.antt =====
-- internal/rpc/rpc.go and server.go: the requests of a client, and the server that gives them to a
-- backend. encoding/json is a parameter.
pub mod Serving
pub mod Listening
pub mod Keeping
pub mod Live
pub mod Answers
pub mod Client
use nfuse.Base.{
  ℕ, zero, suc, Bool, true, false, Option, none, some, List, [], ◌∷◌, is_empty, if◌then◌else◌,
  Result, ok, err,
}
use nfuse.Base.Int.{ℤ, pos}
use nfuse.Base.Text.{Text, codes, text_eq}
use nfuse.Base.Float64.{Float64}
use nfuse.Model.{Tier, monthly, one_shot, unlimited, other, Error}
use nfuse.Engine.Views.{AccountView}

-- The engine surface that the server needs, over a state.
pub record Backend {ℓ} (S : Type ℓ) : Type ℓ where
  pub read_view : S → List AccountView × Text
  pub add_account : Text → Tier → Float64 → ℤ → S → Result Error ℕ × S
  pub delete_account : ℕ → Bool → S → Result Error (Unit {0}) × S
  pub set_tier : ℕ → Tier → Float64 → ℤ → S → Result Error (Unit {0}) × S
  pub add_port : ℕ → ℕ → ℕ → S → Result Error (Unit {0}) × S
  pub edit_port : ℕ → ℕ → ℕ → S → Result Error (Unit {0}) × S
  pub delete_port : ℕ → S → Result Error (Unit {0}) × S
  pub move_port : ℕ → ℕ → S → Result Error (Unit {0}) × S
  pub reset_account : ℕ → S → Result Error (Unit {0}) × S
  pub set_usage : ℕ → ℕ → S → Result Error (Unit {0}) × S
  pub set_expiry : ℕ → ℤ → S → Result Error (Unit {0}) × S
  pub force_persist : S → Result Error (Unit {0}) × S
  pub regenerate_token : ℕ → S → Result Error Text × S
  pub master_token : S → Text
  pub regenerate_master_token : S → Result Error Text × S
  pub stats : S → ℤ × Option ℤ

pub data Method : Type 0 where
  get_state get_health add_account delete_account set_tier : Method
  add_port edit_port delete_port move_port : Method
  reset_account set_usage set_expiry force_persist : Method
  regenerate_token get_master_token regenerate_master_token : Method

find_method : Text → List (Text × Method) → Option Method
find_method name [] = none
find_method name ((n, m) ∷ rest) =
    let other = find_method name rest in if text_eq name n then some m else other

-- The method names.
abbrev methods : List (Text × Method)
methods =
    (codes "GetState", get_state)
    ∷ (codes "GetHealth", get_health)
    ∷ (codes "AddAccount", add_account)
    ∷ (codes "DeleteAccount", delete_account)
    ∷ (codes "SetTier", set_tier)
    ∷ (codes "AddPort", add_port)
    ∷ (codes "EditPort", edit_port)
    ∷ (codes "DeletePort", delete_port)
    ∷ (codes "MovePort", move_port)
    ∷ (codes "ResetAccount", reset_account)
    ∷ (codes "SetUsage", set_usage)
    ∷ (codes "SetExpiry", set_expiry)
    ∷ (codes "ForcePersist", force_persist)
    ∷ (codes "RegenerateToken", regenerate_token)
    ∷ (codes "GetMasterToken", get_master_token)
    ∷ (codes "RegenerateMasterToken", regenerate_master_token)
    ∷ []

pub method_of : Text → Option Method
unfolding find_method
method_of name = find_method name methods

-- model.Tier of a string.
pub tier_of : Text → Tier
tier_of s =
    if text_eq s (codes "a")
    then monthly
    else if text_eq s (codes "b")
    then one_shot
    else if text_eq s (codes "c")
    then unlimited
    else other s

pub record Request : Type 0 where
  pub method : Text
  pub params : Text

-- AddAccountParams and SetTierParams, the account by its name or its id.
pub record AccountParams (Key : Type 0) : Type 0 where
  pub key : Key
  pub tier : Text
  pub limit_gib : Float64
  pub anchor_day : ℤ

-- AddPortParams and EditPortParams, by the id of the account or of the port.
pub record IntervalParams : Type 0 where
  pub id : ℕ
  pub start : ℕ
  pub end : ℕ

pub record HealthResult : Type 0 where
  pub alive : Bool
  pub iface : Text
  pub kernel_ok : Bool
  pub kernel_version : Text
  pub uptime_seconds : Float64
  pub last_persist_unix : ℤ

pub data Payload : Type 0 where
  state : List AccountView → Text → Payload
  health : HealthResult → Payload
  added : ℕ → Payload
  token : Text → Payload

-- What a server answers: a result is there for the reading methods and for a new id or token.
pub data RpcError : Type 0 where
  bad_request marshal_result bad_params engine : Error → RpcError
  missing_params : RpcError
  unknown_method : Text → RpcError

pub data Response : Type 0 where
  success : Option Text → Response
  failure : RpcError → Response

-- What encoding/json makes of the bytes of a line or of the parameters, and of a result.
pub record Codec : Type 0 where
  pub read_request : Text → Result Error Request
  pub read_new_account : Text → Result Error (AccountParams Text)
  pub read_tier : Text → Result Error (AccountParams ℕ)
  pub read_delete : Text → Result Error (ℕ × Bool)
  pub read_interval : Method → Text → Result Error IntervalParams
  pub read_id : Method → Text → Result Error ℕ
  pub read_pair : Method → Text → Result Error (ℕ × ℕ)
  pub read_expiry : Text → Result Error (ℕ × ℤ)
  pub write_result : Payload → Result Error Text

-- The host facts of the server, and the seconds since a time.
pub record Host : Type 0 where
  pub iface : Text
  pub kernel_ok : Bool
  pub kernel_version : Text
  pub seconds_since : ℤ → Float64

unfoldable pub fail : Error → Response
fail e = failure (engine e)

last_unix : Option ℤ → ℤ
last_unix none = pos 0
last_unix (some t) = t

unfoldable pub health_of : Host → ℤ × Option ℤ → HealthResult
unfolding last_unix
health_of host (started, last_persist) = record {
  alive = true;
  iface = host.iface;
  kernel_ok = host.kernel_ok;
  kernel_version = host.kernel_version;
  uptime_seconds = host.seconds_since started;
  last_persist_unix = last_unix last_persist;
}

module _ {ℓ} {S : Type ℓ} where
  unfoldable pub ok_err : Result Error (Unit {0}) × S → Response × S
  ok_err (err e, s) = (fail e, s)
  ok_err (ok u, s) = (success none, s)

  -- The parameters are there and are read, or the request fails.
  unfoldable pub unmarshal {κ} :
      {P : Type κ} → (Text → Result Error P) → Text → (P → S → Response × S) → S → Response × S
  unmarshal read raw run s =
      if is_empty raw
      then (failure missing_params, s)
      else elim (read raw) [ err e ↦ (failure (bad_params e), s) | ok p ↦ run p s ]

module _ {ℓ} {S : Type ℓ} (be : Backend S) (codec : Codec) (host : Host) where
  unfoldable pub reply : Payload → Response
  reply p = elim (codec.write_result p) [
    | err e ↦ failure (marshal_result e)
    | ok t ↦ success (some t)
  ]

  unfoldable pub reply_with {κ} : {A : Type κ} → (A → Payload) → Result Error A × S → Response × S
  unfolding reply
  reply_with payload (err e, s) = (fail e, s)
  reply_with payload (ok x, s) = (reply (payload x), s)

  unfoldable pub run_method : Method → Text → S → Response × S
  unfolding ok_err unmarshal reply reply_with health_of
  run_method get_state raw = λ s. (reply (state (be.read_view s).0 (be.read_view s).1), s)
  run_method get_health raw = λ s. (reply (health (health_of host (be.stats s))), s)
  run_method add_account raw =
      unmarshal codec.read_new_account raw
        λ p s. reply_with added (be.add_account p.key (tier_of p.tier) p.limit_gib p.anchor_day s)
  run_method delete_account raw =
      unmarshal codec.read_delete raw λ p s. ok_err (be.delete_account p.0 p.1 s)
  run_method set_tier raw =
      unmarshal codec.read_tier raw
        λ p s. ok_err (be.set_tier p.key (tier_of p.tier) p.limit_gib p.anchor_day s)
  run_method add_port raw =
      unmarshal (codec.read_interval add_port) raw λ p s. ok_err (be.add_port p.id p.start p.end s)
  run_method edit_port raw =
      unmarshal (codec.read_interval edit_port) raw
        λ p s. ok_err (be.edit_port p.id p.start p.end s)
  run_method delete_port raw =
      unmarshal (codec.read_id delete_port) raw λ id s. ok_err (be.delete_port id s)
  run_method move_port raw =
      unmarshal (codec.read_pair move_port) raw λ p s. ok_err (be.move_port p.0 p.1 s)
  run_method reset_account raw =
      unmarshal (codec.read_id reset_account) raw λ id s. ok_err (be.reset_account id s)
  run_method set_usage raw =
      unmarshal (codec.read_pair set_usage) raw λ p s. ok_err (be.set_usage p.0 p.1 s)
  run_method set_expiry raw =
      unmarshal codec.read_expiry raw λ p s. ok_err (be.set_expiry p.0 p.1 s)
  run_method force_persist raw = λ s. ok_err (be.force_persist s)
  run_method regenerate_token raw =
      unmarshal (codec.read_id regenerate_token) raw
        λ id s. reply_with token (be.regenerate_token id s)
  run_method get_master_token raw = λ s. (reply (token (be.master_token s)), s)
  run_method regenerate_master_token raw = λ s. reply_with token (be.regenerate_master_token s)

  pub dispatch : Request → S → Response × S
  unfolding method_of run_method
  dispatch req s = elim (method_of req.method) [
    | none ↦ (failure (unknown_method req.method), s)
    | some m ↦ run_method m req.params s
  ]

  -- One connection: its lines in order, with the number of answers that can be sent before the
  -- connection breaks. An answer that is not sent ends it, unless it is that of a bad request.
  pub handle : ℕ → List Text → S → List Response × S
  unfolding dispatch
  handle sends [] s = ([], s)
  handle sends (line ∷ rest) s =
      if is_empty line then handle sends rest s else elim (codec.read_request line) [
        | err e ↦ elim sends [
          | zero ↦ handle zero rest s
          | suc n ↦ (let (answers, t) = handle n rest s in (failure (bad_request e) ∷ answers, t))
        ]
        | ok req ↦
            let (response, t) = dispatch req s in
            elim sends [
              | zero ↦ ([], t)
              | suc n ↦ (let (answers, u) = handle n rest t in (response ∷ answers, u))
            ]
      ]
