-- ===== src/Rpc/Client.antt =====
-- internal/rpc/client.go: the client of the server. The socket and encoding/json are parameters.
pub mod Calls
pub mod Carrying
pub mod Refinement
use nfuse.Base.{
  ℕ, Bool, true, false, ◌||◌, not, Option, none, some, List, [], ◌∷◌, ◌++◌, is_empty, if◌then◌else◌,
  Result, ok, err,
}
use nfuse.Base.Int.{ℤ, pos, negsuc}
use nfuse.Base.Text.{Text, codes, contains}
use nfuse.Base.Float64.{Float64}
use nfuse.Model.{Tier, monthly, one_shot, unlimited, other}
use nfuse.Engine.Views.{AccountView}
use nfuse.Rpc.{
  Method, Request, AccountParams, IntervalParams, HealthResult, get_state, get_health, add_account,
  delete_account, set_tier, add_port, edit_port, delete_port, move_port, reset_account, set_usage,
  set_expiry, force_persist, regenerate_token, get_master_token, regenerate_master_token,
}

-- What errors.Is finds in an error of the standard library.
pub data NetKind : Type 0 where
  eof closed broken_pipe reset plain : NetKind

pub record NetError : Type 0 where
  pub kind : NetKind
  pub text : Text

pub data ClientError : Type 0 where
  marshal_params refused : Text → ClientError
  send_failed read_failed : Method → NetError → ClientError
  server_closed : Method → ClientError
  decode_reply decode_result : Method → Text → ClientError

-- The parameters of a call, as encoding/json is given them.
pub data Params : Type 0 where
  account_params : AccountParams Text → Params
  tier_params : AccountParams ℕ → Params
  delete_params : ℕ → Bool → Params
  interval_params : IntervalParams → Params
  id_params : ℕ → Params
  pair_params : ℕ → ℕ → Params
  expiry_params : ℕ → ℤ → Params

-- A response as the wire has it. A missing field is empty.
pub record Reply : Type 0 where
  pub is_ok : Bool
  pub result : Text
  pub error : Text

-- What the scanner of a connection meets.
pub data Scan : Type 0 where
  line : Text → Scan
  scan_error : NetError → Scan
  ended : Scan

-- A socket with the encoder and the scanner of its latest connection, over the world `W`.
pub record Link {ℓ} (W : Type ℓ) : Type ℓ where
  pub encode : Request → W → Option NetError × W
  pub scan : W → Scan × W
  pub close : W → Option NetError × W
  pub dial : W → Option NetError × W
  pub sleep : W → W

-- The account list of a state, which may be null, with its last error.
abbrev pub StateResult : Type 0
StateResult = Option (List AccountView) × Text

-- What encoding/json makes of parameters and of the bytes of a reply.
pub record ClientCodec : Type 0 where
  pub write_params : Method → Params → Result Text Text
  pub read_reply : Text → Result Text Reply
  pub read_state : Text → Result Text StateResult
  pub read_health : Text → Result Text HealthResult
  pub read_added : Text → Result Text ℕ
  pub read_token : Text → Result Text Text

pub method_text : Method → Text
method_text get_state = codes "GetState"
method_text get_health = codes "GetHealth"
method_text add_account = codes "AddAccount"
method_text delete_account = codes "DeleteAccount"
method_text set_tier = codes "SetTier"
method_text add_port = codes "AddPort"
method_text edit_port = codes "EditPort"
method_text delete_port = codes "DeletePort"
method_text move_port = codes "MovePort"
method_text reset_account = codes "ResetAccount"
method_text set_usage = codes "SetUsage"
method_text set_expiry = codes "SetExpiry"
method_text force_persist = codes "ForcePersist"
method_text regenerate_token = codes "RegenerateToken"
method_text get_master_token = codes "GetMasterToken"
method_text regenerate_master_token = codes "RegenerateMasterToken"

pub error_text : ClientError → Text
error_text (marshal_params e) = codes "marshal params: " ++ e
error_text (refused e) = e
error_text (send_failed m e) = codes "send " ++ (method_text m ++ (codes ": " ++ e.text))
error_text (read_failed m e) = codes "read " ++ (method_text m ++ (codes " reply: " ++ e.text))
error_text (server_closed m) = method_text m ++ codes ": server closed connection"
error_text (decode_reply m e) = codes "decode " ++ (method_text m ++ (codes " reply: " ++ e))
error_text (decode_result m e) = codes "decode " ++ (method_text m ++ (codes " result: " ++ e))

is_conn_kind : NetKind → Bool
is_conn_kind plain = false
is_conn_kind _ = true

-- The errors that errors.Is takes for a broken connection.
is_conn : ClientError → Bool
unfolding is_conn_kind
is_conn (server_closed m) = true
is_conn (send_failed m e) = is_conn_kind e.kind
is_conn (read_failed m e) = is_conn_kind e.kind
is_conn _ = false

pub has_conn_words : Text → Bool
has_conn_words s =
    contains s (codes "broken pipe")
    || contains s (codes "connection reset")
    || contains s (codes "use of closed network connection")

pub is_conn_err : ClientError → Bool
unfolding is_conn
is_conn_err e = is_conn e || has_conn_words (error_text e)

-- How a call reads its result: not at all, or from the bytes that are there, else the zero value.
pub record Want (A : Type 0) : Type 0 where
  pub absent : A
  pub decode : Option (Text → Result Text A)

module _ {ℓ} {W : Type ℓ} (link : Link W) (json : ClientCodec) where
  pub read_result : {A : Type 0} → Method → Want A → Text → Result ClientError A
  read_result m want [] = ok want.absent
  read_result m want (c ∷ raw) = elim want.decode [
    | none ↦ ok want.absent
    | some read ↦ elim (read (c ∷ raw)) [ ok x ↦ ok x | err e ↦ err (decode_result m e) ]
  ]

  pub read_line : {A : Type 0} → Method → Want A → Text → Result ClientError A
  unfolding read_result
  read_line m want t = elim (json.read_reply t) [
    | err e ↦ err (decode_reply m e)
    | ok reply ↦
        if not reply.is_ok then err (refused reply.error) else read_result m want reply.result
  ]

  pub receive : {A : Type 0} → Method → Want A → Scan × W → Result ClientError A × W
  unfolding read_line
  receive m want (line t, w) = (read_line m want t, w)
  receive m want (scan_error e, w) = (err (read_failed m e), w)
  receive m want (ended, w) = (err (server_closed m), w)

  pub after_send : {A : Type 0} → Method → Want A → Option NetError × W → Result ClientError A × W
  unfolding receive
  after_send m want (some e, w) = (err (send_failed m e), w)
  after_send m want (none, w) = receive m want (link.scan w)

  pub exchange : {A : Type 0} → Method → Text → Want A → W → Result ClientError A × W
  unfolding after_send
  exchange m raw want w =
      after_send m want (link.encode (record { method = method_text m; params = raw }) w)

  -- No parameters are the empty text.
  pub round_trip : {A : Type 0} → Method → Option Params → Want A → W → Result ClientError A × W
  unfolding exchange
  round_trip m none want w = exchange m [] want w
  round_trip m (some p) want w = elim (json.write_params m p) [
    | err e ↦ (err (marshal_params e), w)
    | ok raw ↦ exchange m raw want w
  ]

  pub after_dial :
      {A : Type 0}
      → Method
      → Option Params
      → Want A
      → ClientError
      → Option NetError × W
      → Result ClientError A × W
  unfolding round_trip
  after_dial m params want e (some dial_error, w) = (err e, w)
  after_dial m params want e (none, w) = round_trip m params want w

  pub replay :
      {A : Type 0} → Method → Option Params → Want A → ClientError → W → Result ClientError A × W
  unfolding after_dial
  replay m params want e w = after_dial m params want e (link.dial (link.close (link.sleep w)).1)

  -- At most one more attempt, over a new connection.
  pub after_first :
      {A : Type 0}
      → Method
      → Option Params
      → Want A
      → Result ClientError A × W
      → Result ClientError A × W
  unfolding replay
  after_first m params want (ok x, w) = (ok x, w)
  after_first m params want (err e, w) =
      if not (is_conn_err e) then (err e, w) else replay m params want e w

  pub call : {A : Type 0} → Method → Option Params → Want A → W → Result ClientError A × W
  unfolding after_first
  call m params want w = after_first m params want (round_trip m params want w)

-- The string of a tier.
pub tier_text : Tier → Text
tier_text monthly = codes "a"
tier_text one_shot = codes "b"
tier_text unlimited = codes "c"
tier_text (other s) = s
