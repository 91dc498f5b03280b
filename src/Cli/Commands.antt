-- ===== src/Cli/Commands.antt =====
-- The commands of internal/cli/commands.go, and Run of internal/cli/cli.go.
pub mod Plans
use nfuse.Base.{
  ℕ, zero, suc, ◌^◌, Bool, true, false, not, ◌&&◌, Option, none, some, List, [], ◌∷◌, is_empty,
  find, length, ltb, ◌==◌, if◌then◌else◌, Result, ok, err,
}
use nfuse.Base.Int.{ℤ, pos, negsuc, leb_ℤ}
use nfuse.Base.Text.{Text, codes, trim_space, contains}
use nfuse.Base.Decimal.{read_digits}
use nfuse.Base.Float64.{Float64, fin}
use nfuse.Model.{Tier, has_quota}
use nfuse.Model.Expiry.{Location, parse_expiry, format_expiry}
use nfuse.Nft.{port_text}
use nfuse.Engine.Views.{AccountView}
use nfuse.Rpc.Client.{StateResult}
use nfuse.Rpc.Client.Calls.{OpClient}
use nfuse.Cli.{
  CliError, empty_reference, arg, exact_args, parse_tier, check_limit, parse_port_id,
  parse_port_spec, resolve_account, views_of,
}
use nfuse.Cli.Arguments.{FlagParser, parse_args, parsed, refused, out_of_fuel}
use nfuse.Cli.Report.{JsonAccount, json_account, human}
use nfuse.Cli.Shell.{
  Verb, Failure, Printed, Complaint, complaint, Shell, Action, say, print, fail_with, ask, ask_or,
  ◌>>=◌, ◌>>◌,
}

-- The flags of the commands; each command registers some of them.
pub record Flags : Type 0 where
  pub socket : Text
  pub as_json : Bool
  pub tier : Text
  pub limit : Float64
  pub anchor : ℤ
  pub expire : Text
  pub cascade : Bool
  pub regenerate : Bool

abbrev pub default_flags : Flags
default_flags = record {
  socket = codes "/run/nfuse.sock";
  as_json = false;
  tier = [];
  limit = fin false 0 (pos 0);
  anchor = pos 1;
  expire = [];
  cascade = false;
  regenerate = false;
}

-- The wiring of one invocation: the dialer and its client, the JSON encoder of stdout (which may
-- refuse), package flag, the local time zone and the time.
pub record App (W : Type 0) : Type 0 where
  pub dial : Text → W → Option Text × W
  pub client : OpClient W
  pub encode : List JsonAccount → Option Text
  pub parse : Verb → FlagParser Flags
  pub convert : Float64 → ℕ
  pub location : Location
  pub now : ℤ

-- The number of positional arguments that a command takes.
unfoldable pub arity : Verb → ℕ
arity Verb.list = 0
arity Verb.add = 1
arity Verb.rm = 1
arity Verb.set_tier = 1
arity Verb.reset = 1
arity Verb.set_usage = 2
arity Verb.set_expire = 2
arity Verb.persist = 0
arity Verb.port_add = 2
arity Verb.port_edit = 2
arity Verb.port_rm = 1
arity Verb.port_move = 2
arity Verb.token_show = 1
arity Verb.token_new = 1
arity Verb.token_master = 0

-- strconv.ParseUint of a decimal numeral in 64 bits.
unfoldable pub uint64_of : ℕ × Text → Option ℕ
uint64_of (n, []) = if ltb n (2 ^ 64) then some n else none
uint64_of (n, c ∷ rest) = none

unfoldable pub parse_uint : Text → Option ℕ
unfolding uint64_of
parse_uint s = if is_empty s then none else uint64_of (read_digits 0 s)

pub is_zero : ℤ → Bool
is_zero (pos zero) = true
is_zero _ = false

pub spec_text : ℕ × ℕ → Text
spec_text (start, end) = port_text (record { id = 0; account_id = 0; start = start; end = end })

-- A port id that parsePortID has found positive.
pub port_number : ℤ → ℕ
port_number (pos n) = n
port_number (negsuc n) = 0

-- A check before the dial: its error is a bad argument.
pub check_ok : {A B : Type 0} → Result CliError A → (A → Result Complaint B) → Result Complaint B
check_ok (err e) next = err (Complaint.bad_argument e)
check_ok (ok x) next = next x

pub check_none : {B : Type 0} → Option CliError → Result Complaint B → Result Complaint B
check_none (some e) next = err (Complaint.bad_argument e)
check_none none next = next

unfoldable pub check_some :
    {A B : Type 0} → Complaint → Option A → (A → Result Complaint B) → Result Complaint B
check_some c none next = err c
check_some c (some x) next = next x

module _ {W : Type 0} (app : App W) where
  unfoldable pub resolved : Shell W → Text → StateResult × W → Result Failure ℕ × Shell W
  resolved sh ref (listing, w) = elim (resolve_account listing ref) [
    | ok id ↦ (ok id, record sh { world = w })
    | err e ↦ (err (Failure.cli e), record sh { world = w })
  ]

  -- The account list is read only for a reference that is not empty.
  unfoldable pub resolve : Text → Action W ℕ
  unfolding resolved
  resolve ref sh =
      if is_empty (trim_space ref)
      then (err (Failure.cli empty_reference), sh)
      else resolved sh ref (app.client.read_view sh.world)

  print_list : Bool → List AccountView → Action W (Unit {0})
  print_list false views = print (Printed.human (human app.convert app.location views))
  print_list true views =
      let accounts = nfuse.Base.map (json_account app.convert) views in
      elim (app.encode accounts) [
        | none ↦ print (Printed.json accounts)
        | some e ↦ fail_with (Failure.not_encoded e)
      ]

  -- An error without a list is an error; an error with a list is a warning.
  pub listed : Bool → Shell W → StateResult × W → Result Failure (Unit {0}) × Shell W
  unfolding print_list
  listed as_json sh ((none, c ∷ status), w) =
      (err (Failure.remote (c ∷ status)), record sh { world = w })
  listed as_json sh ((none, []), w) = print_list as_json [] (record sh { world = w })
  listed as_json sh ((some views, []), w) = print_list as_json views (record sh { world = w })
  listed as_json sh ((some views, c ∷ status), w) =
      print_list as_json views
        (say (complaint (Complaint.warning (c ∷ status))) (record sh { world = w }))

  token_found : ℕ → Shell W → StateResult × W → Result Failure (Unit {0}) × Shell W
  token_found id sh ((views, status), w) =
      elim (find (λ (v : AccountView). v.account.id == id) (views_of views)) [
        | some v ↦ print (Printed.secret v.account.token) (record sh { world = w })
        | none ↦ (err (Failure.not_found id), record sh { world = w })
      ]

  add_failure : Text → Text → Failure
  add_failure name e =
      if contains e (codes "UNIQUE constraint") then Failure.name_taken name else Failure.remote e

  pub rm_failure : Bool → Text → Failure
  rm_failure cascade e =
      if not cascade && contains e (codes "still owns")
      then Failure.needs_cascade e
      else Failure.remote e

  -- The expiry of a new account is set by a second call.
  expire_added : ℕ → ℤ → Text → Action W (Unit {0})
  expire_added id expires text = if is_zero expires then (λ sh. (ok tt, sh)) else do
    ask_or (λ e. Failure.expiry_not_set id e text) (app.client.set_expiry id expires)
    print (Printed.expires id (format_expiry app.location expires) false)

  pub add_action : Text → Tier → Flags → ℤ → Action W (Unit {0})
  unfolding add_failure expire_added
  add_action name tier flags expires = do
    id ← ask_or (add_failure name) (app.client.add_account name tier flags.limit flags.anchor)
    print (Printed.added name id)
    expire_added id expires flags.expire

  pub expire_action : Text → ℤ → Action W (Unit {0})
  unfolding resolve
  expire_action ref expires = do
    id ← resolve ref
    ask (app.client.set_expiry id expires)
    print (
        if is_zero expires
        then Printed.expiry_cleared id
        else Printed.expires id (format_expiry app.location expires) (leb_ℤ expires app.now))

  -- A command that names an account, and what it prints of it.
  unfoldable pub on_account :
      Text → (ℕ → W → Result Text (Unit {0}) × W) → (ℕ → Printed) → Action W (Unit {0})
  unfolding resolve
  on_account ref op printed = do id ← resolve ref; ask (op id); print (printed id)

  pub on_port : (W → Result Text (Unit {0}) × W) → Printed → Action W (Unit {0})
  on_port op printed = do ask op; print printed

  pub token_action : ℕ → Action W (Unit {0})
  unfolding token_found
  token_action id sh = token_found id sh (app.client.read_view sh.world)

  pub master_action : Bool → Action W (Unit {0})
  master_action regenerate = do
    token ← ask (if regenerate then app.client.regenerate_master_token else app.client.master_token)
    print (Printed.secret token)
