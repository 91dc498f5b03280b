-- ===== src/Cli/Commands/Plans.antt =====
-- The commands of internal/cli/commands.go one by one, and how a command is run.
use nfuse.Base.{ℕ, not, ◌&&◌, Option, none, some, List, length, ltb, if◌then◌else◌, Result, ok, err}
use nfuse.Base.Text.{Text}
use nfuse.Model.{has_quota}
use nfuse.Model.Expiry.{parse_expiry}
use nfuse.Cli.{arg, exact_args, parse_tier, check_limit, parse_port_id, parse_port_spec}
use nfuse.Cli.Arguments.{parse_args, parsed, refused, out_of_fuel}
use nfuse.Cli.Shell.{
  Verb, Failure, Printed, Complaint, complaint, Shell, Action, say, print, ask, ask_or, ◌>>=◌, ◌>>◌,
}
use nfuse.Cli.Commands.{
  Flags, default_flags, App, arity, parse_uint, is_zero, spec_text, port_number, check_ok,
  check_none, check_some, resolve, listed, rm_failure, add_action, expire_action, on_account,
  on_port, token_action, master_action,
}

module _ {W : Type 0} (app : App W) where
  -- What each command does before it dials: the checks of its arguments, and the action that is left.
  abbrev Plan : Type 0
  Plan = Flags → Text → Text → Result Complaint (Action W (Unit {0}))

  list_plan : Plan
  unfolding listed
  list_plan flags a b = ok λ sh. listed app flags.as_json sh (app.client.read_view sh.world)

  add_plan : Plan
  unfolding add_action check_ok check_none check_some
  add_plan flags name b = check_ok (parse_tier flags.tier) λ tier.
      check_none (check_limit tier flags.limit) (
        check_some (Complaint.bad_expiry flags.expire) (parse_expiry app.location flags.expire)
          λ expires.
            if not (is_zero expires) && not (has_quota tier)
            then err Complaint.unlimited_expiry
            else ok (add_action app name tier flags expires))

  rm_plan : Plan
  unfolding resolve rm_failure
  rm_plan flags ref b = ok do
    id ← resolve app ref
    ask_or (rm_failure app flags.cascade) (app.client.delete_account id flags.cascade)
    print (Printed.deleted id)

  set_tier_plan : Plan
  unfolding on_account check_ok check_none
  set_tier_plan flags ref b = check_ok (parse_tier flags.tier) λ tier.
      check_none (check_limit tier flags.limit) (
        ok (
          on_account app ref (λ id. app.client.set_tier id tier flags.limit flags.anchor)
            (λ id. Printed.tier_set id tier)))

  reset_plan : Plan
  unfolding on_account
  reset_plan flags ref b = ok (on_account app ref app.client.reset_account Printed.was_reset)

  unfoldable pub set_usage_plan : Plan
  unfolding on_account check_some
  set_usage_plan flags ref count = check_some (Complaint.bad_count count) (parse_uint count) λ used.
      ok (on_account app ref (λ id. app.client.set_usage id used) (λ id. Printed.usage_set id used))

  set_expire_plan : Plan
  unfolding expire_action check_some
  set_expire_plan flags ref when =
      check_some (Complaint.bad_expiry when) (parse_expiry app.location when)
        λ expires. ok (expire_action app ref expires)

  persist_plan : Plan
  unfolding on_port
  persist_plan flags a b = ok (on_port app app.client.force_persist Printed.persisted)

  port_add_plan : Plan
  unfolding on_account spec_text check_ok
  port_add_plan flags ref spec = check_ok (parse_port_spec spec) λ range. ok (
      on_account app ref (λ id. app.client.add_port id range.0 range.1)
        (λ id. Printed.port_added (spec_text range) id))

  port_edit_plan : Plan
  unfolding on_port spec_text port_number check_ok
  port_edit_plan flags number spec = check_ok (parse_port_id number) λ id.
      check_ok (parse_port_spec spec) λ range. ok (
        on_port app (app.client.edit_port (port_number id) range.0 range.1)
          (Printed.port_edited (spec_text range) (port_number id)))

  port_rm_plan : Plan
  unfolding on_port port_number check_ok
  port_rm_plan flags number b = check_ok (parse_port_id number) λ id. ok (
      on_port app (app.client.delete_port (port_number id)) (Printed.port_deleted (port_number id)))

  port_move_plan : Plan
  unfolding on_account port_number check_ok
  port_move_plan flags number ref = check_ok (parse_port_id number) λ id. ok (
      on_account app ref (λ account. app.client.move_port (port_number id) account)
        (λ account. Printed.port_moved (port_number id) account))

  token_show_plan : Plan
  unfolding resolve token_action
  token_show_plan flags ref b = ok do id ← resolve app ref; token_action app id

  token_new_plan : Plan
  unfolding resolve
  token_new_plan flags ref b = ok do
    id ← resolve app ref
    token ← ask (app.client.regenerate_token id)
    print (Printed.secret token)

  token_master_plan : Plan
  unfolding master_action
  token_master_plan flags a b = ok (master_action app flags.regenerate)

  unfoldable pub plan : Verb → Plan
  unfolding list_plan add_plan rm_plan set_tier_plan reset_plan set_usage_plan set_expire_plan
      persist_plan port_add_plan port_edit_plan port_rm_plan port_move_plan token_show_plan
      token_new_plan token_master_plan
  plan Verb.list = list_plan
  plan Verb.add = add_plan
  plan Verb.rm = rm_plan
  plan Verb.set_tier = set_tier_plan
  plan Verb.reset = reset_plan
  plan Verb.set_usage = set_usage_plan
  plan Verb.set_expire = set_expire_plan
  plan Verb.persist = persist_plan
  plan Verb.port_add = port_add_plan
  plan Verb.port_edit = port_edit_plan
  plan Verb.port_rm = port_rm_plan
  plan Verb.port_move = port_move_plan
  plan Verb.token_show = token_show_plan
  plan Verb.token_new = token_new_plan
  plan Verb.token_master = token_master_plan

  -- The connection is closed whatever the action returns.
  unfoldable pub closed : Shell W → Shell W
  closed sh = record sh { world = (app.client.close sh.world).1 }

  unfoldable pub finished : Result Failure (Unit {0}) × Shell W → ℕ × Shell W
  unfolding closed
  finished (ok u, sh) = (0, closed sh)
  finished (err e, sh) = (1, closed (say (complaint (Complaint.failed e)) sh))

  unfoldable pub dialed : Text → Action W (Unit {0}) → Shell W → Option Text × W → ℕ × Shell W
  unfolding finished
  dialed socket act sh (some e, w) =
      (1, say (complaint (Complaint.no_daemon socket e)) (record sh { world = w }))
  dialed socket act sh (none, w) = finished (act (record sh { world = w }))

  unfoldable pub with_client : Text → Action W (Unit {0}) → Shell W → ℕ × Shell W
  unfolding dialed
  with_client socket act sh = dialed socket act sh (app.dial socket sh.world)

  unfoldable pub planned : Text → Result Complaint (Action W (Unit {0})) → Shell W → ℕ × Shell W
  unfolding with_client
  planned socket (err c) sh = (2, say (complaint c) sh)
  planned socket (ok act) sh = with_client socket act sh

  unfoldable pub on_args : Verb → Flags → List Text → Shell W → ℕ × Shell W
  unfolding planned plan
  on_args verb flags args sh =
      if ltb (length args) (arity verb)
      then (2, say (complaint (Complaint.too_few verb)) sh)
      else if not (exact_args args (arity verb))
      then (2, say (complaint (Complaint.too_many verb)) sh)
      else planned flags.socket (plan verb flags (arg args 0) (arg args 1)) sh

  -- The exit code 3 is none of the program: parse_args always ends.
  unfoldable pub run_verb : Verb → List Text → Shell W → ℕ × Shell W
  unfolding on_args
  run_verb verb args sh = elim (parse_args (app.parse verb) args default_flags) [
    | refused ↦ (2, say (complaint Complaint.bad_flags) sh)
    | out_of_fuel ↦ (3, sh)
    | parsed flags rest ↦ on_args verb flags rest sh
  ]
