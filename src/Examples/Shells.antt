-- ===== src/Examples/Shells.antt =====
-- Examples of the theorems on internal/cli/cli.go and internal/cli/commands.go, with a daemon that has one
-- account and can set its usage.
use nfuse.Base.{
  ℕ, ◌<◌, ◌≡◌, ◌≢◌, refl, sym, ◌∙◌, true, none, some, List, [], ◌∷◌, length, Result, ok, err, arith,
}
use nfuse.Base.Int.{pos}
use nfuse.Base.Text.{Text, codes, text_eq}
use nfuse.Model.{Error, external}
use nfuse.Model.Expiry.{Location}
use nfuse.Rpc.{Backend}
use nfuse.Rpc.Client.Calls.{OpClient}
use nfuse.Rpc.Client.Carrying.{Wording}
use nfuse.Rpc.Client.Refinement.{told}
use nfuse.Cli.Arguments.{
  FlagParser, parse_args, parse_loop, prepend, out_of_fuel, Shrinks, parse_args_ends,
}
use nfuse.Cli.Shell.{Verb, Shell}
use nfuse.Cli.Commands.{App, Flags, default_flags, arity}
use nfuse.Cli.Commands.Plans.{run_verb, on_args}
use nfuse.Cli.Run.{Entry, Role, entry_of, run, run_entry, name_entry, find_entry, or_unknown}
use nfuse.Cli.Exits.{OnlyComplains, run_refused}
use nfuse.Examples.Wire.{alice_view}

abbrev words : Wording
words = record { of_error = λ e. codes "refused"; quote = λ t. t }

abbrev no_way : Error
no_way = external (codes "no such operation")

-- The state is the usage of the one account.
abbrev daemon : Backend ℕ
daemon = record {
  read_view = λ s. (record alice_view { used_bytes = s } ∷ [], []);
  add_account = λ name tier limit anchor s. (err no_way, s);
  delete_account = λ id cascade s. (err no_way, s);
  set_tier = λ id tier limit anchor s. (err no_way, s);
  add_port = λ id start end s. (err no_way, s);
  edit_port = λ id start end s. (err no_way, s);
  delete_port = λ id s. (err no_way, s);
  move_port = λ id account_id s. (err no_way, s);
  reset_account = λ id s. (ok tt, 0);
  set_usage = λ id used s. (ok tt, used);
  set_expiry = λ id expires s. (err no_way, s);
  force_persist = λ s. (ok tt, s);
  regenerate_token = λ id s. (err no_way, s);
  master_token = λ s. codes "master";
  regenerate_master_token = λ s. (err no_way, s);
  stats = λ s. (pos 0, none);
}

abbrev spoken : {A : Type 0} → Result Error A × ℕ → Result Text A × ℕ
spoken out = (told words out.0, out.1)

abbrev pub direct : OpClient ℕ
direct = record {
  read_view = λ s. ((some (daemon.read_view s).0, []), s);
  add_account = λ name tier limit anchor s. spoken (daemon.add_account name tier limit anchor s);
  delete_account = λ id cascade s. spoken (daemon.delete_account id cascade s);
  set_tier = λ id tier limit anchor s. spoken (daemon.set_tier id tier limit anchor s);
  add_port = λ id start end s. spoken (daemon.add_port id start end s);
  edit_port = λ id start end s. spoken (daemon.edit_port id start end s);
  delete_port = λ id s. spoken (daemon.delete_port id s);
  move_port = λ id account_id s. spoken (daemon.move_port id account_id s);
  reset_account = λ id s. spoken (daemon.reset_account id s);
  set_usage = λ id used s. spoken (daemon.set_usage id used s);
  set_expiry = λ id expires s. spoken (daemon.set_expiry id expires s);
  force_persist = λ s. spoken (daemon.force_persist s);
  regenerate_token = λ id s. spoken (daemon.regenerate_token id s);
  master_token = λ s. (ok (daemon.master_token s), s);
  regenerate_master_token = λ s. spoken (daemon.regenerate_master_token s);
  close = λ s. (none, s);
}

abbrev At : ℕ → ℕ → Type 0
At s w = w ≡ s

-- No flags are given.
abbrev no_flags : {F : Type 0} → FlagParser F
no_flags args flags = some (flags, args)

abbrev pub utc : Location
utc = record { parse = λ layout s. none; clock = λ t. (0, 0, 0); format = λ layout t. layout }

abbrev pub app : App ℕ
app = record {
  dial = λ socket w. (none, w);
  client = direct;
  encode = λ accounts. none;
  parse = λ verb. no_flags;
  convert = λ x. 0;
  location = utc;
  now = pos 2000;
}

abbrev before : Shell ℕ
before = record { world = 10; said = [] }

abbrev alice_five : List Text
alice_five = codes "alice" ∷ codes "5" ∷ []

no_flags-Shrinks : Shrinks (no_flags {F = Flags})
no_flags-Shrinks args flags set left h =
    let same : args ≡ left = ground (arith, h) in rw (sym same) (omega arith)

parse_args_ends_example :
    (parse_args {F = Flags} no_flags alice_five default_flags ≢ out_of_fuel)
    × ((fuel : ℕ)
        → length alice_five < fuel
        → parse_loop {F = Flags} no_flags fuel alice_five default_flags
          ≡ parse_args {F = Flags} no_flags alice_five default_flags)
parse_args_ends_example = parse_args_ends no_flags no_flags-Shrinks alice_five default_flags

verb_role :
    (r : Role) (rest : List Text)
    → Entry.verb Verb.set_usage (codes "alice" ∷ []) ≢ Entry.role r rest
verb_role r rest e = cc

-- The count is missing.
abbrev short : List Text
short = codes "set-usage" ∷ codes "alice" ∷ []

abbrev no_role : Role → List Text → Shell ℕ → ℕ × Shell ℕ
no_role r args sh = (1, sh)

short_verb : entry_of short ≡ Entry.verb Verb.set_usage (codes "alice" ∷ [])
unfolding entry_of find_entry or_unknown name_entry text_eq
short_verb = refl

short_refused : (run app [] (λ args. true) no_role short before).0 ≡ 2
unfolding run run_entry entry_of find_entry or_unknown name_entry text_eq run_verb parse_args
    parse_loop prepend on_args arity
short_refused = refl

run_refused_example : OnlyComplains app before (run app [] (λ args. true) no_role short before).1
run_refused_example =
    run_refused app [] (λ args. true) no_role short before
      (λ r rest e. verb_role r rest (sym short_verb ∙ e)) short_refused
