-- ===== src/Cli/Run.antt =====
-- Run of internal/cli/cli.go: which command an argument list names. The roles server, tui and teardown
-- of internal/cli/lifecycle.go are parameters.
use nfuse.Base.{ℕ, Bool, true, false, Option, none, some, List, [], ◌∷◌, if◌then◌else◌}
use nfuse.Base.Text.{Text, codes, text_eq}
use nfuse.Cli.Shell.{Verb, Printed, Complaint, out, complaint, Shell, say}
use nfuse.Cli.Commands.{App}
use nfuse.Cli.Commands.Plans.{run_verb}

pub data Role : Type 0 where
  server tui teardown : Role

-- What stands behind a name, with the arguments after it.
pub data Entry : Type 0 where
  verb : Verb → List Text → Entry
  role : Role → List Text → Entry
  version : List Text → Entry
  help : Entry
  wrong : Complaint → Entry

unfoldable pub find_entry : Text → List (Text × (List Text → Entry)) → Option (List Text → Entry)
find_entry name [] = none
find_entry name ((n, e) ∷ rest) =
    let other = find_entry name rest in if text_eq name n then some e else other

unfoldable pub or_unknown : Text → List Text → Option (List Text → Entry) → Entry
or_unknown name args none = wrong (Complaint.unknown_command name)
or_unknown name args (some e) = e args

unfoldable pub name_entry : Text → List (Text × (List Text → Entry)) → List Text → Entry
unfolding find_entry or_unknown
name_entry name entries args = or_unknown name args (find_entry name entries)

abbrev port_entries : List (Text × (List Text → Entry))
port_entries =
    (codes "add", verb Verb.port_add)
    ∷ (codes "edit", verb Verb.port_edit)
    ∷ (codes "rm", verb Verb.port_rm)
    ∷ (codes "move", verb Verb.port_move)
    ∷ []

abbrev token_entries : List (Text × (List Text → Entry))
token_entries =
    (codes "show", verb Verb.token_show)
    ∷ (codes "new", verb Verb.token_new)
    ∷ (codes "master", verb Verb.token_master)
    ∷ []

sub_entry : List (Text × (List Text → Entry)) → List Text → Entry
unfolding name_entry
sub_entry entries [] = wrong Complaint.no_subcommand
sub_entry entries (sub ∷ rest) = name_entry sub entries rest

abbrev entries : List (Text × (List Text → Entry))
entries =
    (codes "server", role server)
    ∷ (codes "tui", role tui)
    ∷ (codes "teardown", role teardown)
    ∷ (codes "version", version)
    ∷ (codes "list", verb Verb.list)
    ∷ (codes "add", verb Verb.add)
    ∷ (codes "rm", verb Verb.rm)
    ∷ (codes "set-tier", verb Verb.set_tier)
    ∷ (codes "reset", verb Verb.reset)
    ∷ (codes "set-usage", verb Verb.set_usage)
    ∷ (codes "set-expire", verb Verb.set_expire)
    ∷ (codes "port", sub_entry port_entries)
    ∷ (codes "persist", verb Verb.persist)
    ∷ (codes "token", sub_entry token_entries)
    ∷ (codes "-h", λ args. help)
    ∷ (codes "--help", λ args. help)
    ∷ (codes "help", λ args. help)
    ∷ []

unfoldable pub entry_of : List Text → Entry
unfolding sub_entry name_entry
entry_of [] = wrong Complaint.no_command
entry_of (name ∷ rest) = name_entry name entries rest

-- runVersion, with whether flag.Parse takes its arguments.
unfoldable pub run_version : {W : Type 0} → Text → Bool → Shell W → ℕ × Shell W
run_version build false sh = (2, say (complaint Complaint.bad_flags) sh)
run_version build true sh = (0, say (out (Printed.version build)) sh)

module _ {W : Type 0} (app : App W) (build : Text) (parse_version : List Text → Bool)
    (lifecycle : Role → List Text → Shell W → ℕ × Shell W) where
  unfoldable pub run_entry : Entry → Shell W → ℕ × Shell W
  unfolding run_version
  run_entry (verb v args) sh = run_verb app v args sh
  run_entry (role r args) sh = lifecycle r args sh
  run_entry (version args) sh = run_version build (parse_version args) sh
  run_entry help sh = (0, say (out (Printed.usage [])) sh)
  run_entry (wrong c) sh = (2, say (complaint c) sh)

  unfoldable pub run : List Text → Shell W → ℕ × Shell W
  unfolding run_entry entry_of
  run args sh = run_entry (entry_of args) sh
