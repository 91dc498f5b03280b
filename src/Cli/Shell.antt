-- ===== src/Cli/Shell.antt =====
-- One run of a command of internal/cli/commands.go: the world that the client reaches, what is printed,
-- and actions that can fail.
use nfuse.Base.{ℕ, Bool, List, [], ◌∷◌, ◌++◌, Result, ok, err}
use nfuse.Base.Text.{Text}
use nfuse.Model.{Tier}
use nfuse.Cli.{CliError}
use nfuse.Cli.Report.{JsonAccount, Paragraph}

-- The commands that a daemon carries out.
pub data Verb : Type 0 where
  list add rm set_tier reset set_usage set_expire persist : Verb
  port_add port_edit port_rm port_move : Verb
  token_show token_new token_master : Verb

-- What ends a command that has connected.
pub data Failure : Type 0 where
  cli : CliError → Failure
  remote : Text → Failure
  name_taken : Text → Failure
  expiry_not_set : ℕ → Text → Text → Failure
  needs_cascade : Text → Failure
  not_found : ℕ → Failure
  not_encoded : Text → Failure

-- What a command prints to stdout.
pub data Printed : Type 0 where
  json : List JsonAccount → Printed
  human : List Paragraph → Printed
  added : Text → ℕ → Printed
  expires : ℕ → Text → Bool → Printed
  expiry_cleared deleted was_reset : ℕ → Printed
  tier_set : ℕ → Tier → Printed
  usage_set : ℕ → ℕ → Printed
  persisted : Printed
  port_added port_edited : Text → ℕ → Printed
  port_deleted : ℕ → Printed
  port_moved : ℕ → ℕ → Printed
  secret version usage : Text → Printed

-- What it prints to stderr.
pub data Complaint : Type 0 where
  no_command no_subcommand : Complaint
  unknown_command : Text → Complaint
  bad_flags : Complaint
  too_few too_many : Verb → Complaint
  bad_argument : CliError → Complaint
  bad_expiry bad_count : Text → Complaint
  unlimited_expiry : Complaint
  no_daemon : Text → Text → Complaint
  failed : Failure → Complaint
  warning : Text → Complaint

pub data Said : Type 0 where
  out : Printed → Said
  complaint : Complaint → Said

pub record Shell (W : Type 0) : Type 0 where
  pub world : W
  pub said : List Said

abbrev pub Action : Type 0 → Type 0 → Type 0
Action W A = Shell W → Result Failure A × Shell W

module _ {W : Type 0} where
  abbrev pub say : Said → Shell W → Shell W
  say s sh = record sh { said = sh.said ++ s ∷ [] }

  abbrev pub print : Printed → Action W (Unit {0})
  print p sh = (ok tt, say (out p) sh)

  abbrev pub fail_with : {A : Type 0} → Failure → Action W A
  fail_with e sh = (err e, sh)

  abbrev pub go_on :
      {A B : Type 0} → (A → Action W B) → Result Failure A × Shell W → Result Failure B × Shell W
  go_on next (ok x, sh) = next x sh
  go_on next (err e, sh) = (err e, sh)

  -- A call of the client, with its error in the command's words.
  abbrev pub worded :
      {A : Type 0} → (Text → Failure) → Shell W → Result Text A × W → Result Failure A × Shell W
  worded failure sh (ok x, w) = (ok x, record sh { world = w })
  worded failure sh (err e, w) = (err (failure e), record sh { world = w })

  abbrev pub ask_or : {A : Type 0} → (Text → Failure) → (W → Result Text A × W) → Action W A
  ask_or failure call sh = worded failure sh (call sh.world)

  abbrev pub ask : {A : Type 0} → (W → Result Text A × W) → Action W A
  ask = ask_or remote

infixl 5 ◌>>=◌ ◌>>◌
abbrev pub ◌>>=◌ : {W A B : Type 0} → Action W A → (A → Action W B) → Action W B
(first >>= next) sh = go_on next (first sh)

abbrev pub ◌>>◌ : {W A B : Type 0} → Action W A → Action W B → Action W B
first >> next = first >>= λ x. next
