-- ===== src/Cli/Lifecycle/Roles.antt =====
-- internal/cli/lifecycle.go: the other roles, the terminal interface and teardown.
use nfuse.Base.{◌≡◌, refl, Bool, false, Option, none, some, List, [], ◌∷◌, if◌then◌else◌}
use nfuse.Base.Int.{ℤ, pos}
use nfuse.Base.Text.{Text, codes}
use nfuse.Store.{Fault}
use nfuse.Nft.Running.{Nft, teardown}
use nfuse.Cli.Lifecycle.{Notice, Ended, scoped, refused, default_socket}

pub record TuiOptions : Type 0 where
  pub socket : Text
  pub refresh : ℤ

default_tui : TuiOptions
default_tui = record { socket = default_socket; refresh = pos 1000000000 }

tui_ended : {W : Type 0} → Fault × W → Ended W
tui_ended (some e, w) = ((1, Notice.tui e ∷ []), w)
tui_ended (none, w) = ((0, []), w)

-- runTUI: Dial and Close are those of the client, `ui` is the run of the interface over it.
run_tui :
    {W : Type 0}
    → (TuiOptions → List Text → Option TuiOptions)
    → (Text → W → Fault × W)
    → (W → W)
    → (ℤ → W → Fault × W)
    → List Text
    → W
    → Ended W
unfolding tui_ended scoped default_tui
run_tui parse dial close ui args w = elim (parse default_tui args) [
  | none ↦ ((2, []), w)
  | some o ↦
      scoped (Notice.cannot_connect o.socket) (dial o.socket w) close
        (λ v. tui_ended (ui o.refresh v))
]

pub record TeardownOptions : Type 0 where
  pub socket : Text
  pub iface : Text
  pub table : Text

default_teardown : TeardownOptions
default_teardown = record { socket = default_socket; iface = []; table = codes "nfuse" }

teardown_ended : {K : Type 0} → Text → Fault × K → Ended K
teardown_ended table (some e, k) = ((1, Notice.teardown_failed e ∷ []), k)
teardown_ended table (none, k) = ((0, Notice.removed table ∷ []), k)

-- runTeardown on the kernel that the nft command works on; `alive` is DaemonAlive.
run_teardown :
    {K : Type 0}
    → (TeardownOptions → List Text → Option TeardownOptions)
    → (Text → Bool)
    → Nft K
    → List Text
    → K
    → Ended K
unfolding refused teardown_ended default_teardown
run_teardown parse alive nft args k = elim (parse default_teardown args) [
  | none ↦ ((2, []), k)
  | some o ↦
      if alive o.socket
      then refused (Notice.stop_first o.socket) k
      else teardown_ended o.table (teardown nft o.table o.iface k)
]

-- With no daemon alive, teardown exits with 0 and reports the table removed whatever the nft command
-- says, also if it fails and the table stays.
run_teardown_blind :
    {K : Type 0} (parse : TeardownOptions → List Text → Option TeardownOptions)
    (alive : Text → Bool) (nft : Nft K) (args : List Text) (k : K) (o : TeardownOptions)
    → parse default_teardown args ≡ some o
    → alive o.socket ≡ false
    → (run_teardown parse alive nft args k).0 ≡ (0, Notice.removed o.table ∷ [])
unfolding run_teardown teardown teardown_ended
run_teardown_blind parse alive nft args k o given dead = rw (run_teardown, given, dead) refl
