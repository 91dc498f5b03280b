-- ===== src/Cli/Effects.antt =====
-- What a command that succeeds has done at the server: internal/cli/commands.go over a client that
-- implements the backend of internal/rpc/server.go.
use nfuse.Base.{ℕ, ◌≡◌, none, Result, ok}
use nfuse.Base.Text.{Text, trim_space}
use nfuse.Model.{Error}
use nfuse.Rpc.{Backend, Codec, state}
use nfuse.Rpc.Client.{ClientCodec}
use nfuse.Rpc.Client.Carrying.{Wording}
use nfuse.Rpc.Client.Refinement.{Implements, Quiet, Same}
use nfuse.Cli.Resolve.{IsMeant}
use nfuse.Cli.Shell.{Failure, Printed, Shell}
use nfuse.Cli.Commands.{App}

module _ {S W : Type 0} (words : Wording) (codec : Codec) (json : ClientCodec) (At : S → W → Type 0)
    (be : Backend S) (app : App W) (client : Implements words codec json At be app.client) where
  -- The accounts as the server has them can be sent.
  abbrev Sendable : S → Type 0
  Sendable s =
      (raw : Text) × (codec.write_result (state (be.read_view s).0 (be.read_view s).1) ≡ ok raw)

  -- `Holds s w`: in the world `w` the server is at `s`, whether or not the client is connected. A dial
  -- that succeeds connects to it, and a connection that is closed leaves it as it is.
  pub record Reaches (Holds : S → W → Type 0) : Type 0 where
    pub dial :
        (socket : Text) (s : S) (w : W)
        → Holds s w
        → (app.dial socket w).0 ≡ none
        → At s (app.dial socket w).1
    pub close : (s : S) (w : W) → At s w → Holds s (app.client.close w).1

  -- The action found an account that the reference means.
  abbrev Found : Text → S → Result Failure ℕ × Shell W → Type 0
  Found ref s out =
      (id : ℕ) → out.0 ≡ ok id → IsMeant (trim_space ref) (be.read_view s).0 id × At s out.1.world

  module _ (cl_op : ℕ → W → Result Text (Unit {0}) × W)
      (be_op : ℕ → S → Result Error (Unit {0}) × S)
      (same : (id : ℕ) (s : S) (w : W)
        → At s w
        → Quiet words (be_op id s).0
        → Same words At (be_op id s) (cl_op id w))
      (printed : ℕ → Printed) (s : S) (quiet : (id : ℕ) → Quiet words (be_op id s).0) where
    -- The operation succeeded at the server, on the account that the reference means.
    abbrev Done : Text → (S → W → Type 0) → W → Type 0
    Done ref Rel w =
        (id : ℕ) × IsMeant (trim_space ref) (be.read_view s).0 id
        × ((be_op id s).0 ≡ ok tt)
        × Rel (be_op id s).1 w
