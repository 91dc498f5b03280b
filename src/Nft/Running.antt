-- ===== src/Nft/Running.antt =====
-- execManager of internal/nft/nft.go: the interface to the kernel that runs the nft command. The command
-- and the decoding of its JSON are parameters.
use nfuse.Base.{ℕ, ◌≡◌, refl, Bool, true, Option, none, some, List, [], ◌∷◌, Result, ok, err}
use nfuse.Base.Text.{Text, codes}
use nfuse.Base.Float64.{Float64}
use nfuse.Model.{Snapshot, Error, validate}
use nfuse.Store.{Fault}
use nfuse.Engine.{Manager, Sample}
use nfuse.Engine.Sync.{Accepts}
use nfuse.Nft.{build_script}
use nfuse.Nft.Reading.{Item, read_list, classify_table_exists}

-- A run of nft: its error if it failed, with whether that is an exit status, and its output.
pub record Ran : Type 0 where
  pub failure : Option (Bool × Error)
  pub stdout : Text
  pub stderr : Text

-- The nft command over the kernel's state, by its arguments and its input.
pub record Nft (K : Type 0) : Type 0 where
  pub run : List Text → Text → K → Ran × K
  pub decode : Text → Result Error (List Item)
  pub convert : Float64 → ℕ

unfoldable pub run_error : Ran → Fault
run_error r = elim r.failure [ none ↦ none | some f ↦ some f.1 ]

module _ {K : Type 0} (nft : Nft K) (table iface : Text) where
  unfoldable pub run_script : Text → K → Fault × K
  unfolding run_error
  run_script script k =
      let done = nft.run (codes "-f" ∷ codes "-" ∷ []) script k in (run_error done.0, done.1)

  unfoldable pub apply : Snapshot → K → Fault × K
  unfolding run_script
  apply s k = elim (validate s) [
    | some e ↦ (some e, k)
    | none ↦ run_script (build_script nft.convert table iface s) k
  ]

  unfoldable pub table_listed : Ran → Result Error Bool
  table_listed r = elim r.failure [
    | none ↦ ok true
    | some f ↦ classify_table_exists f.0 r.stderr f.1
  ]

  -- A listing leaves the kernel as it is.
  unfoldable pub table_exists : K → Result Error Bool
  unfolding table_listed
  table_exists k =
      table_listed (nft.run (codes "list" ∷ codes "table" ∷ codes "netdev" ∷ table ∷ []) [] k).0

  unfoldable pub decoded : Result Error (List Item) → Result Error Sample
  decoded (err e) = err e
  decoded (ok items) = ok (read_list items)

  unfoldable pub sampled : Ran → Result Error Sample
  unfolding decoded
  sampled r = elim r.failure [ some f ↦ err f.1 | none ↦ decoded (nft.decode r.stdout) ]

  unfoldable pub sample : K → Result Error Sample
  unfolding sampled
  sample k =
      sampled
        (nft.run (codes "-j" ∷ codes "list" ∷ codes "table" ∷ codes "netdev" ∷ table ∷ []) [] k).0

  -- Whatever the command says, teardown succeeds.
  unfoldable pub teardown : K → Fault × K
  teardown k =
      (none, (nft.run (codes "delete" ∷ codes "table" ∷ codes "netdev" ∷ table ∷ []) [] k).1)

  -- New.
  abbrev pub exec_manager : Manager
  exec_manager = record {
    Kernel = K;
    apply = apply;
    sample = sample;
    table_exists = table_exists;
    teardown = teardown;
  }

  -- A snapshot that Validate refuses never reaches the nft command.
  apply_refused : (s : Snapshot) (e : Error) (k : K) → validate s ≡ some e → apply s k ≡ (some e, k)
  unfolding apply
  apply_refused s e k h = rw (apply, h) refl

  -- A command that loads every script takes the ruleset of every snapshot that Validate accepts.
  pub exec_manager-Accepts :
      ((script : Text) (k : K) → (nft.run (codes "-f" ∷ codes "-" ∷ []) script k).0.failure ≡ none)
      → Accepts exec_manager
  unfolding apply run_script run_error
  exec_manager-Accepts loads s k accepted =
      rw (apply, accepted, run_script, run_error, loads (build_script nft.convert table iface s) k)
        refl
