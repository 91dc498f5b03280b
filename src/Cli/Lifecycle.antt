-- ===== src/Cli/Lifecycle.antt =====
-- internal/cli/lifecycle.go: the roles of the process that own something, the daemon, the terminal
-- interface and teardown. What they open and close is a Machine, whose parts are the other components
-- and the operating system; one flag.Parse and package signal are parameters.
pub mod Releases
pub mod Booking
pub mod Roles
use nfuse.Base.{
  ℕ, ◌≡◌, refl, Bool, true, false, not, Option, none, some, List, [], ◌∷◌, ◌++◌, Result, ok, err,
  ◌==◌, if◌then◌else◌, is_empty,
}
use nfuse.Base.Int.{ℤ, pos}
use nfuse.Base.Text.{Text, codes}
use nfuse.Model.{Error}
use nfuse.Store.{Fault}
use nfuse.Cli.Commands.{is_zero}
use nfuse.System.{SystemError, kernel_version, check_netdev_egress}

-- serverOpts; durations in nanoseconds.
pub record ServerOptions : Type 0 where
  pub socket : Text
  pub iface : Text
  pub table : Text
  pub db_path : Text
  pub http_addr : Text
  pub http_port : ℤ
  pub sample_interval : ℤ
  pub persist_interval : ℤ
  pub skip_kernel_check : Bool

pub default_socket : Text
default_socket = codes "/run/nfuse.sock"

default_server : ServerOptions
unfolding default_socket
default_server = record {
  socket = default_socket;
  iface = [];
  table = codes "nfuse";
  db_path = codes "/var/lib/nfuse/nfuse.db";
  http_addr = codes "127.0.0.1";
  http_port = pos 0;
  sample_interval = pos 2000000000;
  persist_interval = pos 15000000000;
  skip_kernel_check = false;
}

pub data Notice : Type 0 where
  no_iface shutting_down : Notice
  unknown_iface : Text → Error → Notice
  already_running listening removed stop_first : Text → Notice
  preflight : SystemError → Notice
  db_dir open_db engine rpc_listen http_listen rpc_serve tui teardown_failed : Error → Notice
  cannot_connect : Text → Error → Notice
  http_listening : Text → ℤ → Notice

-- What ends the wait of the daemon: a signal, or the end of Serve.
pub data Stopped : Type 0 where
  signal : Stopped
  served : Fault → Stopped

-- What the roles open, close and ask. A part that fails to open leaves its error.
pub record Machine (W : Type 0) : Type 0 where
  pub daemon_alive : Text → W → Bool
  pub osrelease : W → Result Error Text
  pub interface_by_name : Text → W → Fault
  pub mkdir_all : Text → W → Fault × W
  pub open_store : Text → W → Fault × W
  pub close_store : W → W
  pub start_engine : ServerOptions → W → Fault × W
  pub stop_engine : W → W
  pub listen_rpc : ServerOptions → Bool → Text → W → Fault × W
  pub close_rpc : W → W
  pub listen_http : Text → ℤ → W → Fault × W
  pub close_http : W → W
  pub serve : W → Stopped × W

-- The directory of a path: up to its last slash.
pub parent : Text → Option Text
parent [] = none
parent (c ∷ s) = elim (parent s) [
  | some d ↦ some (c ∷ d)
  | none ↦ if c == b'/' then some [] else none
]

end_notices : Stopped → List Notice
end_notices signal = shutting_down ∷ []
end_notices (served none) = []
end_notices (served (some e)) = rpc_serve e ∷ []

kernel_raw : Result Error Text → Text
kernel_raw release = elim (kernel_version release) [ err e ↦ [] | ok v ↦ v.1 ]

http_notices : ServerOptions → List Notice
http_notices o = if is_zero o.http_port then [] else http_listening o.http_addr o.http_port ∷ []

-- An exit code, what is logged, and the world after.
abbrev pub Ended : Type 0 → Type 0
Ended W = (ℕ × List Notice) × W

-- Open, or log and exit with 1; after the body, close, as a deferred call does.
pub scoped : {W : Type 0} → (Error → Notice) → Fault × W → (W → W) → (W → Ended W) → Ended W
scoped notice (some e, w) close body = ((1, notice e ∷ []), w)
scoped notice (none, w) close body = let done = body w in (done.0, close done.1)

pub refused : {W : Type 0} → Notice → W → Ended W
refused n w = ((1, n ∷ []), w)

module _ {W : Type 0} (m : Machine W) where
  -- validateIface.
  validate_iface : Text → W → Option Notice
  validate_iface [] w = some no_iface
  validate_iface (c ∷ s) w = elim (m.interface_by_name (c ∷ s) w) [
    | some e ↦ some (unknown_iface (c ∷ s) e)
    | none ↦ none
  ]

  -- singleInstanceGuard.
  pub single_instance_guard : Text → W → Option Notice
  single_instance_guard socket w =
      if m.daemon_alive socket w then some (already_running socket) else none

  -- ensureDBDir.
  pub ensure_db_dir : Text → W → Fault × W
  unfolding parent
  ensure_db_dir path w = elim (parent path) [
    | none ↦ (none, w)
    | some d ↦ if is_empty d then (none, w) else m.mkdir_all d w
  ]

  pub wait : ServerOptions → W → Ended W
  unfolding end_notices http_notices
  wait o w =
      let stopped = m.serve w in
      ((0, http_notices o ++ listening o.socket ∷ end_notices stopped.0), stopped.1)

  pub with_http : ServerOptions → W → Ended W
  unfolding scoped wait
  with_http o w =
      let opened = m.listen_http o.http_addr o.http_port w in
      if is_zero o.http_port then wait o w else scoped http_listen opened m.close_http (wait o)

  pub with_rpc : ServerOptions → Text → W → Ended W
  unfolding scoped with_http
  with_rpc o raw w =
      scoped rpc_listen (m.listen_rpc o (not o.skip_kernel_check) raw w) m.close_rpc (with_http o)

  pub with_engine : ServerOptions → Text → W → Ended W
  unfolding scoped with_rpc
  with_engine o raw w = scoped engine (m.start_engine o w) m.stop_engine (with_rpc o raw)

  pub with_store : ServerOptions → Text → Fault × W → Ended W
  unfolding scoped with_engine
  with_store o raw (some e, w) = refused (db_dir e) w
  with_store o raw (none, w) =
      scoped open_db (m.open_store o.db_path w) m.close_store (with_engine o raw)

  pub kernel_check : ServerOptions → W → Option SystemError
  kernel_check o w = if o.skip_kernel_check then none else check_netdev_egress (m.osrelease w)

  -- runServerDaemon.
  pub run_server_daemon : ServerOptions → W → Ended W
  unfolding single_instance_guard kernel_check ensure_db_dir with_store kernel_raw refused
  run_server_daemon o w = elim (single_instance_guard o.socket w) [
    | some n ↦ refused n w
    | none ↦ elim (kernel_check o w) [
      | some e ↦ refused (preflight e) w
      | none ↦ with_store o (kernel_raw (m.osrelease w)) (ensure_db_dir o.db_path w)
    ]
  ]

  -- runServer, with what flag.Parse makes of the arguments and the defaults.
  run_server : (ServerOptions → List Text → Option ServerOptions) → List Text → W → Ended W
  unfolding validate_iface run_server_daemon default_server refused
  run_server parse args w = elim (parse default_server args) [
    | none ↦ ((2, []), w)
    | some o ↦ elim (validate_iface o.iface w) [
      | some n ↦ refused n w
      | none ↦ run_server_daemon o w
    ]
  ]
