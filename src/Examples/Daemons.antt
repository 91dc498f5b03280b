-- ===== src/Examples/Daemons.antt =====
-- Examples of the theorems on internal/cli/lifecycle.go: a host on which every part opens but the HTTP
-- endpoint.
use nfuse.Base.{ℕ, suc, ◌≡◌, false, none, some, [], ok}
use nfuse.Base.Int.{pos}
use nfuse.Base.Text.{codes}
use nfuse.Model.{external}
use nfuse.Cli.Lifecycle.{ServerOptions, Machine, signal, run_server_daemon}
use nfuse.Cli.Lifecycle.Booking.{booked, run_server_daemon_held}

-- A host whose address for HTTP is in use. The world counts the calls.
abbrev host : Machine ℕ
host = record {
  daemon_alive = λ s w. false;
  osrelease = λ w. ok (codes "6.1.0");
  interface_by_name = λ s w. none;
  mkdir_all = λ d w. (none, suc w);
  open_store = λ p w. (none, suc w);
  close_store = λ w. suc w;
  start_engine = λ o w. (none, suc w);
  stop_engine = λ w. suc w;
  listen_rpc = λ o b t w. (none, suc w);
  close_rpc = λ w. suc w;
  listen_http = λ a p w. (some (external (codes "address in use")), suc w);
  close_http = λ w. suc w;
  serve = λ w. (signal, suc w);
}

abbrev with_endpoint : ServerOptions
with_endpoint = record {
  socket = codes "/run/nfuse.sock";
  iface = codes "eth0";
  table = codes "nfuse";
  db_path = codes "/var/lib/nfuse/nfuse.db";
  http_addr = codes "127.0.0.1";
  http_port = pos 80;
  sample_interval = pos 2000000000;
  persist_interval = pos 15000000000;
  skip_kernel_check = false;
}

run_server_daemon_held_example :
    let b = run_server_daemon (booked host) with_endpoint (record { world = 0; held = [] }) in
    (b.1.held ≡ [])
    × (b.0 ≡ (run_server_daemon host with_endpoint 0).0)
    × (b.1.world ≡ (run_server_daemon host with_endpoint 0).1)
run_server_daemon_held_example = run_server_daemon_held host with_endpoint 0 []
