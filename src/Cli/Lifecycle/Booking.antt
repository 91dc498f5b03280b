-- ===== src/Cli/Lifecycle/Booking.antt =====
-- A book of what runServerDaemon of internal/cli/lifecycle.go opens and closes.
use nfuse.Base.{
  ◌≡◌, refl, ap, ◌∙◌, Bool, true, false, Bool-cases, inl, inr, none, some, List, [], ◌∷◌,
  Option-cases, is_empty, if◌then◌else◌,
}
use nfuse.Cli.Commands.{is_zero}
use nfuse.Base.Text.{Text}
use nfuse.Model.{Error}
use nfuse.Store.{Fault}
use nfuse.Cli.Lifecycle.{
  ServerOptions, Notice, Machine, Ended, scoped, wait, with_http, with_rpc, with_engine, with_store,
  ensure_db_dir, single_instance_guard, kernel_check, run_server_daemon, parent, refused,
}
use nfuse.Cli.Lifecycle.{kernel_raw}
use nfuse.Cli.Lifecycle.Releases.{
  Resource, database, controller, socket, endpoint, opened, Tracks, run_server_daemon-Leaves,
}

unfoldable pub resource_eq : Resource → Resource → Bool
resource_eq database database = true
resource_eq controller controller = true
resource_eq socket socket = true
resource_eq endpoint endpoint = true
resource_eq _ _ = false

-- The account of the opens and closes, the last first: a close settles the latest open if it is of the
-- same part, and is itself left over if it is not.
unfoldable pub struck : Resource → List Resource → List Resource
unfolding resource_eq
struck r [] = r ∷ []
struck r (q ∷ rest) = if resource_eq r q then rest else r ∷ q ∷ rest

pub record Booked (W : Type 0) : Type 0 where
  pub world : W
  pub held : List Resource

unfoldable pub book_open : {W : Type 0} → Resource → Fault × W → List Resource → Fault × Booked W
unfolding opened
book_open r (f, w) held = (f, record { world = w; held = opened r f held })

unfoldable pub book_close : {W : Type 0} → Resource → (W → W) → Booked W → Booked W
unfolding struck
book_close r close b = record { world = close b.world; held = struck r b.held }

unfoldable pub book_same : {A W : Type 0} → A × W → List Resource → A × Booked W
book_same (x, w) held = (x, record { world = w; held = held })

-- The same machine, with a book of what it is asked to open and to close.
unfoldable pub booked : {W : Type 0} → Machine W → Machine (Booked W)
unfolding book_open book_close book_same
booked m = record {
  daemon_alive = λ s b. m.daemon_alive s b.world;
  osrelease = λ b. m.osrelease b.world;
  interface_by_name = λ s b. m.interface_by_name s b.world;
  mkdir_all = λ d b. book_same (m.mkdir_all d b.world) b.held;
  open_store = λ p b. book_open database (m.open_store p b.world) b.held;
  close_store = book_close database m.close_store;
  start_engine = λ o b. book_open controller (m.start_engine o b.world) b.held;
  stop_engine = book_close controller m.stop_engine;
  listen_rpc = λ o k t b. book_open socket (m.listen_rpc o k t b.world) b.held;
  close_rpc = book_close socket m.close_rpc;
  listen_http = λ a p b. book_open endpoint (m.listen_http a p b.world) b.held;
  close_http = book_close endpoint m.close_http;
  serve = λ b. book_same (m.serve b.world) b.held;
}

struck_same : (r : Resource) (rest : List Resource) → struck r (r ∷ rest) ≡ rest
unfolding struck resource_eq
struck_same database rest = refl
struck_same controller rest = refl
struck_same socket rest = refl
struck_same endpoint rest = refl

booked-Tracks : {W : Type 0} (m : Machine W) → Tracks (booked m) (λ b. b.held)
unfolding booked book_open book_close book_same
booked-Tracks m = record {
  mkdir_held = λ d w. refl;
  store_held = λ p w. refl;
  engine_held = λ o w. refl;
  rpc_held = λ o b t w. refl;
  http_held = λ a p w. refl;
  store_closed = λ w rest h. ap (struck database) h ∙ struck_same database rest;
  engine_closed = λ w rest h. ap (struck controller) h ∙ struck_same controller rest;
  rpc_closed = λ w rest h. ap (struck socket) h ∙ struck_same socket rest;
  http_closed = λ w rest h. ap (struck endpoint) h ∙ struck_same endpoint rest;
  serve_held = λ w. refl;
}

-- The booked run is the run: the same end, and the same world.
abbrev Follows : {W : Type 0} → Ended (Booked W) → Ended W → Type 0
Follows b e = (b.0 ≡ e.0) × (b.1.world ≡ e.1)

scoped-Follows :
    {W : Type 0} (r : Resource) (notice : Error → Notice) (tried : Fault × W) (held : List Resource)
    (close : W → W) (body' : Booked W → Ended (Booked W)) (body : W → Ended W)
    → ((b : Booked W) → Follows (body' b) (body b.world))
    → Follows
        (scoped notice (book_open r tried held) (book_close r close) body')
        (scoped notice tried close body)
unfolding scoped book_open book_close
scoped-Follows r notice (some e, w) held close body' body h = (refl, refl)
scoped-Follows r notice (none, w) held close body' body h =
    let inner = h (record { world = w; held = r ∷ held }) in (inner.0, ap close inner.1)

module _ {W : Type 0} (m : Machine W) (o : ServerOptions) where
  wait-Follows : (b : Booked W) → Follows (wait (booked m) o b) (wait m o b.world)
  unfolding wait booked book_same
  wait-Follows b = (refl, refl)

  with_http-Follows : (b : Booked W) → Follows (with_http (booked m) o b) (with_http m o b.world)
  unfolding with_http booked book_same
  with_http-Follows b = elim (Bool-cases (is_zero o.http_port)) [
    | inl off ↦ rw off (refl, refl)
    | inr on ↦ rw on (scoped-Follows endpoint _ _ b.held _ _ _ wait-Follows)
  ]

  with_rpc-Follows :
      (raw : Text) (b : Booked W) → Follows (with_rpc (booked m) o raw b) (with_rpc m o raw b.world)
  unfolding with_rpc booked
  with_rpc-Follows raw b = scoped-Follows socket _ _ b.held _ _ _ with_http-Follows

  with_engine-Follows :
      (raw : Text) (b : Booked W)
      → Follows (with_engine (booked m) o raw b) (with_engine m o raw b.world)
  unfolding with_engine booked
  with_engine-Follows raw b = scoped-Follows controller _ _ b.held _ _ _ (with_rpc-Follows raw)

  with_store-Follows :
      (raw : Text) (made : Fault × W) (held : List Resource)
      → Follows (with_store (booked m) o raw (book_same made held)) (with_store m o raw made)
  unfolding with_store booked book_same refused
  with_store-Follows raw (some e, w) held = (refl, refl)
  with_store-Follows raw (none, w) held =
      scoped-Follows database _ _ held _ _ _ (with_engine-Follows raw)

  made_same :
      (b : Booked W)
      → ensure_db_dir (booked m) o.db_path b ≡ book_same (ensure_db_dir m o.db_path b.world) b.held
  unfolding ensure_db_dir booked book_same
  made_same b = elim (Option-cases (parent o.db_path)) [
    | inl bare ↦ rw (ensure_db_dir, bare) refl
    | inr (d, is) ↦ rw (ensure_db_dir, is) (dir_same d)
  ]
    where
      dir_same :
          (d : Text)
          → (if is_empty d then (none, b) else (booked m).mkdir_all d b)
            ≡ book_same (if is_empty d then (none, b.world) else m.mkdir_all d b.world) b.held
      dir_same [] = refl
      dir_same (c ∷ d) = refl

  run_server_daemon-Follows :
      (b : Booked W) → Follows (run_server_daemon (booked m) o b) (run_server_daemon m o b.world)
  unfolding run_server_daemon single_instance_guard kernel_check booked refused
  run_server_daemon-Follows b = elim (Option-cases (single_instance_guard m o.socket b.world)) [
    | inr (n, alive) ↦ rw (run_server_daemon, alive) (refl, refl)
    | inl free ↦
        rw (run_server_daemon, free)
          (elim (Option-cases (kernel_check m o b.world)) [
            | inr (e, old) ↦ rw old (refl, refl)
            | inl fit ↦
                rw (fit, made_same b)
                  (with_store-Follows (kernel_raw (m.osrelease b.world))
                    (ensure_db_dir m o.db_path b.world) b.held)
          ])
  ]

  -- However the daemon ends, refused, failed at any step of its start or stopped, and whatever its parts
  -- do, it has asked each part that it opened to close, once, behind the parts that were opened
  -- later, and no part that had not opened: the book of its calls ends as it began. Keeping the
  -- book changes nothing of the run.
  pub run_server_daemon_held :
      (w : W) (held : List Resource)
      → let b = run_server_daemon (booked m) o (record { world = w; held = held }) in
        (b.1.held ≡ held)
        × (b.0 ≡ (run_server_daemon m o w).0)
        × (b.1.world ≡ (run_server_daemon m o w).1)
  run_server_daemon_held w held =
      let follows = run_server_daemon-Follows (record { world = w; held = held }) in
      (
        run_server_daemon-Leaves (booked m) (λ b. b.held) (booked-Tracks m) o
            (record { world = w; held = held }),
        follows.0,
        follows.1,
      )
