-- ===== src/Cli/Lifecycle/Releases.antt =====
-- The deferred calls of runServerDaemon: what the daemon has opened when it ends.
use nfuse.Base.{
  sym, ◌≢◌, ◌⊎◌, ◌≡◌, refl, ap, ◌∙◌, Bool, true, false, Bool-cases, inl, inr, none, some, List, [],
  ◌∷◌, Option-cases, is_empty, if◌then◌else◌,
}
use nfuse.Base.Int.{ℤ}
use nfuse.System.{check_netdev_egress}
use nfuse.Cli.Commands.{is_zero}
use nfuse.Base.Text.{Text}
use nfuse.Model.{Error}
use nfuse.Store.{Fault}
use nfuse.Cli.Lifecycle.{
  ServerOptions, Notice, Machine, Ended, scoped, wait, with_http, with_rpc, with_engine, with_store,
  ensure_db_dir, single_instance_guard, kernel_check, run_server_daemon, parent, refused,
}

pub data Resource : Type 0 where
  database controller socket endpoint : Resource

-- What is held once `r` was opened, or failed to.
unfoldable pub opened : Resource → Fault → List Resource → List Resource
opened r none held = r ∷ held
opened r (some e) held = held

-- The parts of a machine under a list of what is held, the last opened first: a part that opens adds
-- itself, one that fails adds nothing, and a close promises to release a part only if no later one is
-- still held.
pub record Tracks {W : Type 0} (m : Machine W) (held : W → List Resource) : Type 0 where
  pub mkdir_held : (d : Text) (w : W) → held (m.mkdir_all d w).1 ≡ held w
  pub store_held :
      (p : Text) (w : W) → held (m.open_store p w).1 ≡ opened database (m.open_store p w).0 (held w)
  pub engine_held :
      (o : ServerOptions) (w : W)
      → held (m.start_engine o w).1 ≡ opened controller (m.start_engine o w).0 (held w)
  pub rpc_held :
      (o : ServerOptions) (b : Bool) (t : Text) (w : W)
      → held (m.listen_rpc o b t w).1 ≡ opened socket (m.listen_rpc o b t w).0 (held w)
  pub http_held :
      (a : Text) (p : ℤ) (w : W)
      → held (m.listen_http a p w).1 ≡ opened endpoint (m.listen_http a p w).0 (held w)
  pub store_closed :
      (w : W) (rest : List Resource) → held w ≡ database ∷ rest → held (m.close_store w) ≡ rest
  pub engine_closed :
      (w : W) (rest : List Resource) → held w ≡ controller ∷ rest → held (m.stop_engine w) ≡ rest
  pub rpc_closed :
      (w : W) (rest : List Resource) → held w ≡ socket ∷ rest → held (m.close_rpc w) ≡ rest
  pub http_closed :
      (w : W) (rest : List Resource) → held w ≡ endpoint ∷ rest → held (m.close_http w) ≡ rest
  pub serve_held : (w : W) → held (m.serve w).1 ≡ held w

module _ {W : Type 0} (held : W → List Resource) where
  -- Ends holding `hs`.
  abbrev Leaves : List Resource → Ended W → Type 0
  Leaves hs done = held done.1 ≡ hs

  scoped-Leaves :
      (r : Resource) (hs : List Resource) (notice : Error → Notice) (tried : Fault × W)
      (close : W → W) (body : W → Ended W)
      → held tried.1 ≡ opened r tried.0 hs
      → ((w : W) (rest : List Resource) → held w ≡ r ∷ rest → held (close w) ≡ rest)
      → ((w : W) → held w ≡ r ∷ hs → Leaves (r ∷ hs) (body w))
      → Leaves hs (scoped notice tried close body)
  unfolding scoped opened
  scoped-Leaves r hs notice (some e, w) close body h k b = h
  scoped-Leaves r hs notice (none, w) close body h k b = k _ hs (b w h)

module _ {W : Type 0} (m : Machine W) (held : W → List Resource) (t : Tracks m held) where
  wait-Leaves :
      (o : ServerOptions) (hs : List Resource) (w : W) → held w ≡ hs → Leaves held hs (wait m o w)
  unfolding wait
  wait-Leaves o hs w h = t.serve_held w ∙ h

  with_http-Leaves :
      (o : ServerOptions) (hs : List Resource) (w : W)
      → held w ≡ hs
      → Leaves held hs (with_http m o w)
  unfolding with_http
  with_http-Leaves o hs w h = elim (Bool-cases (is_zero o.http_port)) [
    | inl off ↦ rw off (wait-Leaves o hs w h)
    | inr on ↦ rw on (
        scoped-Leaves held endpoint hs _ _ _ _
          (t.http_held o.http_addr o.http_port w ∙ ap (opened endpoint _) h) t.http_closed
          (wait-Leaves o (endpoint ∷ hs)))
  ]

  with_rpc-Leaves :
      (o : ServerOptions) (raw : Text) (hs : List Resource) (w : W)
      → held w ≡ hs
      → Leaves held hs (with_rpc m o raw w)
  unfolding with_rpc
  with_rpc-Leaves o raw hs w h =
      scoped-Leaves held socket hs _ _ _ _ (t.rpc_held o _ raw w ∙ ap (opened socket _) h)
        t.rpc_closed (with_http-Leaves o (socket ∷ hs))

  with_engine-Leaves :
      (o : ServerOptions) (raw : Text) (hs : List Resource) (w : W)
      → held w ≡ hs
      → Leaves held hs (with_engine m o raw w)
  unfolding with_engine
  with_engine-Leaves o raw hs w h =
      scoped-Leaves held controller hs _ _ _ _ (t.engine_held o w ∙ ap (opened controller _) h)
        t.engine_closed (with_rpc-Leaves o raw (controller ∷ hs))

  with_store-Leaves :
      (o : ServerOptions) (raw : Text) (hs : List Resource) (made : Fault × W)
      → held made.1 ≡ hs
      → Leaves held hs (with_store m o raw made)
  unfolding with_store refused
  with_store-Leaves o raw hs (some e, w) h = h
  with_store-Leaves o raw hs (none, w) h =
      scoped-Leaves held database hs _ _ _ _ (t.store_held o.db_path w ∙ ap (opened database _) h)
        t.store_closed (with_engine-Leaves o raw (database ∷ hs))

  ensure_db_dir_held : (path : Text) (w : W) → held (ensure_db_dir m path w).1 ≡ held w
  unfolding ensure_db_dir
  ensure_db_dir_held path w = elim (Option-cases (parent path)) [
    | inl bare ↦ rw (ensure_db_dir, bare) refl
    | inr (d, is) ↦ rw (ensure_db_dir, is) (dir_held d)
  ]
    where
      dir_held : (d : Text) → held (if is_empty d then (none, w) else m.mkdir_all d w).1 ≡ held w
      dir_held [] = refl
      dir_held (c ∷ d) = t.mkdir_held (c ∷ d) w

  pub run_server_daemon-Leaves :
      (o : ServerOptions) (w : W) → held (run_server_daemon m o w).1 ≡ held w
  unfolding run_server_daemon refused
  run_server_daemon-Leaves o w = elim (Option-cases (single_instance_guard m o.socket w)) [
    | inr (n, alive) ↦ rw (run_server_daemon, alive) refl
    | inl free ↦
        rw (run_server_daemon, free)
          (elim (Option-cases (kernel_check m o w)) [
            | inr (e, old) ↦ rw old refl
            | inl fit ↦ rw fit (
                with_store-Leaves o _ (held w) (ensure_db_dir m o.db_path w)
                  (ensure_db_dir_held o.db_path w))
          ])
  ]

kernel_check_kept :
    {W : Type 0} (m : Machine W) (o : ServerOptions) (w : W)
    → o.skip_kernel_check ≡ false
    → kernel_check m o w ≡ check_netdev_egress (m.osrelease w)
unfolding kernel_check
kernel_check_kept m o w kept = rw kept refl

-- While another daemon is alive on the socket, or on a kernel without the egress hook unless the check
-- is skipped, the daemon exits with 1 before it touches anything.
run_server_daemon_refused :
    {W : Type 0} (m : Machine W) (o : ServerOptions) (w : W)
    → (m.daemon_alive o.socket w ≡ true)
      ⊎ (o.skip_kernel_check ≡ false) × (check_netdev_egress (m.osrelease w) ≢ none)
    → ((run_server_daemon m o w).0.0 ≡ 1) × ((run_server_daemon m o w).1 ≡ w)
unfolding run_server_daemon refused
run_server_daemon_refused m o w (inl alive) =
    rw (run_server_daemon, single_instance_guard, alive) (refl, refl)
run_server_daemon_refused m o w (inr (kept, old)) = elim (Bool-cases (m.daemon_alive o.socket w)) [
  | inl alive ↦ rw (run_server_daemon, single_instance_guard, alive) (refl, refl)
  | inr free ↦ elim (Option-cases (kernel_check m o w)) [
    | inr (e, is) ↦ rw (run_server_daemon, single_instance_guard, free, is) (refl, refl)
    | inl fit ↦ absurd (old (sym (kernel_check_kept m o w kept) ∙ fit))
  ]
]
