-- ===== src/Rpc/Listening.antt =====
-- internal/rpc/server.go: Listen and DaemonAlive, with the path of the socket as a parameter of several
-- processes. Listen is cut where another process can come between: behind the probe, and before the bind.
use nfuse.Base.{ℕ, ◌≡◌, refl, sym, ap, ◌∙◌, Bool, true, Option, none, some, if◌then◌else◌}
use mathlib.Core.Path.{subst}
use nfuse.Base.Text.{codes}
use nfuse.Model.{Error, external}
use nfuse.Store.{Fault}

-- What the operating system does with the path.
pub record SocketPath (W : Type 0) : Type 0 where
  pub is_socket : W → Bool
  pub dials : W → Bool
  pub remove : W → W
  pub bind : ℕ → W → Fault × W

pub data Probe : Type 0 where
  alive stale free : Probe

already_listening : Error
already_listening = external (codes "another nfuse daemon is already listening")

module _ {W : Type 0} (ops : SocketPath W) where
  pub daemon_alive : W → Bool
  daemon_alive w = ops.dials w

  unfoldable pub probe : W → Probe
  unfolding daemon_alive
  probe w = if ops.is_socket w then if daemon_alive w then alive else stale else free

  pub reclaim : Probe → W → W
  reclaim stale w = ops.remove w
  reclaim alive w = w
  reclaim free w = w

  pub bind_path : Probe → ℕ → W → Fault × W
  unfolding already_listening
  bind_path alive process w = (some already_listening, w)
  bind_path stale process w = ops.bind process w
  bind_path free process w = ops.bind process w

  -- Listen, when no other process comes between.
  listen : ℕ → W → Fault × W
  unfolding probe reclaim bind_path
  listen process w = let found = probe w in bind_path found process (reclaim found w)

  -- What is relied on: a process that has bound the path answers on it.
  pub record Answers (owner : W → Option ℕ) : Type 0 where
    pub bound :
        (p : ℕ) (w : W)
        → (ops.bind p w).0 ≡ none
        → (ops.is_socket (ops.bind p w).1 ≡ true)
          × (ops.dials (ops.bind p w).1 ≡ true)
          × (owner (ops.bind p w).1 ≡ some p)

module _ {W : Type 0} (ops : SocketPath W) (owner : W → Option ℕ)
    (answers : Answers ops owner) where
  bind_path_lem :
      (found : Probe) (p : ℕ) (w : W)
      → (bind_path ops found p w).0 ≡ none
      → bind_path ops found p w ≡ ops.bind p w
  unfolding bind_path
  bind_path_lem alive p w h = cc
  bind_path_lem stale p w h = refl
  bind_path_lem free p w h = refl

  probe_bound : (p : ℕ) (w : W) → (ops.bind p w).0 ≡ none → probe ops (ops.bind p w).1 ≡ alive
  unfolding probe daemon_alive
  probe_bound p w h = let b = answers.bound p w h in rw (b.0, b.1) refl

  alive_refused :
      (q : ℕ) (w : W) → probe ops w ≡ alive → listen ops q w ≡ (some already_listening, w)
  unfolding listen bind_path reclaim
  alive_refused q w h = rw (listen, h) refl

  -- Once a process listens, Listen of any other is refused and leaves everything as it is, and the
  -- first keeps the socket.
  listen_twice :
      (p q : ℕ) (w : W)
      → (listen ops p w).0 ≡ none
      → (listen ops q (listen ops p w).1 ≡ (some already_listening, (listen ops p w).1))
        × (owner (listen ops p w).1 ≡ some p)
  unfolding listen
  listen_twice p q w h =
      let at = reclaim ops (probe ops w) w in
      let same = bind_path_lem (probe ops w) p at h in
      subst
        (λ (r : Fault × W).
          (listen ops q r.1 ≡ (some already_listening, r.1)) × (owner r.1 ≡ some p))
        (sym same)
        (
          alive_refused q (ops.bind p at).1 (probe_bound p at (sym (ap (λ r. r.0) same) ∙ h)),
          (answers.bound p at (sym (ap (λ r. r.0) same) ∙ h)).2,
        )
