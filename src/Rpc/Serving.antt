-- ===== src/Rpc/Serving.antt =====
-- internal/rpc/server.go: Serve, Close and the part of handle that keeps track of connections, as steps of
-- the goroutines that run them. A step is what happens under one hold of the server's lock, or one call
-- of package net.
pub mod Closing
use nfuse.Base.{ℕ, ◌≡◌, ◌≢◌, Bool, true, false, not, ◌&&◌, Option, none, some, ◌==◌, if◌then◌else◌}

-- How far Close has come: its listener is closed, the connections are dropped, the socket is removed.
pub data Phase : Type 0 where
  running stopped swept closed : Phase

-- Connections are numbered. `accepted` is the one that Accept has returned and Serve has not yet
-- registered, `leaving` are those that handle has deleted and not yet closed.
pub record Serving : Type 0 where
  pub phase : Phase
  pub serves : Bool
  pub accepted : Option ℕ
  pub conns : ℕ → Bool
  pub handled : ℕ → Bool
  pub leaving : ℕ → Bool
  pub connected : ℕ → Bool
  pub has_socket : Bool

abbrev put : ℕ → Bool → (ℕ → Bool) → ℕ → Bool
put n b f k = if k == n then b else f k

abbrev nowhere : ℕ → Bool
nowhere n = false

-- Behind Listen, as Serve is called.
abbrev pub listening : Serving
listening = record {
  phase = running;
  serves = true;
  accepted = none;
  conns = nowhere;
  handled = nowhere;
  leaving = nowhere;
  connected = nowhere;
  has_socket = true;
}

unfoldable pub accept : ℕ → Serving → Serving
accept n s = record s { accepted = some n; connected = put n true s.connected }

unfoldable pub register : ℕ → Serving → Serving
register n s = record s {
  accepted = none;
  conns = put n true s.conns;
  handled = put n true s.handled;
}

-- The deferred function of handle: under the lock, then the close.
unfoldable pub delete : ℕ → Serving → Serving
delete n s = record s {
  conns = put n false s.conns;
  handled = put n false s.handled;
  leaving = put n true s.leaving;
}

pub hang_up : ℕ → Serving → Serving
hang_up n s = record s { leaving = put n false s.leaving; connected = put n false s.connected }

-- Close under the lock.
unfoldable pub drop : Serving → Serving
drop s = record s {
  phase = swept;
  conns = nowhere;
  connected = λ n. s.connected n && not (s.conns n);
}

pub data Step (s : Serving) : Serving → Type 0 where
  accepts :
      (n : ℕ)
      → s.phase ≡ running
      → s.serves ≡ true
      → s.accepted ≡ none
      → s.connected n ≡ false
      → s.handled n ≡ false
      → s.leaving n ≡ false
      → Step s (accept n s)
  registers : (n : ℕ) → s.accepted ≡ some n → Step s (register n s)
  deletes : (n : ℕ) → s.handled n ≡ true → Step s (delete n s)
  hangs_up : (n : ℕ) → s.leaving n ≡ true → Step s (hang_up n s)
  -- Accept fails once the listener is closed, and Serve returns nil.
  returns :
      s.phase ≢ running → s.serves ≡ true → s.accepted ≡ none → Step s (record s { serves = false })
  -- Accept fails otherwise, at any time, and Serve returns the error.
  fails : s.serves ≡ true → s.accepted ≡ none → Step s (record s { serves = false })
  stops : s.phase ≡ running → Step s (record s { phase = stopped })
  drops : s.phase ≡ stopped → Step s (drop s)
  removes : s.phase ≡ swept → Step s (record s { phase = closed; has_socket = false })

pub data Reach (s : Serving) : Serving → Type 0 where
  here : Reach s s
  next : {t u : Serving} → Reach s t → Step t u → Reach s u
