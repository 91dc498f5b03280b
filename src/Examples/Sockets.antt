-- ===== src/Examples/Sockets.antt =====
-- Examples of the theorems on Serve and Close of internal/rpc/server.go.
use nfuse.Base.{◌≡◌, refl, true, false}
use nfuse.Rpc.Serving.{
  Serving, stopped, closed, listening, accept, register, delete, drop, accepts, deletes, registers,
  returns, stops, Reach, here, next,
}
use nfuse.Rpc.Serving.Closing.{close_after_serve, late_connection_stays}

-- One connection is served; its handler is about to close it as Close has closed the listener and Serve
-- has returned.
abbrev served : Serving
served = register 0 (accept 0 listening)

abbrev returned : Serving
returned = record (delete 0 served) { phase = stopped; serves = false }

served-Reach : Reach listening served
unfolding accept
served-Reach = next (next here (accepts 0 refl refl refl refl refl refl)) (registers 0 refl)

returned-Reach : Reach listening returned
unfolding accept register delete
returned-Reach =
    next (next (next served-Reach (deletes 0 refl)) (stops refl)) (returns (λ e. cc) refl refl)

close_after_serve_example : (drop returned).leaving 0 ≡ true
unfolding accept register delete drop
close_after_serve_example = close_after_serve returned-Reach refl refl Reach.here 0 refl

-- A second connection waits to be registered when the listener closes.
abbrev late : Serving
late = record (accept 1 served) { phase = stopped }

late-Reach : Reach listening late
unfolding accept register
late-Reach = next (next served-Reach (accepts 1 refl refl refl refl refl refl)) (stops refl)

late_connection_stays_example :
    (u : Serving) × Reach (drop late) u
    × (u.phase ≡ closed)
    × (u.serves ≡ false)
    × (u.connected 1 ≡ true)
    × (u.handled 1 ≡ true)
    × (u.leaving 1 ≡ false)
unfolding accept
late_connection_stays_example = late_connection_stays 1 late-Reach refl refl
