-- ===== src/Tests/Accept.antt =====
-- Examples for the accept loop of pop3server.
use go_pop.Prelude.{◌≤◌, true, false, ◌≡◌, refl}
use go_pop.Server.Accept.{
  Server, new_server, accept_failed, accepted, waited, cancel, close_listener, Steps, here, further,
  accepts, fails, waits_out, tls, wraps, wraps_nil, is_tls_conn, waiting,
}
use go_pop.Server.Accept.Backoff.{IsSound, Steps-IsSound}
use go_pop.Server.Accept.Shutdown.{own_steps, GoesOn, Close-GoesOn}

test_tls : is_tls_conn (wraps (wraps tls)) ≡ true
unfolding is_tls_conn
test_tls = refl

test_nil : is_tls_conn (wraps wraps_nil) ≡ false
unfolding is_tls_conn
test_nil = refl

-- A connection, a failure, and another one.
abbrev failed_once : Server
failed_once = waited (accept_failed (accepted new_server))

failing : (accept_failed (accepted new_server)).phase ≡ waiting
unfolding accept_failed
failing = refl

abbrev trace : Steps new_server failed_once
trace =
    further
      (further (further here (accepts new_server refl refl)) (fails (accepted new_server) refl))
      (waits_out (accept_failed (accepted new_server)) failing)

Steps-IsSound_example : IsSound failed_once
Steps-IsSound_example = Steps-IsSound failed_once trace

-- `Close` while the loop is in `Accept`.
abbrev closed : Server
closed = close_listener (cancel failed_once)

abbrev last_steps : Steps closed (accept_failed closed)
last_steps = further here (fails closed refl)

Close-GoesOn_example :
    (own_steps last_steps ≤ 2)
    × GoesOn (accept_failed closed)
    × ((accept_failed closed).listening ≡ false)
Close-GoesOn_example = Close-GoesOn closed (accept_failed closed) last_steps (refl, refl)
