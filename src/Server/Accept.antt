-- ===== src/Server/Accept.antt =====
-- The accept loop of `Serve`, `Close`, and what surrounds a connection's handler, in
-- pop3server/server.go.
pub mod Backoff
pub mod Shutdown
use go_pop.Prelude.{
  ℕ, suc, ◌*◌, ◌-◌, ◌+◌, ◌<◌, ℤ, Bool, true, false, Option, none, some, List, [], ◌∷◌, ◌++◌, ltb,
  ◌==◌, if◌then◌else◌, ◌≡◌, refl,
}
use go_pop.Server.Conn.{Conn, deadline_after}
use go_pop.Server.Setup.{Handled, turned_away, served}

-- Where `Serve` is: in `Accept`, in the wait behind a failed one, or it has returned.
pub data Phase : Type 0 where
  accepting waiting returned : Phase

-- A server and its loop: whether the context is cancelled, whether the listener is open, the
-- back-off in nanoseconds, the handlers that run (the wait group), and the waits so far.
pub record Server : Type 0 where
  pub phase : Phase
  pub cancelled : Bool
  pub listening : Bool
  pub backoff : ℕ
  pub handlers : ℕ
  pub waits : List ℕ

-- `New`, and `Serve` at its start.
abbrev pub new_server : Server
new_server = record {
  phase = accepting;
  cancelled = false;
  listening = true;
  backoff = 0;
  handlers = 0;
  waits = [];
}

-- 5 ms and 1 s.
abbrev pub first_backoff : ℕ
first_backoff = 5000000

abbrev pub max_backoff : ℕ
max_backoff = 1000000000

unfoldable pub next_backoff : ℕ → ℕ
next_backoff backoff =
    let longer = if backoff == 0 then first_backoff else backoff * 2 in
    if ltb max_backoff longer then max_backoff else longer

-- `Accept` returns a connection: a handler is started.
abbrev pub accepted : Server → Server
accepted s = record s { backoff = 0; handlers = suc s.handlers }

-- `Accept` fails.
unfoldable pub accept_failed : Server → Server
unfolding next_backoff
accept_failed s =
    let backoff = next_backoff s.backoff in
    if s.cancelled
    then record s { phase = returned }
    else record s { phase = waiting; backoff = backoff; waits = s.waits ++ backoff ∷ [] }

-- The wait is over, or the context has been cancelled first.
abbrev pub waited : Server → Server
waited s = record s { phase = accepting }

abbrev pub wait_cancelled : Server → Server
wait_cancelled s = record s { phase = returned }

-- `Close` cancels the context and closes the listener; then it waits until no handler runs.
abbrev pub cancel : Server → Server
cancel s = record s { cancelled = true }

abbrev pub close_listener : Server → Server
close_listener s = record s { listening = false }

abbrev pub handler_ended : Server → Server
handler_ended s = record s { handlers = s.handlers - 1 }

-- The steps of the loop, of the handlers, of `Close`, and of whoever else closes the listener, in
-- any order. A closed listener accepts nothing; an open one may fail at any time.
pub data Step : Server → Server → Type 0 where
  accepts : (s : Server) → s.phase ≡ accepting → s.listening ≡ true → Step s (accepted s)
  fails : (s : Server) → s.phase ≡ accepting → Step s (accept_failed s)
  waits_out : (s : Server) → s.phase ≡ waiting → Step s (waited s)
  stops : (s : Server) → s.phase ≡ waiting → s.cancelled ≡ true → Step s (wait_cancelled s)
  cancels : (s : Server) → Step s (cancel s)
  closes : (s : Server) → Step s (close_listener s)
  ends : (s : Server) → 0 < s.handlers → Step s (handler_ended s)

-- Steps one after the other, the last one first.
pub data Steps (start : Server) : Server → Type 0 where
  here : Steps start start
  further : {s t : Server} → Steps start s → Step s t → Steps start t

-- The network connections that `isTLSConn` tells apart: TLS, a wrapper with `Unwrap`, any other.
pub data NetConn : Type 0 where
  tls : NetConn
  wraps : NetConn → NetConn
  wraps_nil : NetConn
  other : NetConn

unfoldable pub is_tls_conn : NetConn → Bool
is_tls_conn tls = true
is_tls_conn (wraps conn) = is_tls_conn conn
is_tls_conn wraps_nil = false
is_tls_conn other = false

-- The deadline that `writeDeadlineConn` sets for a write at a time, if `newWriter` puts it around
-- the connection.
unfoldable pub write_deadline : ℕ → ℤ → Option ℕ
unfolding deadline_after
write_deadline now timeout = deadline_after now timeout

-- A handler returns, or panics.
pub data Run (A : Type 0) : Type 0 where
  returns : A → Run A
  panics : Run A

-- The network connection behind `handleConn`.
abbrev pub net_closed : {S : Type 0} → Handled S → Bool
net_closed (turned_away w) = true
net_closed (served c ended) = c.net_closed

-- `ServeConn`, with `recoverConn`: whether the connection is closed, and whether the panic hook, if
-- there is one, has been called.
unfoldable pub serve_conn : {S : Type 0} → Bool → Run (Handled S) → Bool × Bool
serve_conn has_hook (returns h) = (net_closed h, false)
serve_conn has_hook panics = (true, has_hook)
