-- ===== src/Server/Setup.antt =====
-- `handleConn` of pop3server/server.go: a connection from its set-up on.
pub mod Outcomes
use go_pop.Prelude.{ℕ, Bool, true, false, none, List, []}
use go_pop.Text.{Bytes, codes}
use go_pop.Server.Errors.{SessionError, wire, close_connection, plain, wire_message}
use go_pop.Server.Wire.{Segment, new_reader, Writer, new_writer, put, flush}
use go_pop.Server.Session.{Session}
use go_pop.Server.Conn.{Conn, authorization, Options, response_line}
use go_pop.Server.Serve.{serve}

-- What `NewSession` gives: a session, and whether the connection then counts as TLS (it may call
-- `SetTLS`); an error that `errors.Is` takes for `ErrSilentReject`; or any other error.
pub data Created (S : Type 0) : Type 0 where
  created : S → Bool → Created S
  silent_reject : Created S
  rejected : SessionError → Created S

-- How the connection ends: turned away, with what has been written, or served. The network connection
-- of one that is turned away is closed.
pub data Handled (S : Type 0) : Type 0 where
  turned_away : Writer → Handled S
  served : Conn S → Bool → Handled S

-- A connection whose session has been created.
abbrev pub new_conn : {S : Type 0} → S → Bool → List Segment → List Bool → Conn S
new_conn s is_tls incoming link = record {
  session = s;
  state = authorization;
  username = [];
  raw_arg = [];
  error_count = 0;
  is_tls = is_tls;
  hijacked = false;
  close_pending = false;
  last_err = none;
  reader = new_reader incoming;
  writer = new_writer link;
  slept = [];
  hooks = [];
  net_closed = false;
}

module _ {S : Type 0} (iface : Session S) (opts : Options S) where
  abbrev pub reject_text : SessionError → Bytes
  reject_text (wire e) = wire_message e
  reject_text (close_connection t) = opts.reject_message
  reject_text (plain t) = opts.reject_message

  -- `new_session` takes whether TLS has been detected. The fuel is that of the command loop.
  unfoldable pub handle_conn : ℕ → (Bool → Created S) → Bool → List Segment → List Bool → Handled S
  unfolding serve put flush response_line
  handle_conn fuel new_session is_tls incoming link = elim (new_session is_tls) [
    | silent_reject ↦ turned_away (new_writer link)
    | rejected e ↦
        turned_away
          (flush (put (response_line (codes "-ERR") (reject_text e)) (new_writer link)).0).0
    | created s tls ↦
        let (c, ended) = serve iface opts fuel (new_conn s tls incoming link) in served c ended
  ]
