-- ===== src/Tests.antt =====
-- Concrete data of the examples: a store with one user and two messages, options, and a connection.
mod Server
mod Formats
mod Maildrop
mod Loop
mod Client
mod Exchange
mod Accept
mod Capabilities
use go_pop.Prelude.{ℕ, ℤ, pos, Bool, true, false, Option, none, some, List, [], ◌∷◌, ◌++◌}
use go_pop.Text.{Bytes, codes}
use go_pop.Server.Wire.{Segment, arrives, new_reader, new_writer}
use go_pop.Server.Conn.{Conn, ConnState, authorization, transaction, Options, seconds}
use go_pop.Mem.{Message, Account, Store, Session, new_session}
use go_pop.Mem.Interface.{State}

abbrev pub first : Message
first = record { addr = 0; uid = codes "u0"; content = codes "S: a\r\n\r\n.x\r\ny\r\n" }

abbrev pub second : Message
second = record { addr = 1; uid = codes "u1"; content = codes "z" }

abbrev pub ann : Bytes
ann = codes "ann"

abbrev pub ann_account : Account
ann_account = record { password = codes "pw"; messages = first ∷ second ∷ [] }

abbrev pub one_user : Store
one_user = record { users = (ann, ann_account) ∷ []; next = 2 }

-- A session that has logged in, and marked its second message.
abbrev pub logged_in : Session
logged_in = record { username = ann; msgs = first ∷ second ∷ []; deleted = 2 ∷ [] }

abbrev pub test_options : Options State
test_options = record {
  tls_config = none;
  caps = [];
  suppressed_caps = [];
  idle_timeout = seconds 600;
  auth_idle_timeout = pos 0;
  absolute_session_timeout = seconds 3600;
  write_timeout = seconds 60;
  insecure_auth = false;
  max_line_length = 1024;
  max_errors = pos 10;
  auth_failures_exempt_from_max_errors = false;
  error_delay = pos 0;
  max_error_delay = seconds 30;
  greeting = codes "ready";
  reject_message = codes "no";
  strict_session_errors = false;
  unknown_command_handler = none;
}

abbrev pub connection : ConnState → Bool → Session → Conn State
connection state is_tls s = record {
  session = (one_user, s);
  state = state;
  username = ann;
  raw_arg = codes "pw";
  error_count = 0;
  is_tls = is_tls;
  hijacked = false;
  close_pending = false;
  last_err = none;
  reader = new_reader (arrives (codes "CAPA\r\nQUIT\r\n") ∷ []);
  writer = new_writer [];
  slept = [];
  hooks = [];
  net_closed = false;
}
