-- ===== src/Mem/Interface.antt =====
-- pop3mem/store.go as a session of pop3server: `*session` behind the interface `Session`. The
-- state is the store, which all sessions share, with the session's own part.
pub mod Retrieval
use go_pop.Prelude.{ℕ, ℤ, pos, false, Option, none, some, List, [], ◌∷◌}
use go_pop.Text.{Bytes, codes}
use go_pop.Server.Errors.{Outcome, ok, fail}
use go_pop.Server.Session.{Session as Interface, Body, Attempt, SessionSasl}
use go_pop.Mem.{Store, Session, login, stat, list, uidl, retr, top, dele, rset, quit}

abbrev pub State : Type 0
State = Store × Session

-- `io.NopCloser(bytes.NewReader(data))`: all of it at once.
abbrev pub new_body : Bytes → Body
new_body content = record { chunks = content ∷ []; read_fails = false; octets = none }

abbrev pub body_result : Outcome Bytes → Outcome Body
body_result (ok content) = ok (new_body content)
body_result (fail e) = fail e

unfoldable pub login_method : Bytes → Bytes → State → State × Attempt
login_method name password (store, s) =
    let (s', result) = login name password store s in
    ((store, s'), record { result = result; calls_hijack = false })

-- The identity is not used.
abbrev pub sasl_methods : SessionSasl State
sasl_methods = record {
  authenticate_mechanisms = λ t. codes "PLAIN" ∷ [];
  authenticate_plain = λ identity username password. login_method username password;
}

abbrev pub mem_session : Interface State
mem_session = record {
  close = λ t. t;
  login = login_method;
  stat = λ t. (t, ok (stat t.1));
  list = λ msg t. (t, list msg t.1);
  uidl = λ msg t. (t, uidl msg t.1);
  retr = λ msg t. (t, body_result (retr msg t.1));
  top = λ msg lines t. (t, body_result (top msg lines t.1));
  dele = λ msg t. let (s', result) = dele msg t.1 in ((t.0, s'), result);
  rset = λ t. ((t.0, rset t.1), ok tt);
  noop = λ t. (t, ok tt);
  quit = λ t. let (store, expunged) = quit t.0 t.1 in ((store, t.1), ok (pos expunged));
  sasl = some sasl_methods;
  lang = none;
  utf8 = none;
}
