-- ===== src/Server/Login.antt =====
-- The handlers of pop3server/conn.go for authentication: USER, PASS, AUTH and STLS.
pub mod Gate
pub mod Granted
pub mod Stls
use go_pop.Prelude.{
  ℕ, zero, suc, ◌+◌, ℤ, pos, Bool, true, false, not, ◌&&◌, ◌||◌, Option, none, some, is_none, List,
  [], ◌∷◌, ◌++◌, length, ltb, ◌==◌, if◌then◌else◌,
}
use go_pop.Text.{Bytes, codes, equal, equal_fold, to_upper, trim_space, join}
use go_pop.Protocol.{Capability}
use go_pop.Server.Errors.{SessionError, plain, Outcome, ok, fail}
use go_pop.Server.Parse.{
  sanitize_response, contains_ctl, Credentials, plain_login, malformed, decode_sasl_plain,
}
use go_pop.Server.Wire.{
  Reader, Writer, Segment, LineResult, got, too_long, read_failed, read_line, new_reader,
  new_writer,
}
use go_pop.Server.Session.{Session, SessionSasl, SessionLang, LanguageInfo, Attempt}
use go_pop.Server.Conn.{
  Conn, ConnState, authorization, transaction, Options, write_string, flush_conn, send_ok, send_err,
  hijack, auth_allowed, apply_error_delay, client_error, session_error,
}
use go_pop.Server.Maildrop.{write_lines, with_result, crlf}

-- `mechanismAdvertised` on the session's list.
unfoldable pub mechanism_advertised : List Bytes → Bytes → Bool
unfolding equal_fold
mechanism_advertised [] mech = false
mechanism_advertised (m ∷ ms) mech = equal_fold m mech || mechanism_advertised ms mech

module _ {S : Type 0} (iface : Session S) (opts : Options S) where
  abbrev pub needs_tls : Bytes
  needs_tls = codes "Authentication requires TLS. Use STLS first"

  unfoldable pub handle_user : List Bytes → Conn S → Conn S
  handle_user [] c =
      if auth_allowed opts c
      then client_error opts (codes "Syntax: USER <username>") c
      else client_error opts needs_tls c
  handle_user (name ∷ args) c =
      if not (auth_allowed opts c)
      then client_error opts needs_tls c
      else if contains_ctl name
      then client_error opts (codes "Invalid username") c
      else send_ok [] (record c { username = name })

  -- The session may have called `Hijack` while it authenticated.
  unfoldable pub after_attempt : Bool → Conn S → Conn S
  after_attempt calls_hijack c = if calls_hijack then (hijack c).0 else c

  unfoldable pub login_result : Outcome (Unit {0}) → Conn S → Conn S
  login_result (fail e) c =
      let counted =
        if opts.auth_failures_exempt_from_max_errors
        then c
        else record c { error_count = c.error_count + 1 } in
      session_error opts e (apply_error_delay opts counted)
  login_result (ok _) c =
      if c.hijacked
      then c
      else send_ok (codes "Authentication successful") (record c { state = transaction })

  -- What follows `Login` and `AuthenticatePlain`.
  unfoldable pub finish_login : S × Attempt → Conn S → Conn S
  unfolding after_attempt login_result
  finish_login (s, attempt) c =
      login_result attempt.result (after_attempt attempt.calls_hijack (record c { session = s }))

  unfoldable pub handle_pass : Conn S → Conn S
  unfolding finish_login
  handle_pass c =
      if not (auth_allowed opts c)
      then client_error opts needs_tls c
      else if equal c.username []
      then client_error opts (codes "Send USER first") c
      else if equal c.raw_arg []
      then client_error opts (codes "Syntax: PASS <password>") c
      else finish_login (iface.login c.username c.raw_arg c.session) c

  unfoldable pub auth_decoded : SessionSasl S → Credentials → Conn S → Conn S
  unfolding finish_login
  auth_decoded sasl (malformed t) c =
      client_error opts (codes "Invalid SASL PLAIN response")
        (record c { last_err = some (plain t) })
  auth_decoded sasl (plain_login identity username password) c =
      finish_login (sasl.authenticate_plain identity username password c.session) c

  -- The response of AUTH PLAIN, decoded and tried.
  unfoldable pub auth_response : SessionSasl S → Bytes → Conn S → Conn S
  unfolding auth_decoded
  auth_response sasl encoded c =
      if equal encoded (codes "*")
      then send_err (codes "Authentication aborted") c
      else auth_decoded sasl (decode_sasl_plain encoded) c

  -- The response line; a failing read ends the connection.
  unfoldable pub auth_line : SessionSasl S → LineResult → Conn S → Conn S
  unfolding auth_response
  auth_line sasl (got line) c = auth_response sasl (trim_space line) c
  auth_line sasl too_long c = record c { close_pending = true }
  auth_line sasl (read_failed e) c = record c { close_pending = true }

  -- The continuation: a prompt, and one line.
  unfoldable pub auth_continue : SessionSasl S → Conn S → Conn S
  unfolding auth_line
  auth_continue sasl c =
      let c' = (flush_conn (write_string (codes "+ \r\n") c)).0 in
      let (result, r) = read_line opts.max_line_length c'.reader in
      auth_line sasl result (record c' { reader = r })

  unfoldable pub auth_args : SessionSasl S → List Bytes → Conn S → Conn S
  unfolding auth_continue
  auth_args sasl [] c = write_string (codes ".\r\n") (
      write_lines (λ mech. mech ++ crlf) (sasl.authenticate_mechanisms c.session)
        (write_string (codes "+OK\r\n") c))
  auth_args sasl (mech ∷ rest) c =
      if not (equal (to_upper mech) (codes "PLAIN"))
        || not (mechanism_advertised (sasl.authenticate_mechanisms c.session) (codes "PLAIN"))
      then client_error opts (codes "Unsupported SASL mechanism") c
      else elim rest [ [] ↦ auth_continue sasl c | encoded ∷ _ ↦ auth_response sasl encoded c ]

  unfoldable pub handle_auth : List Bytes → Conn S → Conn S
  unfolding auth_args
  handle_auth args c =
      if not (auth_allowed opts c) then client_error opts needs_tls c else elim iface.sasl [
        | none ↦ client_error opts (codes "SASL not supported") c
        | some sasl ↦ auth_args sasl args c
      ]

  -- The upgrade: the handshake consumes what the network still delivers.
  unfoldable pub start_tls : (List Segment → Option (List Segment × List Bool)) → Conn S → Conn S
  start_tls handshake c =
      let c' = (flush_conn (send_ok (codes "Begin TLS negotiation") c)).0 in
      elim (handshake c'.reader.incoming) [
        | none ↦ record c' { close_pending = true }
        | some (incoming, link) ↦ record c' {
          reader = new_reader incoming;
          writer = record (new_writer link) { sent = c'.writer.sent };
          is_tls = true;
          username = [];
        }
      ]

  unfoldable pub handle_stls : Conn S → Conn S
  unfolding start_tls
  handle_stls c =
      if c.is_tls then client_error opts (codes "Already using TLS") c else elim opts.tls_config [
        | none ↦ client_error opts (codes "TLS not available") c
        | some handshake ↦ elim c.state [
          | transaction ↦ client_error opts (codes "STLS only allowed before authentication") c
          | authorization ↦
              if ltb 0 (length c.reader.buffered)
              then record (client_error opts (codes "Pipelining after STLS not permitted") c) {
                close_pending = true;
              }
              else start_tls handshake c
        ]
      ]
