-- ===== src/Server/Login/Granted.antt =====
-- Who becomes authenticated by PASS and AUTH in pop3server/conn.go.
use go_pop.Prelude.{
  false, not, ◌⊎◌, inl, inr, Option, none, some, List, [], ◌∷◌, ◌++◌, ◌≤◌, if-case, ◌≡◌, refl, ap,
  arith,
}
use go_pop.Text.{Bytes, codes, equal, trim_space}
use go_pop.Server.Errors.{plain, ok}
use go_pop.Server.Parse.{Credentials, plain_login, malformed, decode_sasl_plain}
use go_pop.Server.Wire.{
  flush, put, Reader, Writer, LineResult, got, too_long, read_failed, read_line,
}
use go_pop.Server.Wire.Progress.{left, Takes-left, read_line-Takes}
use go_pop.Server.Session.{Session, SessionSasl, Attempt}
use go_pop.Server.Conn.{
  Conn, Options, write_string, send_err, flush_conn, auth_allowed, client_error,
}
use go_pop.Server.Conn.Frame.{client_error-Same}
use go_pop.Server.Maildrop.{write_lines, crlf}
use go_pop.Server.Maildrop.Frame.{Quiet, write_lines-Quiet}
use go_pop.Server.Login.{
  needs_tls, handle_user, finish_login, handle_pass, auth_decoded, auth_line, auth_response,
  auth_continue, auth_args, handle_auth,
}
use go_pop.Server.Extensions.Frame.{Quiet-trans, write_string-Quiet}
use go_pop.Server.Login.Gate.{finish_login-state}

module _ {S : Type 0} (iface : Session S) (opts : Options S) where
  -- PASS: the session accepts the name and the rest of the line, and leaves `s`.
  abbrev pub ByPass : Conn S → S → Type 0
  ByPass c s =
      ((iface.login c.username c.raw_arg c.session).1.result ≡ ok tt)
      × (s ≡ (iface.login c.username c.raw_arg c.session).0)

  -- The response of an AUTH command: behind the mechanism, or the next line of the input.
  pub data Responds (c : Conn S) : List Bytes → Bytes → Type 0 where
    initial :
        {mech response : Bytes} {rest : List Bytes} → Responds c (mech ∷ response ∷ rest) response
    prompted :
        {mech line : Bytes}
        → (read_line opts.max_line_length c.reader).0 ≡ got line
        → Responds c (mech ∷ []) (trim_space line)

  -- AUTH: the session accepts what the response is decoded to, and leaves `s`.
  pub data ByAuth (args : List Bytes) (c : Conn S) (s : S) : Type 0 where
    by_auth :
        (sasl : SessionSasl S) (response identity username password : Bytes)
        → iface.sasl ≡ some sasl
        → Responds c args response
        → decode_sasl_plain response ≡ plain_login identity username password
        → (sasl.authenticate_plain identity username password c.session).1.result ≡ ok tt
        → s ≡ (sasl.authenticate_plain identity username password c.session).0
        → ByAuth args c s

  -- The state is the old one, or the session is one that has accepted; no input comes back.
  unfoldable pub Moves : (S → Type 0) → Conn S → Conn S → Type 0
  Moves P c d = (left d.reader ≤ left c.reader) × ((d.state ≡ c.state) ⊎ P d.session)

  client_error-Moves :
      (P : S → Type 0) (msg : Bytes) (c : Conn S) → Moves P c (client_error opts msg c)
  unfolding Moves
  client_error-Moves P msg c =
      let f = (client_error-Same opts msg c).0.1 in
      (omega (arith, ap (λ t. left t.4) f), inl (ap (λ t. t.0) f))

  -- With no permission to authenticate here, USER, PASS and AUTH are errors of the client, and
  -- nothing else happens: the session is not called, the name not kept, the state not changed.
  pub gate_closed :
      (args : List Bytes) (c : Conn S)
      → auth_allowed opts c ≡ false
      → (handle_user iface opts args c ≡ client_error opts (needs_tls iface opts) c)
        × (handle_pass iface opts c ≡ client_error opts (needs_tls iface opts) c)
        × (handle_auth iface opts args c ≡ client_error opts (needs_tls iface opts) c)
  unfolding handle_user handle_pass handle_auth
  gate_closed [] c h = rw h (refl, refl, refl)
  gate_closed (a ∷ args) c h = rw h (refl, refl, refl)

  -- What an attempt that succeeds leaves.
  abbrev Leaves : (S → Type 0) → S × Attempt → Type 0
  Leaves P r = (s : S) → r.1.result ≡ ok tt → s ≡ r.0 → P s

  attempt-Moves :
      (P : S → Type 0) (r : S × Attempt) (c : Conn S)
      → Leaves P r
      → Moves P c (finish_login iface opts r c)
  unfolding Moves
  attempt-Moves P r c accepted =
      let (from, _, input, moved) = finish_login-state iface opts r c in
      (
        omega (arith, ap left input),
        elim moved [
          | inl e ↦ inl e
          | inr e ↦ inr (accepted (finish_login iface opts r c).session e from)
        ],
      )

  pub pass-Moves : (c : Conn S) → Moves (ByPass c) c (handle_pass iface opts c)
  unfolding handle_pass
  pass-Moves c =
      let P = ByPass c in
      if-case (Moves P c) (not (auth_allowed opts c)) _ _ (client_error-Moves P _ c) (
        if-case (Moves P c) (equal c.username []) _ _ (client_error-Moves P _ c) (
          if-case (Moves P c) (equal c.raw_arg []) _ _ (client_error-Moves P _ c)
            (attempt-Moves P (iface.login c.username c.raw_arg c.session) c (λ s e f. (e, f)))))

  -- What an attempt with decoded credentials leaves.
  abbrev Decodes : (S → Type 0) → SessionSasl S → Credentials → S → Type 0
  Decodes P sasl m s =
      (i u p : Bytes) → m ≡ plain_login i u p → Leaves P (sasl.authenticate_plain i u p s)

  decoded-Moves :
      (P : S → Type 0) (sasl : SessionSasl S) (m : Credentials) (c : Conn S)
      → Decodes P sasl m c.session
      → Moves P c (auth_decoded iface opts sasl m c)
  unfolding auth_decoded Moves
  decoded-Moves P sasl (malformed t) c accepted =
      let f =
        (client_error-Same opts (codes "Invalid SASL PLAIN response")
          (record c { last_err = some (plain t) })).0.1 in
      (omega (arith, ap (λ t. left t.4) f), inl (ap (λ t. t.0) f))
  decoded-Moves P sasl (plain_login i u p) c accepted =
      attempt-Moves P (sasl.authenticate_plain i u p c.session) c (accepted i u p refl)

  send_err-Moves : (P : S → Type 0) (msg : Bytes) (c : Conn S) → Moves P c (send_err msg c)
  unfolding send_err write_string Moves
  send_err-Moves P msg c = (omega arith, inl refl)

  response-Moves :
      (P : S → Type 0) (sasl : SessionSasl S) (response : Bytes) (c : Conn S)
      → Decodes P sasl (decode_sasl_plain response) c.session
      → Moves P c (auth_response iface opts sasl response c)
  unfolding auth_response
  response-Moves P sasl response c accepted =
      if-case (Moves P c) (equal response (codes "*")) _ _ (send_err-Moves P _ c)
        (decoded-Moves P sasl (decode_sasl_plain response) c accepted)

  taken-Moves :
      (P : S → Type 0) (sasl : SessionSasl S) (result : LineResult) (c : Conn S)
      → ((line : Bytes)
          → result ≡ got line
          → Decodes P sasl (decode_sasl_plain (trim_space line)) c.session)
      → Moves P c (auth_line iface opts sasl result c)
  unfolding auth_line Moves
  taken-Moves P sasl (got line) c accepted =
      response-Moves P sasl (trim_space line) c (accepted line refl)
  taken-Moves P sasl too_long c accepted = (omega arith, inl refl)
  taken-Moves P sasl (read_failed e) c accepted = (omega arith, inl refl)

  -- What is read and written on the way does not matter.
  same_input :
      (P : S → Type 0) (c : Conn S) (w : Writer) (r : Reader) (d : Conn S)
      → left r ≤ left c.reader
      → Moves P (record c { reader = r; writer = w }) d
      → Moves P c d
  unfolding Moves
  same_input P c w r d h (n, moved) = (omega arith, moved)

  continue-Moves :
      (sasl : SessionSasl S) (mech : Bytes) (c : Conn S)
      → iface.sasl ≡ some sasl
      → Moves (ByAuth (mech ∷ []) c) c (auth_continue iface opts sasl c)
  unfolding auth_continue write_string flush_conn
  continue-Moves sasl mech c has =
      let P = ByAuth (mech ∷ []) c in
      let w = (flush (put (codes "+ \r\n") c.writer).0).0 in
      let (result, r) = read_line opts.max_line_length c.reader in
      same_input P c w r (auth_line iface opts sasl result (record c { reader = r; writer = w }))
        (Takes-left (left c.reader) (read_line opts.max_line_length c.reader)
          (read_line-Takes opts.max_line_length c.reader))
        (taken-Moves P sasl result (record c { reader = r; writer = w })
          (λ line is i u p decoded s e f.
            by_auth sasl (trim_space line) i u p has (prompted is) decoded e f))

  Quiet-Moves : (P : S → Type 0) (c d : Conn S) → Quiet c d → Moves P c d
  unfolding Quiet Moves
  Quiet-Moves P c d q = (omega (arith, ap (λ t. left t.4) q.0), inl (ap (λ t. t.0) q.0))

  args-Moves :
      (sasl : SessionSasl S) (args : List Bytes) (c : Conn S)
      → iface.sasl ≡ some sasl
      → Moves (ByAuth args c) c (auth_args iface opts sasl args c)
  unfolding auth_args
  args-Moves sasl [] c has = Quiet-Moves (ByAuth [] c) c _ (
      Quiet-trans c (write_string (codes "+OK\r\n") c) _ (write_string-Quiet _ c) (
        Quiet-trans (write_string (codes "+OK\r\n") c) _ _
          (write_lines-Quiet (λ mech. mech ++ crlf) (sasl.authenticate_mechanisms c.session)
            (write_string (codes "+OK\r\n") c))
          (write_string-Quiet (codes ".\r\n") (
            write_lines (λ mech. mech ++ crlf) (sasl.authenticate_mechanisms c.session)
              (write_string (codes "+OK\r\n") c)))))
  args-Moves sasl (mech ∷ []) c has =
      if-case (Moves (ByAuth (mech ∷ []) c) c) _ _ _ (client_error-Moves _ _ c)
        (continue-Moves sasl mech c has)
  args-Moves sasl (mech ∷ response ∷ rest) c has =
      if-case (Moves (ByAuth (mech ∷ response ∷ rest) c) c) _ _ _ (client_error-Moves _ _ c) (
        response-Moves _ sasl response c
          (λ i u p decoded s e f. by_auth sasl response i u p has initial decoded e f))

  has-Moves :
      (o : Option (SessionSasl S)) (args : List Bytes) (c : Conn S)
      → iface.sasl ≡ o
      → Moves (ByAuth args c) c (elim o [
        | none ↦ client_error opts (codes "SASL not supported") c
        | some sasl ↦ auth_args iface opts sasl args c
      ])
  has-Moves none args c has = client_error-Moves _ _ c
  has-Moves (some sasl) args c has = args-Moves sasl args c has

  pub auth-Moves :
      (args : List Bytes) (c : Conn S) → Moves (ByAuth args c) c (handle_auth iface opts args c)
  unfolding handle_auth
  auth-Moves args c =
      if-case (Moves (ByAuth args c) c) (not (auth_allowed opts c)) _ _ (client_error-Moves _ _ c)
        (has-Moves iface.sasl args c refl)
