-- ===== src/Server/Extensions.antt =====
-- The handlers of pop3server/conn.go for the extensions: CAPA, LANG and UTF8.
pub mod Frame
pub mod Capabilities
pub mod CapLines
use go_pop.Prelude.{
  ℕ, zero, suc, ◌+◌, ℤ, pos, Bool, true, false, not, ◌&&◌, ◌||◌, Option, none, some, is_none, List,
  [], ◌∷◌, ◌++◌, length, ltb, ◌==◌, if◌then◌else◌,
}
use go_pop.Text.{Bytes, codes, equal, equal_fold, to_upper, trim_space, join}
use go_pop.Protocol.{Capability}
use go_pop.Server.Errors.{SessionError, plain, Outcome, ok, fail}
use go_pop.Server.Parse.{
  sanitize_response, contains_ctl, Credentials, plain_login, malformed, decode_sasl_plain,
}
use go_pop.Server.Wire.{
  Reader, Writer, Segment, LineResult, got, too_long, read_failed, read_line, new_reader,
  new_writer,
}
use go_pop.Server.Session.{Session, SessionSasl, SessionLang, LanguageInfo, Attempt}
use go_pop.Server.Conn.{
  Conn, ConnState, authorization, transaction, Options, write_string, flush_conn, send_ok, send_err,
  hijack, auth_allowed, apply_error_delay, client_error, session_error,
}
use go_pop.Server.Maildrop.{write_lines, with_result, crlf}

-- The loop of `capSuppressed`.
unfoldable pub suppressed_in : List Bytes → Bytes → Bool
unfolding equal_fold
suppressed_in [] name = false
suppressed_in (s ∷ ss) name = equal_fold s name || suppressed_in ss name

unfoldable pub lang_line : LanguageInfo → Bytes
unfolding sanitize_response
lang_line l = sanitize_response l.tag ++ (codes " " ++ (sanitize_response l.description ++ crlf))

module _ {S : Type 0} (iface : Session S) (opts : Options S) where
  unfoldable pub cap_suppressed : Bytes → Bool
  unfolding suppressed_in
  cap_suppressed = suppressed_in opts.suppressed_caps

  -- The line of a capability, or nothing.
  unfoldable pub cap_line : Bytes → List Bytes → Bytes
  unfolding cap_suppressed
  cap_line name params =
      if cap_suppressed name
      then []
      else if length params == 0
      then name ++ crlf
      else name ++ (codes " " ++ (join params ++ crlf))

  unfoldable pub write_cap : Bytes → List Bytes → Conn S → Conn S
  unfolding cap_line
  write_cap name params c = if cap_suppressed name then c else write_string (cap_line name params) c

  unfoldable pub write_caps : List Capability → Conn S → Conn S
  unfolding write_cap
  write_caps [] c = c
  write_caps (k ∷ ks) c = write_caps ks (write_cap k.name k.params c)

  abbrev pub write_cap_if : Bool → Bytes → List Bytes → Conn S → Conn S
  write_cap_if b name params c = if b then write_cap name params c else c

  -- The parameters of SASL, where the session advertises any.
  abbrev pub mechanisms : Conn S → List Bytes
  mechanisms c = elim iface.sasl [ none ↦ [] | some sasl ↦ sasl.authenticate_mechanisms c.session ]

  unfoldable pub handle_capa : Conn S → Conn S
  unfolding write_caps write_cap write_string
  handle_capa c =
      let allowed = auth_allowed opts c in
      let mechs = mechanisms c in
      let c1 = write_string (codes "+OK Capability list follows\r\n") c in
      let c2 = write_cap (codes "UIDL") [] (write_cap (codes "TOP") [] c1) in
      let c3 = write_cap_if allowed (codes "USER") [] c2 in
      let c4 = write_cap (codes "PIPELINING") [] (write_cap (codes "RESP-CODES") [] c3) in
      let c5 = write_cap_if (not (is_none opts.tls_config) && not c.is_tls) (codes "STLS") [] c4 in
      let c6 = write_cap_if (allowed && ltb 0 (length mechs)) (codes "SASL") mechs c5 in
      let c7 = write_cap_if (not (is_none iface.lang)) (codes "LANG") [] c6 in
      let c8 = write_cap_if (not (is_none iface.utf8)) (codes "UTF8") [] c7 in
      write_string (codes ".\r\n") (write_caps opts.caps c8)

  unfoldable pub lang_args : SessionLang S → List Bytes → Conn S → Conn S
  unfolding lang_line
  lang_args lang [] c = with_result iface opts c (lang.list_languages c.session) λ langs c'.
      write_string (codes ".\r\n")
        (write_lines lang_line langs (write_string (codes "+OK Language list follows\r\n") c'))
  lang_args lang (tag ∷ _) c =
      with_result iface opts c (lang.set_language tag c.session) λ tag' c'.
        write_string (codes "+OK Language set to " ++ (sanitize_response tag' ++ crlf)) c'

  unfoldable pub handle_lang : List Bytes → Conn S → Conn S
  unfolding lang_args
  handle_lang args c = elim iface.lang [
    | none ↦ client_error opts (codes "LANG not supported") c
    | some lang ↦ lang_args lang args c
  ]

  unfoldable pub handle_utf8 : Conn S → Conn S
  handle_utf8 c = elim iface.utf8 [
    | none ↦ client_error opts (codes "UTF8 not supported") c
    | some enable ↦
        with_result iface opts c (enable c.session) (λ _. send_ok (codes "UTF8 mode enabled"))
  ]
