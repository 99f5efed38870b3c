-- ===== src/Client/Sent.antt =====
-- The commands that pop3client writes, as pop3server/conn.go reads them.
use go_pop.Prelude.{
  ℕ, ◌≤◌, ◌<◌, pos, Bool, true, false, Option, none, some, List, [], ◌∷◌, ◌++◌, length,
  length-append, ltb, ◌≡◌, ◌≢◌, refl, ap, sym, ◌∙◌, arith, All, All-append, All-mono, append_assoc,
}
use go_pop.Text.{Bytes, codes, equal, to_upper, fields, is_space}
use go_pop.Text.Fields.{Solid, fields-word, fields-two}
use go_pop.Decimal.{format, format_int}
use go_pop.Base64.{encode_base64}
use go_pop.Base64.Digits.{encode_base64-Solid, encode_base64-long}
use go_pop.Base64.RoundTrip.{IsByte}
use go_pop.Server.Parse.{
  is_crlf, max_val, parse_msg_num, number, contains_ctl, plain_login, decode_sasl_plain,
}
use go_pop.Server.Parse.Numbers.{parse_int-format}
use go_pop.Server.Parse.Sasl.{payload, Lacks, decode_sasl_plain-payload}
use go_pop.Server.Wire.{Reader, Writer, LineResult, got, too_long, read_failed}
use go_pop.Server.Wire.Writing.{contents, IsAlive}
use go_pop.Server.Wire.Stream.{stream}
use go_pop.Server.Session.{Session, SessionSasl}
use go_pop.Server.Conn.{
  Conn, ConnState, transaction, client_error, Options, on_command, authorization, auth_allowed,
}
use go_pop.Server.Login.{
  handle_auth, finish_login, mechanism_advertised, auth_response, auth_decoded, auth_args,
}
use go_pop.Server.Dispatch.{dispatch, dispatch_auth, dispatch_transaction, verb_of}
use go_pop.Server.Serve.{round, settle}
use go_pop.Server.Serve.Commands.{obeyed, round-obeyed}
use go_pop.Client.{
  Client, Result, go_on, ◌>>=◌, line_result, read_line, give, expect_ok, auth_plain,
}
use go_pop.Client.Exchange.{write_cmd-Commanded}
use go_pop.Server.Wire
use mathlib.Core.List.{append_cancel_left}
use go_pop.Client.Items.{format_int-IsWord}

-- White space has CR and LF in it.
pub Solid-clean : (w : Bytes) → Solid w → All (λ c. is_crlf c ≡ false) w
unfolding is_space
Solid-clean w h =
    All-mono (λ c. is_space c ≡ false) (λ c. is_crlf c ≡ false) w (λ c k. ground arith) h

parse_msg_num-format : (n : ℕ) → 0 < n → n ≤ max_val → parse_msg_num (format n ∷ []) ≡ number n
unfolding parse_msg_num
parse_msg_num-format n positive small =
    let zero' : ltb n 1 ≡ false = ground arith in
    rw (parse_int-format n small, parse_msg_num, zero') refl

status_of : Client → LineResult → Reader → Result (Unit {0}) × Client
status_of c x r = go_on (line_result x, record c { reader = r }) (λ status. give (expect_ok status))

status_of-writer :
    (c : Client) (x : LineResult) (r : Reader) → (status_of c x r).1.writer ≡ c.writer
unfolding status_of
status_of-writer c (got line) r = refl
status_of-writer c too_long r = refl
status_of-writer c (read_failed e) r = refl

abbrev auth_text : Bytes → Bytes → Bytes → Bytes
auth_text i u p = encode_base64 (payload i u p)

-- What AUTH PLAIN of the client puts on the wire.
auth_plain-sent :
    (i u p sent : Bytes) (c : Client)
    → IsAlive c.writer
    → (auth_plain i u p c).1.writer.sent ≡ contents c.writer ++ sent
    → sent ≡ (codes "AUTH PLAIN " ++ auth_text i u p) ++ codes "\r\n"
unfolding auth_plain read_line status_of
auth_plain-sent i u p sent c alive out =
    let (w, e, (_, on_wire, _)) =
      write_cmd-Commanded (codes "AUTH PLAIN " ++ auth_text i u p) c alive in
    let (x, r) = Wire.read_line c.max_line c.reader in
    let kept : (auth_plain i u p c).1.writer ≡ w =
      ap
        (λ (y : Result (Unit {0}) × Client).
          (go_on y (λ _. do status ← read_line; give (expect_ok status))).1.writer)
        e
      ∙ status_of-writer (record c { writer = w }) x r in
    append_cancel_left (contents c.writer) sent
      ((codes "AUTH PLAIN " ++ auth_text i u p) ++ codes "\r\n")
      (sym out ∙ ap (λ (v : Writer). v.sent) kept ∙ on_wire)

literals :
    Solid (codes "AUTH")
    × All (λ b. is_crlf b ≡ false) (codes "AUTH PLAIN ")
    × Solid (codes "PLAIN")
unfolding is_space
literals = (ground arith, ground arith, ground arith)

module _ {S : Type 0} (iface : Session S) (opts : Options S) where
  -- A command with a message number, from 1 to 2^31 - 1, as the client formats it, and any bytes
  -- behind it: the server's next round is that of this verb, with an argument that it reads as this
  -- number, and it leaves the bytes behind the line.
  pub round-numbered :
      (first : ℕ) (verb rest : Bytes) (n : ℕ) (c : Conn S)
      → let name = first ∷ verb in
        let line = (name ++ codes " ") ++ format_int (pos n) in
        Solid name
        → 0 < n
        → n ≤ max_val
        → length line ≤ opts.max_line_length
        → stream c.reader ≡ (line ++ codes "\r\n") ++ rest
        → (r : Reader) × (round iface opts c
            ≡ obeyed iface opts name (format n) (record c { reader = r }))
          × (fields (format n) ≡ format n ∷ [])
          × (parse_msg_num (format n ∷ []) ≡ number n)
          × (stream r ≡ rest)
  unfolding format_int
  round-numbered first verb rest n c solid positive small short e =
      let name = first ∷ verb in
      let (word, ne) = format_int-IsWord (pos n) in
      let same : (name ++ codes " ") ++ format n ≡ name ++ b' ' ∷ format n =
        append_assoc name (codes " ") (format n) in
      let clean =
        All-append (λ b. is_crlf b ≡ false) name (b' ' ∷ format n) (Solid-clean name solid)
          (refl, Solid-clean (format n) word) in
      let (r, does, behind) =
        round-obeyed iface opts first verb [] (format n) rest c solid word ne clean
          (omega (arith, ap length same))
          (e
            ∙ append_assoc ((name ++ codes " ") ++ format n) (codes "\r\n") rest
            ∙ ap (λ l. l ++ b'\r' ∷ b'\n' ∷ rest) same) in
      (r, does, fields-word (format n) word ne, parse_msg_num-format n positive small, behind)

  -- AUTH with a mechanism that is offered and a response.
  handle_auth-plain :
      (sasl : SessionSasl S) (encoded i u p : Bytes) (c : Conn S)
      → auth_allowed opts c ≡ true
      → iface.sasl ≡ some sasl
      → mechanism_advertised (sasl.authenticate_mechanisms c.session) (codes "PLAIN") ≡ true
      → equal encoded (codes "*") ≡ false
      → decode_sasl_plain encoded ≡ plain_login i u p
      → handle_auth iface opts (codes "PLAIN" ∷ encoded ∷ []) c
        ≡ finish_login iface opts (sasl.authenticate_plain i u p c.session) c
  unfolding handle_auth auth_args auth_response auth_decoded to_upper equal
  handle_auth-plain sasl encoded i u p c allowed has offered going decoded =
      let args = codes "PLAIN" ∷ encoded ∷ [] in
      let with_sasl : Option (SessionSasl S) → Conn S = λ o. elim o [
        | none ↦ client_error opts (codes "SASL not supported") c
        | some sasl ↦ auth_args iface opts sasl args c
      ] in
      rw allowed (
        ap with_sasl has ∙ rw (offered, going) (ap (λ d. auth_decoded iface opts sasl d c) decoded))

  dispatch-auth :
      (args : List Bytes) (c : Conn S)
      → c.state ≡ authorization
      → dispatch iface opts (codes "AUTH") args c ≡ (handle_auth iface opts args c, false)
  unfolding dispatch dispatch_auth verb_of equal
  dispatch-auth args c e =
      let by_state : ConnState → Conn S × Bool = λ t. elim t [
        | authorization ↦ dispatch_auth iface opts (verb_of (codes "AUTH")) (codes "AUTH") args c
        | transaction ↦
            dispatch_transaction iface opts (verb_of (codes "AUTH")) (codes "AUTH") args c
      ] in
      ap by_state e

  payload-≢ : (i u p : Bytes) → payload i u p ≢ []
  payload-≢ [] u p = λ e. cc
  payload-≢ (c ∷ i) u p = λ e. cc

  -- AUTH PLAIN of the client, and the server's next round on what the client has written, with any
  -- bytes behind it: where the server lets the client authenticate and offers the mechanism, the
  -- session's method is called with exactly the identity, the username and the password of the client,
  -- if no part has a NUL in it and neither identity has a control character; and the round ends as it
  -- does after this call.
  pub round-auth_plain :
      (sasl : SessionSasl S) (i u p sent rest : Bytes) (c : Client) (sc : Conn S)
      → All IsByte (payload i u p)
      → Lacks 0 p
      → contains_ctl i ≡ false
      → contains_ctl u ≡ false
      → IsAlive c.writer
      → (auth_plain i u p c).1.writer.sent ≡ contents c.writer ++ sent
      → sc.state ≡ authorization
      → auth_allowed opts sc ≡ true
      → iface.sasl ≡ some sasl
      → mechanism_advertised (sasl.authenticate_mechanisms sc.session) (codes "PLAIN") ≡ true
      → stream sc.reader ≡ sent ++ rest
      → length sent ≤ opts.max_line_length
      → (r : Reader) × (raw : Bytes) × (let c' = record sc {
        reader = r;
        raw_arg = raw;
        last_err = none;
      } in
          let d = finish_login iface opts (sasl.authenticate_plain i u p sc.session) c' in
          round iface opts sc
          ≡ settle iface opts
              (record d { hooks = d.hooks ++ on_command (codes "AUTH") d.last_err ∷ [] }, false))
        × (stream r ≡ rest)
  unfolding to_upper auth_allowed
  round-auth_plain sasl i u p sent rest c sc bytes hp hi hu alive out state allowed has offered e
        short =
      let encoded = auth_text i u p in
      let raw = codes "PLAIN " ++ encoded in
      let line = codes "AUTH PLAIN " ++ encoded in
      let same = auth_plain-sent i u p sent c alive out in
      let solid = encode_base64-Solid (payload i u p) bytes in
      let (ne, going) = encode_base64-long (payload i u p) (payload-≢ i u p) in
      let clean : All (λ b. is_crlf b ≡ false) line =
        All-append (λ b. is_crlf b ≡ false) (codes "AUTH PLAIN ") encoded literals.1
          (Solid-clean encoded solid) in
      let (r, does, behind) =
        round-obeyed iface opts b'A' (codes "UTH") (codes "PLAIN ") encoded rest sc literals.0 solid
          ne clean (omega (arith, short, ap length same, length-append line (codes "\r\n")))
          (e ∙ ap (λ l. l ++ rest) same ∙ append_assoc line (codes "\r\n") rest) in
      let c' = record sc { reader = r; raw_arg = raw; last_err = none } in
      let words : fields raw ≡ codes "PLAIN" ∷ encoded ∷ [] =
        fields-two (codes "PLAIN") encoded literals.2 (λ n. cc) solid ne in
      let called =
        ap (λ args. dispatch iface opts (codes "AUTH") args c') words
        ∙ dispatch-auth (codes "PLAIN" ∷ encoded ∷ []) c' state
        ∙ ap (λ (d : Conn S). (d, false))
            (handle_auth-plain sasl encoded i u p c' allowed has offered going
              (decode_sasl_plain-payload i u p bytes hp hi hu)) in
      (
        r,
        raw,
        does
            ∙ ap
                (λ (x : Conn S × Bool). settle iface opts (
                  record (x.0) { hooks = x.0.hooks ++ on_command (codes "AUTH") x.0.last_err ∷ [] },
                  x.1,
                ))
                called,
        behind,
      )
