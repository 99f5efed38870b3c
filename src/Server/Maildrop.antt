-- ===== src/Server/Maildrop.antt =====
-- The handlers of pop3server/conn.go for the commands on the maildrop: STAT to QUIT.
pub mod Retrieval
pub mod Listing
pub mod Frame
use go_pop.Prelude.{
  ℕ, zero, suc, ◌+◌, ℤ, pos, Bool, true, false, not, Option, none, some, List, [], ◌∷◌, ◌++◌,
  length, ltb, ◌==◌, if◌then◌else◌,
}
use go_pop.Text.{Bytes, codes}
use go_pop.Decimal.{format, format_int}
use go_pop.Protocol.{MessageInfo, MessageUidl}
use go_pop.DotStuff.{copy, close, new_dot_stuff_writer, DotStuffWriter}
use go_pop.Server.Errors.{Error, SessionError, wire, plain, Outcome, ok, fail}
use go_pop.Server.Parse.{
  sanitize_response, parse_int, MsgNum, number, bad, parse_msg_num, parse_optional_msg_num,
}
use go_pop.Server.Wire.{Writer, put}
use go_pop.Server.Session.{Session, Body}
use go_pop.Server.Conn.{
  Conn, Options, is_positive, write_string, flush_conn, send_ok, client_error, session_error,
}

abbrev pub crlf : Bytes
crlf = codes "\r\n"

-- `"%d %d\r\n"` and `"%d %s\r\n"`.
unfoldable pub info_line : MessageInfo → Bytes
unfolding format_int
info_line i = format_int i.num ++ (codes " " ++ (format_int i.size ++ crlf))

unfoldable pub uidl_line : MessageUidl → Bytes
unfolding format_int sanitize_response
uidl_line u = format_int u.num ++ (codes " " ++ (sanitize_response u.unique_id ++ crlf))

-- An item line for each item.
abbrev pub write_lines : {S A : Type 0} → (A → Bytes) → List A → Conn S → Conn S
write_lines item [] c = c
write_lines item (a ∷ as') c = write_lines item as' (write_string (item a) c)

abbrev pub no_such_message : SessionError
no_such_message = wire (record { code = []; message = codes "No such message"; close = false })

module _ {S : Type 0} (iface : Session S) (opts : Options S) where
  -- A session's error, or what the handler does with its value.
  abbrev pub with_result : {A : Type 0} → Conn S → S × Outcome A → (A → Conn S → Conn S) → Conn S
  with_result c (s, fail e) k = session_error opts e (record c { session = s })
  with_result c (s, ok a) k = k a (record c { session = s })

  unfoldable pub handle_stat : Conn S → Conn S
  unfolding write_string format_int
  handle_stat c = with_result c (iface.stat c.session) λ r c'.
      write_string (codes "+OK " ++ (format_int r.0 ++ (codes " " ++ (format_int r.1 ++ crlf)))) c'

  -- The reply to LIST or UIDL: one line for a single message, if there is exactly one item, else
  -- the multi-line form.
  unfoldable pub reply_items : {A : Type 0} → (A → Bytes) → ℕ → List A → Conn S → Conn S
  reply_items item zero items c =
      let head =
        write_string (codes "+OK " ++ (format (length items) ++ codes " messages\r\n")) c in
      write_string (codes ".\r\n") (write_lines item items head)
  reply_items item (suc msg) (a ∷ []) c = write_string (codes "+OK " ++ item a) c
  reply_items item (suc msg) items c = session_error opts no_such_message c

  unfoldable pub handle_list : List Bytes → Conn S → Conn S
  unfolding reply_items
  handle_list args c = elim (parse_optional_msg_num args) [
    | bad e ↦ client_error opts e c
    | number msg ↦ with_result c (iface.list msg c.session) (reply_items info_line msg)
  ]

  unfoldable pub handle_uidl : List Bytes → Conn S → Conn S
  unfolding reply_items
  handle_uidl args c = elim (parse_optional_msg_num args) [
    | bad e ↦ client_error opts e c
    | number msg ↦ with_result c (iface.uidl msg c.session) (reply_items uidl_line msg)
  ]

  -- The status line, and the body through the byte-stuffing writer. A write error, or a read error
  -- of the body, leaves the response unended: the connection is to be closed.
  unfoldable pub send_body : Bytes → Body → Conn S → Conn S
  unfolding copy close
  send_body status body c =
      let c' = (flush_conn (send_ok status c)).0 in
      let (d, fine) = copy put body.chunks (new_dot_stuff_writer c'.writer) in
      let dropped = record c' {
        writer = d.w;
        last_err = some (plain (codes "copy error"));
        close_pending = true;
      } in
      let ended = record c' { writer = (close put d).0 } in
      if fine then (if body.read_fails then dropped else ended) else dropped

  abbrev pub retr_status : Body → Bytes
  retr_status body = elim body.octets [
    | none ↦ codes "Message follows"
    | some n ↦ format_int n ++ codes " octets"
  ]

  unfoldable pub handle_retr : List Bytes → Conn S → Conn S
  unfolding send_body
  handle_retr args c = elim (parse_msg_num args) [
    | bad e ↦ client_error opts e c
    | number msg ↦
        with_result c (iface.retr msg c.session) (λ body. send_body (retr_status body) body)
  ]

  unfoldable pub handle_top : List Bytes → Conn S → Conn S
  unfolding send_body
  handle_top [] c = client_error opts (codes "Syntax: TOP <msg> <lines>") c
  handle_top (a ∷ []) c = client_error opts (codes "Syntax: TOP <msg> <lines>") c
  handle_top (a ∷ l ∷ args) c = elim (parse_msg_num (a ∷ [])) [
    | bad e ↦ client_error opts e c
    | number msg ↦ elim (parse_int l) [
      | none ↦ client_error opts (codes "Invalid number of lines") c
      | some lines ↦
          with_result c (iface.top msg lines c.session) (send_body (codes "Top of message follows"))
    ]
  ]

  unfoldable pub handle_dele : List Bytes → Conn S → Conn S
  handle_dele args c = elim (parse_msg_num args) [
    | bad e ↦ client_error opts e c
    | number msg ↦ with_result c (iface.dele msg c.session) (λ _. send_ok (codes "Message deleted"))
  ]

  unfoldable pub handle_rset : Conn S → Conn S
  handle_rset c =
      with_result c (iface.rset c.session) (λ _. send_ok (codes "Maildrop has been reset"))

  unfoldable pub handle_noop : Conn S → Conn S
  handle_noop c = with_result c (iface.noop c.session) (λ _. send_ok [])

  unfoldable pub handle_quit : Conn S → Conn S
  handle_quit c = with_result c (iface.quit c.session) λ expunged c'.
      if is_positive expunged
      then write_string (codes "+OK " ++ (format_int expunged ++ codes " messages expunged\r\n")) c'
      else send_ok (codes "Goodbye") c'
