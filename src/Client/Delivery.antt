-- ===== src/Client/Delivery.antt =====
-- RETR from pop3server/conn.go to pop3client/commands.go.
use go_pop.Prelude.{
  ℕ, suc, pos, ◌≤◌, ◌<◌, true, false, Bool-cases, inl, inr, List, [], ◌∷◌, ◌++◌, length, ◌≡◌, refl,
  ap, sym, ◌∙◌, arith, All, append_assoc,
}
use mathlib.Core.Path.{subst}
use mathlib.Core.List.{flatten, append_cancel_left, append_cancel_right}
use go_pop.DotStuff.Receive.{receive}
use go_pop.Text.{Bytes, codes, equal, has_prefix, cut_prefix}
use go_pop.Decimal.{format_int}
use go_pop.DotStuff.Spec.{stuff, canonical, terminator}
use go_pop.DotStuff.Receive.RoundTrip.{receive-stuff}
use go_pop.Server.Wire.{Writer, Reader, break_lf}
use go_pop.Server.Wire.Writing.{contents, IsAlive}
use go_pop.Server.Wire.Stream.{stream}
use go_pop.Server.Parse.{is_crlf, sanitize_response, number, parse_msg_num}
use go_pop.Server.Parse.Commands.{sanitize_response_lem}
use go_pop.Server.Errors.{ok}
use go_pop.Server.Session.{Session, Body}
use go_pop.Server.Conn.{Conn, Options, response_line}
use go_pop.Server.Maildrop.{handle_retr, retr_status}
use go_pop.Server.Maildrop.Retrieval.{handle_retr-IsDelivered, IsSent}
use go_pop.Client.{Client, Result, done, ◌>>◌, give, is_ok, expect_ok}
use go_pop.Client.Response.{Response}
use go_pop.Client.Receiver.{fits, text_of, receive-Parses}
use go_pop.Client.Exchange.{after_cmd, Commanded, cmd_lem, fits-text}
use go_pop.Client.Body.{BodyReader, new_body_reader, retrieve, retr}
use go_pop.Client.Body.Reads.{Holds}
use go_pop.Client.Body.Whole.{read_all, IsWhole, read_all-IsWhole}

-- The status line of a server's success.
pub ok_line :
    (msg : Bytes)
    → (text : Bytes) × (response_line (codes "+OK") msg ≡ text ++ codes "\r\n")
      × All (λ c. is_crlf c ≡ false) text
      × (is_ok text ≡ true)
unfolding response_line is_ok has_prefix cut_prefix
ok_line msg = elim (Bool-cases (equal msg [])) [
  | inl e ↦ rw e (codes "+OK", refl, (refl, (refl, (refl, tt))), refl)
  | inr n ↦ rw n (
    codes "+OK " ++ sanitize_response msg,
    refl,
    (refl, (refl, (refl, (refl, (sanitize_response_lem msg).0)))),
    refl,
  )
]

pub retrieve_lem :
    (command status s : Bytes) (c : Client)
    → IsAlive c.writer
    → All (λ b. is_crlf b ≡ false) status
    → length status ≤ c.max_line
    → is_ok status ≡ true
    → stream c.reader ≡ status ++ b'\r' ∷ b'\n' ∷ s
    → (w : Writer) × (r : Reader) × (retrieve command c
        ≡ (done new_body_reader, record c { reader = r; writer = w }))
      × Commanded c command w
      × (stream r ≡ s)
unfolding retrieve
retrieve_lem command status s c alive clean small positive e =
    let (w, r, given, on_wire, behind) = cmd_lem command status s c alive clean small e in
    (
      w,
      r,
      after_cmd command status c (record c { reader = r; writer = w })
            (λ status. do give (expect_ok status); give (done new_body_reader)) given
          ∙ rw positive refl,
      on_wire,
      behind,
    )

-- The bytes that the server sends for a body.
abbrev sent_body : Bytes → Bytes → Bytes
sent_body status p =
    response_line (codes "+OK") status ++ (stuff true (canonical true 0 p) ++ terminator)

-- Behind the status line, the client has the message to hand out.
message_reply :
    (max_line : ℕ) (p rest : Bytes)
    → fits max_line 0 (stuff true (canonical true 0 p) ++ terminator) ≡ true
    → (ls : List Bytes) × (text_of ls ≡ canonical true 0 p)
      × Response max_line ((stuff true (canonical true 0 p) ++ terminator) ++ rest) ls rest
message_reply max_line p rest small =
    let wire = stuff true (canonical true 0 p) ++ terminator in
    let received =
      ap (receive []) (append_assoc (stuff true (canonical true 0 p)) terminator rest)
      ∙ receive-stuff p rest in
    let (used, ls, split, text, response) =
      receive-Parses max_line (wire ++ rest) [] (canonical true 0 p) rest received
        (unfold break_lf in refl) in
    let same = append_cancel_right wire used rest split in
    (ls, text, response (ap (fits max_line 0) (sym same) ∙ small))

open_body :
    (command status p rest : Bytes) (c : Client)
    → IsAlive c.writer
    → stream c.reader ≡ sent_body status p ++ rest
    → fits c.max_line 0 (sent_body status p) ≡ true
    → (w : Writer) × (r : Reader) × (retrieve command c
        ≡ (done new_body_reader, record c { reader = r; writer = w }))
      × Commanded c command w
      × Holds (canonical true 0 p) rest (new_body_reader, record c { reader = r; writer = w })
open_body command status p rest c alive e small =
    let wire = stuff true (canonical true 0 p) ++ terminator in
    let (line, whole, clean, positive) = ok_line status in
    let split : sent_body status p ≡ line ++ b'\r' ∷ b'\n' ∷ wire =
      ap (λ l. l ++ wire) whole ∙ append_assoc line (codes "\r\n") wire in
    let (short, small') =
      fits-text c.max_line 0 line wire clean (ap (fits c.max_line 0) (sym split) ∙ small) in
    let (w, r, opened, on_wire, behind) =
      retrieve_lem command line (wire ++ rest) c alive clean (omega arith) positive
        (e ∙ ap (λ u. u ++ rest) split ∙ append_assoc line (b'\r' ∷ b'\n' ∷ wire) rest) in
    let (ls, text, response) = message_reply c.max_line p rest small' in
    (
      w,
      r,
      opened,
      on_wire,
      (ls, sym text, subst (λ u. Response c.max_line u ls rest) (sym behind) response),
    )

-- What the server adds to its output for a message.
server_sent :
    {S : Type 0} (iface : Session S) (opts : Options S) (args : List Bytes) (msg : ℕ) (s : S)
    (body : Body) (sc : Conn S) (sent : Bytes)
    → parse_msg_num args ≡ number msg
    → iface.retr msg sc.session ≡ (s, ok body)
    → body.read_fails ≡ false
    → IsAlive sc.writer
    → contents (handle_retr iface opts args sc).writer ≡ contents sc.writer ++ sent
    → sent ≡ sent_body (retr_status iface opts body) (flatten body.chunks)
server_sent iface opts args msg s body sc sent parsed given whole alive out =
    let delivered = handle_retr-IsDelivered iface opts args msg s body sc parsed given alive in
    let (_, _, wire) : IsSent iface opts (retr_status iface opts body) body
        (record sc { session = s }) (handle_retr iface opts args sc) =
      rw whole at delivered in
    append_cancel_left (contents sc.writer) sent
      (sent_body (retr_status iface opts body) (flatten body.chunks)) (sym out ∙ wire)

-- RETR of the server, on a network that takes every write, and RETR of the client on what the
-- server has sent (with any bytes behind it, and however the network cuts it), where no line of it is
-- above the client's bound: the client opens the body, its command is on the wire, and reading the
-- body to its end, by reads of any size, gives exactly the message in canonical form. The bytes
-- behind the response are left.
pub retr-handle_retr :
    {S : Type 0} (iface : Session S) (opts : Options S) (args : List Bytes) (msg : ℕ) (s : S)
    (body : Body) (sc : Conn S) (c : Client) (sent rest : Bytes) (rooms : ℕ → ℕ)
    → parse_msg_num args ≡ number msg
    → iface.retr msg sc.session ≡ (s, ok body)
    → body.read_fails ≡ false
    → IsAlive sc.writer
    → contents (handle_retr iface opts args sc).writer ≡ contents sc.writer ++ sent
    → IsAlive c.writer
    → stream c.reader ≡ sent ++ rest
    → fits c.max_line 0 sent ≡ true
    → ((n : ℕ) → 0 < rooms n)
    → let text = canonical true 0 (flatten body.chunks) in
      let (opened, c') = retr (pos msg) c in
      (opened ≡ done new_body_reader)
      × (c'.writer.sent
          ≡ contents c.writer ++ ((codes "RETR " ++ format_int (pos msg)) ++ codes "\r\n"))
      × IsWhole text rest (read_all (suc (length text)) rooms new_body_reader c')
retr-handle_retr iface opts args msg s body sc c sent rest rooms parsed given whole alive out alive'
      e small pos' =
    let status = retr_status iface opts body in
    let p = flatten body.chunks in
    let text = canonical true 0 p in
    let same = server_sent iface opts args msg s body sc sent parsed given whole alive out in
    let (w, r, opened, on_wire, holds) =
      open_body (codes "RETR " ++ format_int (pos msg)) status p rest c alive'
        (e ∙ ap (λ u. u ++ rest) same) (ap (fits c.max_line 0) (sym same) ∙ small) in
    let c' = record c { reader = r; writer = w } in
    let opened' : retr (pos msg) c ≡ (done new_body_reader, c') = unfold retr in opened in
    let all =
      read_all-IsWhole (suc (length text)) rooms new_body_reader c' text rest pos' (omega arith)
        holds in
    subst
      (λ (x : Result BodyReader × Client).
        (x.0 ≡ done new_body_reader)
        × (x.1.writer.sent
            ≡ contents c.writer ++ ((codes "RETR " ++ format_int (pos msg)) ++ codes "\r\n"))
        × IsWhole text rest (read_all (suc (length text)) rooms new_body_reader x.1))
      (sym opened') (refl, on_wire.1, all)
