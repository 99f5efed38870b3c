-- ===== src/Client/Served.antt =====
-- RETR of pop3client/commands.go served by a round of pop3server/conn.go.
use go_pop.Prelude.{
  ℕ, suc, pos, ◌≤◌, ◌<◌, Bool, true, false, Bool-cases, inl, inr, none, [], ◌∷◌, ◌++◌, length,
  length-append, ◌≡◌, refl, ap, sym, ◌∙◌, arith,
}
use mathlib.Core.Path.{subst}
use mathlib.Core.List.{flatten, append_cancel_left}
use go_pop.Text.{Bytes, codes, to_upper, is_space}
use go_pop.Text.Fields.{Solid}
use go_pop.Decimal.{format, format_int}
use go_pop.DotStuff.Spec.{canonical}
use go_pop.Server.Parse.{max_val, number, parse_msg_num}
use go_pop.Server.Errors.{ok}
use go_pop.Server.Wire
use go_pop.Server.Wire.{Reader, Writer, LineResult, got, too_long, read_failed, flush}
use go_pop.Server.Wire.Writing.{contents, IsAlive, flush-IsAlive}
use go_pop.Server.Wire.Stream.{stream}
use go_pop.Server.Session.{Session, Body}
use go_pop.Server.Conn.{Conn, transaction, Options, on_command}
use go_pop.Server.Maildrop.{handle_retr}
use go_pop.Server.Dispatch.{dispatch}
use go_pop.Server.Serve.{round, settle}
use go_pop.Server.Serve.Commands.{obeyed}
use go_pop.Server.Serve.Limits.{IsOpen}
use go_pop.Server.Serve.Replies.{settle-IsOpen, dispatch-retr, handle_retr-IsOpen}
use go_pop.Client.{
  Client, Result, done, go_on, ◌>>=◌, ◌>>◌, line_result, read_line, give, is_ok, expect_ok,
}
use go_pop.Client.Body.{BodyReader, new_body_reader, retrieve, retr}
use go_pop.Client.Body.Whole.{read_all, IsWhole}
use go_pop.Client.Delivery.{retr-handle_retr}
use go_pop.Client.Exchange.{write_cmd-Commanded}
use go_pop.Client.Receiver.{fits}
use go_pop.Client.Sent.{round-numbered}

abbrev opening : Client → LineResult → Reader → Result BodyReader × Client
opening c x r =
    go_on (line_result x, record c { reader = r })
      (λ status. do give (expect_ok status); give (done new_body_reader))

opening-writer : (c : Client) (x : LineResult) (r : Reader) → (opening c x r).1.writer ≡ c.writer
opening-writer c (got line) r = elim (Bool-cases (is_ok line)) [
  | inl e ↦ rw e refl
  | inr e ↦ rw e refl
]
opening-writer c too_long r = refl
opening-writer c (read_failed e) r = refl

-- What RETR of the client puts on the wire, whatever the server answers.
retr-sent :
    (n : ℕ) (asked : Bytes) (c : Client)
    → IsAlive c.writer
    → (retr (pos n) c).1.writer.sent ≡ contents c.writer ++ asked
    → asked ≡ (codes "RETR " ++ format_int (pos n)) ++ codes "\r\n"
unfolding retr retrieve read_line
retr-sent n asked c alive out =
    let line = codes "RETR " ++ format_int (pos n) in
    let (w, e, (_, on_wire, _)) = write_cmd-Commanded line c alive in
    let (x, r) = Wire.read_line c.max_line c.reader in
    let kept : (retr (pos n) c).1.writer ≡ w =
      ap
        (λ (y : Result (Unit {0}) × Client).
          (go_on y (λ _. do
            status ← read_line
            give (expect_ok status)
            give (done new_body_reader))).1.writer)
        e
      ∙ opening-writer (record c { writer = w }) x r in
    append_cancel_left (contents c.writer) asked (line ++ codes "\r\n")
      (sym out ∙ ap (λ (v : Writer). v.sent) kept ∙ on_wire)

retr_word : Solid (codes "RETR")
unfolding is_space
retr_word = ground arith

module _ {S : Type 0} (iface : Session S) (opts : Options S) where
  -- The loop goes on, with the session that the command left, and behind the command's line.
  abbrev pub IsServed : S → Bytes → Conn S × Bool → Type 0
  IsServed s rest x =
      (x.1 ≡ true) × IsOpen iface opts x.0 × (x.0.session ≡ s) × (stream x.0.reader ≡ rest)

  -- The round of a server that reads RETR: the handler, a flush, and the loop goes on.
  round_lem :
      (msg : ℕ) (s : S) (body : Body) (rest : Bytes) (c : Conn S)
      → let line = codes "RETR " ++ format_int (pos msg) in
        0 < msg
        → msg ≤ max_val
        → IsOpen iface opts c
        → c.state ≡ transaction
        → iface.retr msg c.session ≡ (s, ok body)
        → body.read_fails ≡ false
        → IsAlive c.writer
        → length line ≤ opts.max_line_length
        → stream c.reader ≡ (line ++ codes "\r\n") ++ rest
        → (c' : Conn S) × (c'.session ≡ c.session)
          × (c'.writer ≡ c.writer)
          × (parse_msg_num (format msg ∷ []) ≡ number msg)
          × ((round iface opts c).0.writer.sent
              ≡ contents (handle_retr iface opts (format msg ∷ []) c').writer)
          × IsServed s rest (round iface opts c)
  unfolding to_upper
  round_lem msg s body rest c positive small o state given whole alive short e =
      let (r, does, words, parsed, behind) =
        round-numbered iface opts b'R' (codes "ETR") rest msg c retr_word positive small short e in
      let c2 = record c { reader = r; raw_arg = format msg; last_err = none } in
      let d = handle_retr iface opts (format msg ∷ []) c2 in
      let d' = record d { hooks = d.hooks ++ on_command (codes "RETR") d.last_err ∷ [] } in
      let open2 : IsOpen iface opts c2 = record {
        owned = o.owned;
        staying = o.staying;
        below = o.below;
      } in
      let (open', alive', from, input, _) =
        handle_retr-IsOpen iface opts (format msg ∷ []) msg s body c2 parsed given whole alive
          open2 in
      let open'' : IsOpen iface opts d' = record {
        owned = open'.owned;
        staying = open'.staying;
        below = open'.below;
      } in
      let called : obeyed iface opts (codes "RETR") (format msg) (record c { reader = r })
          ≡ settle iface opts (d', false) =
        ap
          (λ (x : Conn S × Bool). settle iface opts (
            record (x.0) { hooks = x.0.hooks ++ on_command (codes "RETR") x.0.last_err ∷ [] },
            x.1,
          ))
          (ap (λ args. dispatch iface opts (codes "RETR") args c2) words
            ∙ dispatch-retr iface opts (format msg ∷ []) c2 state) in
      let ends = does ∙ called ∙ settle-IsOpen iface opts d' open'' alive' in
      let flushed = (flush-IsAlive d.writer alive').2 in
      (
        c2,
        refl,
        refl,
        parsed,
        ap (λ (x : Conn S × Bool). x.0.writer.sent) ends ∙ flushed,
        (
          ap (λ (x : Conn S × Bool). x.1) ends,
          subst (λ (x : Conn S × Bool). IsOpen iface opts x.0) (sym ends)
              (record { owned = open''.owned; staying = open''.staying; below = open''.below }),
          ap (λ (x : Conn S × Bool). x.0.session) ends ∙ from,
          ap (λ (x : Conn S × Bool). stream x.0.reader) ends ∙ ap stream input ∙ behind,
        ),
      )

  -- RETR from the client to the server and back. The client writes its command; the server, on an
  -- open connection in TRANSACTION and a network that takes every write, runs one round on exactly
  -- these bytes (with any bytes behind them), and the client reads exactly what this round has put on
  -- the network (with any bytes behind it), each cut into segments in any way. For a message number from
  -- 1 to 2^31 - 1 whose body the session delivers whole, and lines within the bounds of both sides: the
  -- client opens the body and reads, by reads of any size, exactly the message in canonical form,
  -- and the bytes behind the response are left; the server's loop goes on, open, with the session that RETR
  -- left, and behind the command's line.
  pub retr-round :
      (msg : ℕ) (s : S) (body : Body) (sc : Conn S) (c : Client) (asked rest sent rest' : Bytes)
      (rooms : ℕ → ℕ)
      → 0 < msg
      → msg ≤ max_val
      → IsOpen iface opts sc
      → sc.state ≡ transaction
      → iface.retr msg sc.session ≡ (s, ok body)
      → body.read_fails ≡ false
      → IsAlive sc.writer
      → IsAlive c.writer
      → (retr (pos msg) c).1.writer.sent ≡ contents c.writer ++ asked
      → stream sc.reader ≡ asked ++ rest
      → length asked ≤ opts.max_line_length
      → (round iface opts sc).0.writer.sent ≡ contents sc.writer ++ sent
      → stream c.reader ≡ sent ++ rest'
      → fits c.max_line 0 sent ≡ true
      → ((n : ℕ) → 0 < rooms n)
      → let text = canonical true 0 (flatten body.chunks) in
        let (opened, c') = retr (pos msg) c in
        (opened ≡ done new_body_reader)
        × IsWhole text rest' (read_all (suc (length text)) rooms new_body_reader c')
        × IsServed s rest (round iface opts sc)
  retr-round msg s body sc c asked rest sent rest' rooms positive small o state given whole alive
        alive' out e short sent_by e' fit rooms' =
      let line = codes "RETR " ++ format_int (pos msg) in
      let same = retr-sent msg asked c alive' out in
      let (c2, session, writer, parsed, flushed, served) =
        round_lem msg s body rest sc positive small o state given whole alive
          (omega (arith, short, ap length same, length-append line (codes "\r\n")))
          (e ∙ ap (λ l. l ++ rest) same) in
      let (opened, _, all) =
        retr-handle_retr iface opts (format msg ∷ []) msg s body c2 c sent rest' rooms parsed
          (ap (iface.retr msg) session ∙ given) whole (subst IsAlive (sym writer) alive)
          (sym flushed ∙ sent_by ∙ ap (λ w. contents w ++ sent) (sym writer)) alive' e' fit
          rooms' in
      (opened, all, served)
