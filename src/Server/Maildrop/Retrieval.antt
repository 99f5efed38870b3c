-- ===== src/Server/Maildrop/Retrieval.antt =====
-- RETR and TOP of pop3server/conn.go: what is on the wire after them.
use go_pop.Prelude.{
  ℕ, Bool, true, false, some, List, [], ◌∷◌, ◌++◌, if◌then◌else◌, ◌≡◌, refl, ◌∙◌, append_assoc,
  append-nil, if-case,
}
use mathlib.Core.List.{flatten}
use go_pop.Text.{Bytes, codes}
use go_pop.DotStuff.{copy, new_dot_stuff_writer}
use go_pop.DotStuff.Spec.{stuff, canonical, terminator}
use go_pop.DotStuff.Output.{close-write}
use go_pop.DotStuff.Contract.{copy-write}
use go_pop.Server.Errors.{plain, ok}
use go_pop.Server.Parse.{number, parse_msg_num, parse_int}
use go_pop.Server.Wire.{Writer, put, flush}
use go_pop.Server.Wire.Writing.{contents, IsAlive, flush-IsAlive, put-IsReliable}
use go_pop.Server.Session.{Session, Body}
use go_pop.Server.Conn.{Conn, Options, write_string, send_ok, flush_conn, response_line}
use go_pop.Server.Maildrop.{send_body, retr_status, handle_retr, handle_top}

module _ {S : Type 0} (iface : Session S) (opts : Options S) where
  -- A status line, flushed.
  status_line :
      (status : Bytes) (w : Writer)
      → IsAlive w
      → let w' = (flush (put (response_line (codes "+OK") status) w).0).0 in
        IsAlive w' × (contents w' ≡ contents w ++ response_line (codes "+OK") status)
  status_line status w alive =
      let line = response_line (codes "+OK") status in
      let alive' = put-IsReliable.good line w alive in
      let added = put-IsReliable.appends line w alive in
      let (_, alive'', sent, pending) = flush-IsAlive (put line w).0 alive' in
      (alive'', rw (sent, pending) (append-nil (contents (put line w).0) ∙ added))

  -- A body that is read to its end, on a network that takes every write: the client gets the
  -- status line, the body with CRLF line ends and byte-stuffed, and the terminating line, and
  -- nothing but the output changes.
  abbrev pub IsSent : Bytes → Body → Conn S → Conn S → Type 0
  IsSent status body c d =
      IsAlive d.writer
      × (d ≡ record c { writer = d.writer })
      × (contents d.writer
          ≡ contents c.writer
            ++ (response_line (codes "+OK") status
                ++ (stuff true (canonical true 0 (flatten body.chunks)) ++ terminator)))

  send_body-IsSent :
      (status : Bytes) (body : Body) (c : Conn S)
      → body.read_fails ≡ false
      → IsAlive c.writer
      → IsSent status body c (send_body iface opts status body c)
  unfolding send_body flush_conn send_ok write_string
  send_body-IsSent status body c e alive =
      let w' = (flush (put (response_line (codes "+OK") status) c.writer).0).0 in
      let (alive', line) = status_line status c.writer alive in
      let (whole, verdict) = copy-write put body.chunks (new_dot_stuff_writer w') in
      let (fine, _, closed, good, out) =
        close-write put contents IsAlive put-IsReliable (flatten body.chunks) w' alive' in
      rw (verdict ∙ fine, e, whole)
        (
          good,
          refl,
          out
              ∙ rw line (
                  append_assoc (contents c.writer) (response_line (codes "+OK") status)
                    (stuff true (canonical true 0 (flatten body.chunks)) ++ terminator)),
        )

  -- The connection is to be closed, the hook sees an error, and but for the output nothing changes.
  abbrev pub IsDropped : Conn S → Conn S → Type 0
  IsDropped c d = d ≡ record c {
    writer = d.writer;
    close_pending = true;
    last_err = some (plain (codes "copy error"));
  }

  send_body_fails :
      (status : Bytes) (body : Body) (c : Conn S)
      → body.read_fails ≡ true
      → let d = send_body iface opts status body c in IsDropped c d
  unfolding send_body flush_conn send_ok write_string
  send_body_fails status body c e = rw e (
      if-case (λ (d : Conn S). IsDropped c d)
        (copy put body.chunks (new_dot_stuff_writer (flush_conn (send_ok status c)).0.writer)).1 _ _
        refl refl)

  abbrev pub IsDelivered : Bytes → Body → Conn S → Conn S → Type 0
  IsDelivered status body c d = if body.read_fails then IsDropped c d else IsSent status body c d

  delivered :
      (status : Bytes) (body : Body) (c : Conn S) (b : Bool)
      → body.read_fails ≡ b
      → IsAlive c.writer
      → let d = send_body iface opts status body c in
        if b then IsDropped c d else IsSent status body c d
  delivered status body c true e alive = send_body_fails status body c e
  delivered status body c false e alive = send_body-IsSent status body c e alive

  send_body-IsDelivered :
      (status : Bytes) (body : Body) (c : Conn S)
      → IsAlive c.writer
      → IsDelivered status body c (send_body iface opts status body c)
  send_body-IsDelivered status body c alive = delivered status body c body.read_fails refl alive

  -- RETR of a message that the session has, on a network that takes every write. If the body is
  -- read to its end, the client gets the status line, the body with CRLF line ends and
  -- byte-stuffed, and the terminating line; but for this output and the session, which is the one that
  -- its `Retr` left, the whole connection stays as it was. If reading fails, the connection is to be closed, the
  -- hook sees an error, and the rest stays in the same way.
  pub handle_retr-IsDelivered :
      (args : List Bytes) (msg : ℕ) (s : S) (body : Body) (c : Conn S)
      → parse_msg_num args ≡ number msg
      → iface.retr msg c.session ≡ (s, ok body)
      → IsAlive c.writer
      → IsDelivered
          (retr_status iface opts body)
          body
          (record c { session = s })
          (handle_retr iface opts args c)
  unfolding handle_retr
  handle_retr-IsDelivered args msg s body c parsed found alive =
      rw (parsed, handle_retr, found)
        (send_body-IsDelivered (retr_status iface opts body) body (record c { session = s }) alive)

  -- TOP with a number of lines sends what the session returns for it in the same way.
  pub handle_top-IsDelivered :
      (a l : Bytes) (args : List Bytes) (msg lines : ℕ) (s : S) (body : Body) (c : Conn S)
      → parse_msg_num (a ∷ []) ≡ number msg
      → parse_int l ≡ some lines
      → iface.top msg lines c.session ≡ (s, ok body)
      → IsAlive c.writer
      → IsDelivered
          (codes "Top of message follows")
          body
          (record c { session = s })
          (handle_top iface opts (a ∷ l ∷ args) c)
  unfolding handle_top
  handle_top-IsDelivered a l args msg lines s body c parsed counted found alive =
      rw (parsed, handle_top, counted, found)
        (send_body-IsDelivered (codes "Top of message follows") body (record c { session = s })
          alive)
