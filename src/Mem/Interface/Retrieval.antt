-- ===== src/Mem/Interface/Retrieval.antt =====
-- RETR of pop3server/conn.go over a session of pop3mem/store.go, up to what a client reads.
use go_pop.Prelude.{ℕ, ◌<◌, true, some, List, [], ◌∷◌, ◌++◌, ◌≡◌, refl, ap, ◌∙◌, arith, append-nil}
use mathlib.Core.List.{flatten}
use go_pop.Text.{Bytes, codes}
use go_pop.DotStuff.Spec.{stuff, canonical, terminator}
use go_pop.DotStuff.Receive.{receive}
use go_pop.DotStuff.Receive.RoundTrip.{receive-stuff}
use go_pop.Server.Errors.{Outcome, ok, fail}
use go_pop.Server.Parse.{number, parse_msg_num}
use go_pop.Server.Wire.Writing.{contents, IsAlive}
use go_pop.Server.Conn.{Conn, Options, response_line}
use go_pop.Server.Maildrop.{handle_retr}
use go_pop.Server.Maildrop.Retrieval.{handle_retr-IsDelivered}
use go_pop.Mem.{Message, Session, retr}
use go_pop.Mem.Live.{visible, find, value, single_lem}
use go_pop.Mem.Interface.{State, mem_session, body_result, new_body}

ok-value : {A : Type 0} (o : Outcome A) (a : A) → value o ≡ some a → o ≡ ok a
ok-value (ok b) a h = ground arith
ok-value (fail e) a h = absurd (ground arith)

shown :
    (msg : ℕ) (s : Session) (m : Message)
    → 0 < msg
    → find msg (visible s) ≡ some m
    → retr msg s ≡ ok m.content
shown msg s m positive found =
    ok-value (retr msg s) m.content ((single_lem msg s positive).0 ∙ rw found refl)

-- A message that the session shows, asked for by its number on a network that takes every write:
-- what is sent is a status line, and then what a receiver of multi-line responses reads as exactly
-- the message in canonical form, with nothing left over. Store and session stay as they are.
pub retr-receive :
    (opts : Options State) (args : List Bytes) (msg : ℕ) (m : Message) (c : Conn State)
    → parse_msg_num args ≡ number msg
    → 0 < msg
    → find msg (visible c.session.1) ≡ some m
    → IsAlive c.writer
    → (wire : Bytes) × (contents (handle_retr mem_session opts args c).writer
        ≡ contents c.writer ++ (response_line (codes "+OK") (codes "Message follows") ++ wire))
      × (receive [] wire ≡ some (canonical true 0 m.content, []))
      × ((handle_retr mem_session opts args c).session ≡ c.session)
unfolding flatten
retr-receive opts args msg m c parsed positive found alive =
    let (_, same, sent) =
      handle_retr-IsDelivered mem_session opts args msg c.session (new_body m.content) c parsed
        (ap (λ o. (c.session, body_result o)) (shown msg c.session.1 m positive found)) alive in
    let whole : flatten (m.content ∷ []) ≡ m.content = append-nil m.content in
    (
      stuff true (canonical true 0 m.content) ++ terminator,
      sent
          ∙ ap
              (λ p.
                contents c.writer
                ++ (response_line (codes "+OK") (codes "Message follows")
                    ++ (stuff true (canonical true 0 p) ++ terminator)))
              whole,
      rw (← append-nil terminator) (receive-stuff m.content []),
      ap (λ (d : Conn State). d.session) same,
    )
