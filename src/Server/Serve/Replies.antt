-- ===== src/Server/Serve/Replies.antt =====
-- How a round of `serve` of pop3server/conn.go ends on an open connection, and what RETR leaves.
use go_pop.Prelude.{
  pos, negsuc, ℤ, Bool, true, false, not, ◌&&◌, ◌||◌, ltb, leb, if◌then◌else◌, ◌≡◌, refl, ap, ◌∙◌,
  arith, List, ℕ,
}
use go_pop.Text.{Bytes, codes, equal}
use go_pop.Server.Wire.{flush}
use go_pop.Server.Wire.Writing.{IsAlive, flush-IsAlive}
use go_pop.Server.Session.{Session}
use go_pop.Server.Conn.{Conn, Options, send_err, flush_conn, max_errors_exceeded}
use go_pop.Server.Serve.{settle}
use go_pop.Server.Serve.Limits.{IsOpen}
use go_pop.Server.Errors.{ok}
use go_pop.Server.Parse.{number, parse_msg_num}
use go_pop.Server.Session.{Body}
use go_pop.Server.Conn.{ConnState, authorization, transaction}
use go_pop.Server.Maildrop.{retr_status, handle_retr}
use go_pop.Server.Maildrop.Retrieval.{IsSent, handle_retr-IsDelivered}
use go_pop.Server.Dispatch.{dispatch, dispatch_auth, dispatch_transaction, verb_of}

module _ {S : Type 0} (iface : Session S) (opts : Options S) where
  within_limit : (c : Conn S) → IsOpen iface opts c → max_errors_exceeded opts c ≡ false
  unfolding max_errors_exceeded
  within_limit c o = go opts.max_errors refl
    where
      go :
          (m : ℤ)
          → opts.max_errors ≡ m
          → (elim m [ pos n ↦ ltb 0 n && leb n c.error_count | negsuc n ↦ false ]) ≡ false
      go (pos n) e = let below = o.below n e in ground arith
      go (negsuc n) e = refl

  open_branches :
      (hijacked pending exceeded : Bool) (d : Conn S)
      → hijacked ≡ false
      → pending ≡ false
      → exceeded ≡ false
      → let closing = false || pending in
        let excess = not closing && exceeded in
        let (c', fine) =
          flush_conn
            (if excess then send_err (codes "Too many errors, closing connection") d else d) in
        let p : Conn S × Bool =
          if hijacked then (d, false) else (c', fine && not (closing || excess)) in
        p ≡ (record d { writer = (flush d.writer).0 }, (flush d.writer).1 && true)
  unfolding flush_conn
  open_branches false false false d a b e = refl
  open_branches true pending exceeded d a b e = absurd (ground arith)
  open_branches false true exceeded d a b e = absurd (ground arith)
  open_branches false false true d a b e = absurd (ground arith)

  -- Behind a handler that does not quit, on an open connection and a network that takes every write:
  -- the output is flushed, and the loop goes on.
  pub settle-IsOpen :
      (d : Conn S)
      → IsOpen iface opts d
      → IsAlive d.writer
      → settle iface opts (d, false) ≡ (record d { writer = (flush d.writer).0 }, true)
  unfolding settle
  settle-IsOpen d o alive =
      let (fine, _, _, _) = flush-IsAlive d.writer alive in
      open_branches d.hijacked d.close_pending (max_errors_exceeded opts d) d o.owned o.staying
        (within_limit d o)
      ∙ ap (λ b. (record d { writer = (flush d.writer).0 }, b && true)) fine

  pub dispatch-retr :
      (args : List Bytes) (c : Conn S)
      → c.state ≡ transaction
      → dispatch iface opts (codes "RETR") args c ≡ (handle_retr iface opts args c, false)
  unfolding dispatch dispatch_transaction verb_of equal
  dispatch-retr args c e =
      let by_state : ConnState → Conn S × Bool = λ t. elim t [
        | authorization ↦ dispatch_auth iface opts (verb_of (codes "RETR")) (codes "RETR") args c
        | transaction ↦
            dispatch_transaction iface opts (verb_of (codes "RETR")) (codes "RETR") args c
      ] in
      ap by_state e

  -- A body that is read to its end leaves an open connection open.
  pub handle_retr-IsOpen :
      (args : List Bytes) (msg : ℕ) (s : S) (body : Body) (c : Conn S)
      → parse_msg_num args ≡ number msg
      → iface.retr msg c.session ≡ (s, ok body)
      → body.read_fails ≡ false
      → IsAlive c.writer
      → IsOpen iface opts c
      → let d = handle_retr iface opts args c in
        IsOpen iface opts d
        × IsAlive d.writer
        × (d.session ≡ s)
        × (d.reader ≡ c.reader)
        × (d.state ≡ c.state)
  handle_retr-IsOpen args msg s body c parsed given whole alive o =
      let delivered = handle_retr-IsDelivered iface opts args msg s body c parsed given alive in
      let (alive', same, _) : IsSent iface opts (retr_status iface opts body) body
          (record c { session = s }) (handle_retr iface opts args c) =
        rw whole at delivered in
      (
        record {
          owned = ap (λ (d : Conn S). d.hijacked) same ∙ o.owned;
          staying = ap (λ (d : Conn S). d.close_pending) same ∙ o.staying;
          below = λ limit e positive.
              omega (arith, o.below limit e positive, ap (λ (d : Conn S). d.error_count) same);
        },
        alive',
        ap (λ (d : Conn S). d.session) same,
        ap (λ (d : Conn S). d.reader) same,
        ap (λ (d : Conn S). d.state) same,
      )
