-- ===== src/Server/Serve/Hijack.antt =====
-- A session that hijacks the connection while it authenticates, in pop3server/conn.go.
use go_pop.Prelude.{Bool, true, false, not, if◌then◌else◌, ◌≡◌, refl, ap, sym, ◌∙◌}
use mathlib.Core.Path.{subst}
use go_pop.Server.Errors.{ok}
use go_pop.Server.Wire.{flush}
use go_pop.Server.Session.{Session, Attempt}
use go_pop.Server.Conn.{Conn, ConnState, authorization, transaction, Options, flush_conn, hijack}
use go_pop.Server.Login.{after_attempt, login_result, finish_login}
use go_pop.Server.Serve.{settle, close_conn}

module _ {S : Type 0} (iface : Session S) (opts : Options S) where
  hijack-allowed :
      (c : Conn S)
      → c.state ≡ authorization
      → c.hijacked ≡ false
      → (flush c.writer).1 ≡ true
      → hijack c ≡ (record (flush_conn c).0 { hijacked = true }, true)
  unfolding hijack flush_conn
  hijack-allowed c state free fine =
      let c' = (flush_conn c).0 in
      let allowed : elim c.state [ authorization ↦ not c.hijacked | transaction ↦ false ] ≡ true =
        ap (λ (t : ConnState). elim t [ authorization ↦ not c.hijacked | transaction ↦ false ])
          state
        ∙ ap not free in
      ap
        (λ (a : Bool).
          if a
          then (if (flush c.writer).1 then (record c' { hijacked = true }, true) else (c', false))
          else (c, false))
        allowed
      ∙ ap (λ (b : Bool). if b then (record c' { hijacked = true }, true) else (c', false)) fine

  abbrev hijacks : Attempt
  hijacks = record { result = ok tt; calls_hijack = true }

  -- The connection is the session's: what was queued has been flushed, nothing else has been
  -- written, what was read ahead is still there, and neither the loop nor the teardown does
  -- anything to it.
  abbrev pub IsHandedOver : S → Conn S → Conn S → Type 0
  IsHandedOver s c d =
      (d.hijacked ≡ true)
      × (d.state ≡ authorization)
      × (d.session ≡ s)
      × (d.writer ≡ (flush c.writer).0)
      × (d.reader ≡ c.reader)
      × (settle iface opts (d, false) ≡ (d, false))
      × ((close_conn iface opts d).net_closed ≡ c.net_closed)
      × ((close_conn iface opts d).writer ≡ (flush c.writer).0)

  -- An attempt to authenticate that succeeds and in which the session hijacks the connection,
  -- where what is queued can be flushed: no response is written, the state stays AUTHORIZATION,
  -- the input read ahead is kept for the new owner, the loop ends without a write, and the
  -- teardown leaves the network connection open.
  pub finish_login-IsHandedOver :
      (s : S) (c : Conn S)
      → c.state ≡ authorization
      → c.hijacked ≡ false
      → (flush c.writer).1 ≡ true
      → IsHandedOver s c
          (finish_login iface opts (s, record { result = ok tt; calls_hijack = true }) c)
  unfolding finish_login after_attempt login_result settle close_conn flush_conn
  finish_login-IsHandedOver s c state free fine =
      let c1 = record c { session = s } in
      let d = record (flush_conn c1).0 { hijacked = true } in
      let e : (hijack c1).0 ≡ d = ap (λ r. r.0) (hijack-allowed c1 state free fine) in
      subst (λ x. IsHandedOver s c (login_result iface opts (ok tt) x)) (sym e)
        (refl, state, refl, refl, refl, refl, refl, refl)
