-- ===== src/Server/Login/Stls.antt =====
-- STLS in pop3server/conn.go: what the connection is before and after it.
use go_pop.Prelude.{
  ltb, Bool, true, false, Option-cases, ◌⊎◌, inl, inr, Option, none, some, List, [], ◌∷◌, length,
  if◌then◌else◌, ◌≡◌, refl, ap, arith,
}
use go_pop.Text.{Bytes, codes}
use go_pop.Server.Wire.{Segment, new_reader}
use go_pop.Server.Session.{Session}
use go_pop.Server.Conn.{
  Conn, ConnState, authorization, transaction, Options, write_string, send_ok, flush_conn,
  client_error,
}
use go_pop.Server.Conn.Frame.{client_error-Same}
use go_pop.Server.Login.{start_tls, handle_stls}

-- A connection upgraded to TLS: it was not authenticated, nothing that came in plain text is left
-- unread, the client's name is forgotten, and what is read next is what the handshake delivers.
pub record IsUpgraded {S : Type 0} (handshake : List Segment → Option (List Segment × List Bool))
    (c d : Conn S) : Type 0 where
  pub was_plain : c.is_tls ≡ false
  pub secured : d.is_tls ≡ true
  pub unauthenticated : d.state ≡ authorization
  pub no_leftover : c.reader.buffered ≡ []
  pub forgotten : d.username ≡ []
  pub fresh :
      (incoming : List Segment) × (link : List Bool) × (handshake c.reader.incoming
        ≡ some (incoming, link))
      × (d.reader ≡ new_reader incoming)
      × (d.writer.pending ≡ [])
      × (d.writer.link ≡ link)

module _ {S : Type 0} (iface : Session S) (opts : Options S) where
  -- What STLS may do: nothing to the frame, or a closing connection, or the upgrade.
  unfoldable pub StlsOutcome : Conn S → Conn S → Type 0
  StlsOutcome c d =
      (d.session ≡ c.session)
      × (d.state ≡ c.state)
      × (d.hijacked ≡ c.hijacked)
      × (((d.is_tls ≡ c.is_tls) × (d.username ≡ c.username) × (d.reader ≡ c.reader))
          ⊎ ((handshake : List Segment → Option (List Segment × List Bool)) × (opts.tls_config
                ≡ some handshake)
              × IsUpgraded handshake c d))

  refused-StlsOutcome : (msg : Bytes) (c : Conn S) → StlsOutcome c (client_error opts msg c)
  unfolding StlsOutcome
  refused-StlsOutcome msg c =
      let ((s, f), _, _) = client_error-Same opts msg c in
      (s, ap (λ t. t.0) f, ap (λ t. t.3) f, inl (ap (λ t. t.2) f, ap (λ t. t.1) f, ap (λ t. t.4) f))

  pipelined-StlsOutcome :
      (msg : Bytes) (c : Conn S)
      → StlsOutcome c (record (client_error opts msg c) { close_pending = true })
  unfolding StlsOutcome
  pipelined-StlsOutcome msg c =
      let ((s, f), _, _) = client_error-Same opts msg c in
      (s, ap (λ t. t.0) f, ap (λ t. t.3) f, inl (ap (λ t. t.2) f, ap (λ t. t.1) f, ap (λ t. t.4) f))

  start_tls-StlsOutcome :
      (handshake : List Segment → Option (List Segment × List Bool)) (c : Conn S)
      → opts.tls_config ≡ some handshake
      → c.is_tls ≡ false
      → c.state ≡ authorization
      → c.reader.buffered ≡ []
      → StlsOutcome c (start_tls iface opts handshake c)
  unfolding StlsOutcome start_tls flush_conn send_ok write_string
  start_tls-StlsOutcome handshake c has plain auth empty =
      elim (Option-cases (handshake c.reader.incoming)) [
        | inl e ↦ rw (e, start_tls) (refl, refl, refl, inl (refl, refl, refl))
        | inr ((incoming, link), e) ↦
            rw (e, start_tls)
              (
                refl,
                refl,
                refl,
                inr (
                  handshake,
                  has,
                  record {
                    was_plain = plain;
                    secured = refl;
                    unauthenticated = auth;
                    no_leftover = empty;
                    forgotten = refl;
                    fresh = (incoming, link, e, refl, refl, refl);
                  },
                ),
              )
      ]

  empty : (s : Bytes) → ltb 0 (length s) ≡ false → s ≡ []
  empty [] h = refl
  empty (x ∷ s) h = absurd (ground arith)

  abbrev permitted : (List Segment → Option (List Segment × List Bool)) → Bool → Conn S → Conn S
  permitted handshake pipelined c =
      if pipelined
      then record (client_error opts (codes "Pipelining after STLS not permitted") c) {
        close_pending = true;
      }
      else start_tls iface opts handshake c

  permitted-StlsOutcome :
      (handshake : List Segment → Option (List Segment × List Bool)) (pipelined : Bool) (c : Conn S)
      → opts.tls_config ≡ some handshake
      → c.is_tls ≡ false
      → c.state ≡ authorization
      → ltb 0 (length c.reader.buffered) ≡ pipelined
      → StlsOutcome c (permitted handshake pipelined c)
  permitted-StlsOutcome handshake true c has plain auth e = pipelined-StlsOutcome _ c
  permitted-StlsOutcome handshake false c has plain auth e =
      start_tls-StlsOutcome handshake c has plain auth (empty c.reader.buffered e)

  abbrev in_state : (List Segment → Option (List Segment × List Bool)) → ConnState → Conn S → Conn S
  in_state handshake state c = elim state [
    | transaction ↦ client_error opts (codes "STLS only allowed before authentication") c
    | authorization ↦ permitted handshake (ltb 0 (length c.reader.buffered)) c
  ]

  in_state-StlsOutcome :
      (handshake : List Segment → Option (List Segment × List Bool)) (state : ConnState)
      (c : Conn S)
      → opts.tls_config ≡ some handshake
      → c.is_tls ≡ false
      → c.state ≡ state
      → StlsOutcome c (in_state handshake state c)
  in_state-StlsOutcome handshake transaction c has plain e = refused-StlsOutcome _ c
  in_state-StlsOutcome handshake authorization c has plain e =
      permitted-StlsOutcome handshake _ c has plain e refl

  configured-StlsOutcome :
      (o : Option (List Segment → Option (List Segment × List Bool))) (c : Conn S)
      → opts.tls_config ≡ o
      → c.is_tls ≡ false
      → StlsOutcome c (elim o [
        | none ↦ client_error opts (codes "TLS not available") c
        | some handshake ↦ in_state handshake c.state c
      ])
  configured-StlsOutcome none c has plain = refused-StlsOutcome _ c
  configured-StlsOutcome (some handshake) c has plain =
      in_state-StlsOutcome handshake c.state c has plain refl

  -- STLS never touches session, state or hijacking. Either TLS, name and input stay as they are
  -- too, or the connection has been upgraded: from plain text before authentication to TLS, with no
  -- pipelined plain text left, the name forgotten, and what is read and written next is what the
  -- handshake of the options delivers.
  pub handle_stls_lem : (c : Conn S) → StlsOutcome c (handle_stls iface opts c)
  unfolding handle_stls
  handle_stls_lem c = stls_branches c.is_tls refl
    where
      stls_branches :
          (tls : Bool)
          → c.is_tls ≡ tls
          → StlsOutcome c (
              if tls
              then client_error opts (codes "Already using TLS") c
              else elim opts.tls_config [
                | none ↦ client_error opts (codes "TLS not available") c
                | some handshake ↦ in_state handshake c.state c
              ])
      stls_branches true e = refused-StlsOutcome _ c
      stls_branches false e = configured-StlsOutcome opts.tls_config c refl e
