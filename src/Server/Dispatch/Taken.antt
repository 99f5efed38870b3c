-- ===== src/Server/Dispatch/Taken.antt =====
-- Commands of pop3server/conn.go that rely on a row of the table behind CAPA which holds.
use go_pop.Prelude.{
  Bool, true, false, not, ◌&&◌, Option-cases, inl, inr, Option, none, some, is_none, List, [], ◌∷◌,
  length, ltb, if◌then◌else◌, ◌≡◌, refl, ap, ◌∙◌, arith,
}
use go_pop.Text.{Bytes, codes}
use go_pop.Server.Parse.{contains_ctl}
use go_pop.Server.Wire.{Segment}
use go_pop.Server.Session.{Session, SessionLang}
use go_pop.Server.Conn.{
  Conn, ConnState, authorization, transaction, Options, auth_allowed, client_error, send_ok,
  write_string, flush_conn,
}
use go_pop.Server.Errors.{Outcome, ok, fail}
use go_pop.Server.Conn.Frame.{session_error-Same}
use go_pop.Server.Maildrop.{with_result}
use go_pop.Server.Maildrop.Frame.{Quiet, write_lines-Quiet}
use go_pop.Server.Extensions.{handle_lang, handle_utf8, lang_args, lang_line}
use go_pop.Server.Extensions.Capabilities.{offers, builtin}
use go_pop.Server.Login.{handle_user, start_tls, handle_stls}
use go_pop.Server.Dispatch.{
  Verb, capa, user, pass, auth, stls, quit, utf8, lang, stat, list, uidl, retr, top, dele, rset,
  noop, last, unknown, dispatch_auth,
}
use go_pop.Server.Dispatch.Offered.{relies_on, when_clean, condition, offers_lem}

present : {A : Type 0} (o : Option A) → not (is_none o) ≡ true → (a : A) × (o ≡ some a)
present none h = absurd (ground arith)
present (some a) h = (a, refl)

module _ {S : Type 0} (iface : Session S) (opts : Options S) where
  -- The command counts as no error of the client. What PASS and AUTH lead to is up to the session.
  abbrev pub Taken : Verb → Conn S → Conn S → Type 0
  Taken pass c d = Unit {0}
  Taken auth c d = Unit {0}
  Taken _ c d = d.error_count ≡ c.error_count

  with_result-counted :
      {A : Type 0} (c : Conn S) (r : S × Outcome A) (k : A → Conn S → Conn S)
      → ((a : A) (d : Conn S) → Quiet d (k a d))
      → (with_result iface opts c r k).error_count ≡ c.error_count
  unfolding Quiet
  with_result-counted c (s, fail e) k q =
      let (_, counted, _, _) = session_error-Same opts e (record c { session = s }) in counted
  with_result-counted c (s, ok a) k q =
      let (_, counted, _) = q a (record c { session = s }) in counted

  user-Taken :
      (name : Bytes) (args : List Bytes) (c : Conn S)
      → contains_ctl name ≡ false
      → auth_allowed opts c ≡ true
      → (handle_user iface opts (name ∷ args) c).error_count ≡ c.error_count
  unfolding handle_user send_ok write_string
  user-Taken name args c clean allowed = rw (allowed, clean) refl

  utf8-Taken :
      (c : Conn S)
      → not (is_none iface.utf8) ≡ true
      → (handle_utf8 iface opts c).error_count ≡ c.error_count
  unfolding handle_utf8 send_ok write_string Quiet
  utf8-Taken c h =
      let (enable, e) = present iface.utf8 h in
      rw e (
        with_result-counted c (enable c.session) (λ _. send_ok (codes "UTF8 mode enabled"))
          (λ _ _. (refl, refl, refl)))

  lang_args-Taken :
      (tongue : SessionLang S) (args : List Bytes) (c : Conn S)
      → (lang_args iface opts tongue args c).error_count ≡ c.error_count
  unfolding lang_args write_string Quiet
  lang_args-Taken tongue [] c =
      with_result-counted c (tongue.list_languages c.session) _ (λ langs d.
        write_lines-Quiet lang_line langs (write_string (codes "+OK Language list follows\r\n") d))
  lang_args-Taken tongue (tag ∷ rest) c =
      with_result-counted c (tongue.set_language tag c.session) _ (λ _ _. (refl, refl, refl))

  lang-Taken :
      (args : List Bytes) (c : Conn S)
      → not (is_none iface.lang) ≡ true
      → (handle_lang iface opts args c).error_count ≡ c.error_count
  unfolding handle_lang
  lang-Taken args c h =
      let (tongue, e) = present iface.lang h in rw e (lang_args-Taken tongue args c)

  abbrev Handshake : Type 0
  Handshake = List Segment → Option (List Segment × List Bool)

  -- STLS, with what its conditions look at as arguments.
  abbrev gates : Conn S → Bool → Option Handshake → ConnState → Bytes → Conn S
  gates c is_tls config state buffered =
      if is_tls then client_error opts (codes "Already using TLS") c else elim config [
        | none ↦ client_error opts (codes "TLS not available") c
        | some handshake ↦ elim state [
          | transaction ↦ client_error opts (codes "STLS only allowed before authentication") c
          | authorization ↦
              if ltb 0 (length buffered)
              then record (client_error opts (codes "Pipelining after STLS not permitted") c) {
                close_pending = true;
              }
              else start_tls iface opts handshake c
        ]
      ]

  start_tls-counted :
      (handshake : Handshake) (c : Conn S)
      → (start_tls iface opts handshake c).error_count ≡ c.error_count
  unfolding start_tls flush_conn send_ok write_string
  start_tls-counted handshake c = elim (Option-cases (handshake c.reader.incoming)) [
    | inl e ↦ rw (start_tls, e) refl
    | inr (r, e) ↦ rw (start_tls, e) refl
  ]

  stls-Taken :
      (c : Conn S)
      → (not (is_none opts.tls_config) && not c.is_tls) ≡ true
      → c.state ≡ authorization
      → c.reader.buffered ≡ []
      → (handle_stls iface opts c).error_count ≡ c.error_count
  unfolding handle_stls
  stls-Taken c h state empty =
      let (handshake, has) = present opts.tls_config (ground arith) in
      let clear : c.is_tls ≡ false = ground arith in
      let open' : gates c c.is_tls opts.tls_config c.state c.reader.buffered
          ≡ start_tls iface opts handshake c =
        ap (λ t. gates c t opts.tls_config c.state c.reader.buffered) clear
        ∙ ap (λ o. gates c false o c.state c.reader.buffered) has
        ∙ ap (λ t. gates c false (some handshake) t c.reader.buffered) state
        ∙ ap (gates c false (some handshake) authorization) empty in
      ap (λ (d : Conn S). d.error_count) open' ∙ start_tls-counted handshake c

  -- A command that relies on a row of the table which holds.
  pub offered-Taken :
      (v : Verb) (name cmd : Bytes) (args : List Bytes) (c : Conn S)
      → relies_on v args ≡ some name
      → offers name (builtin iface opts c) ≡ true
      → c.state ≡ authorization
      → c.reader.buffered ≡ []
      → Taken v c (dispatch_auth iface opts v cmd args c).0
  unfolding dispatch_auth
  offered-Taken user name cmd [] c h f state empty = absurd (ground arith)
  offered-Taken user name cmd (n ∷ args) c h f state empty =
      let (clean, wanted) = when_clean (contains_ctl n) (codes "USER") name h in
      user-Taken n args c clean
        (condition iface opts (codes "USER") name c _ wanted f (offers_lem iface opts c).0)
  offered-Taken pass name cmd args c h f state empty = tt
  offered-Taken auth name cmd args c h f state empty = tt
  offered-Taken stls name cmd args c h f state empty =
      stls-Taken c (condition iface opts (codes "STLS") name c _ h f (offers_lem iface opts c).1)
        state empty
  offered-Taken lang name cmd args c h f state empty =
      lang-Taken args c
        (condition iface opts (codes "LANG") name c _ h f (offers_lem iface opts c).3)
  offered-Taken utf8 name cmd args c h f state empty =
      utf8-Taken c (condition iface opts (codes "UTF8") name c _ h f (offers_lem iface opts c).4)
  offered-Taken capa name cmd args c h f state empty = absurd (ground arith)
  offered-Taken quit name cmd args c h f state empty = absurd (ground arith)
  offered-Taken stat name cmd args c h f state empty = absurd (ground arith)
  offered-Taken list name cmd args c h f state empty = absurd (ground arith)
  offered-Taken uidl name cmd args c h f state empty = absurd (ground arith)
  offered-Taken retr name cmd args c h f state empty = absurd (ground arith)
  offered-Taken top name cmd args c h f state empty = absurd (ground arith)
  offered-Taken dele name cmd args c h f state empty = absurd (ground arith)
  offered-Taken rset name cmd args c h f state empty = absurd (ground arith)
  offered-Taken noop name cmd args c h f state empty = absurd (ground arith)
  offered-Taken last name cmd args c h f state empty = absurd (ground arith)
  offered-Taken unknown name cmd args c h f state empty = absurd (ground arith)
