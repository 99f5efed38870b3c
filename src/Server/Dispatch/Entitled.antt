-- ===== src/Server/Dispatch/Entitled.antt =====
-- Who becomes authenticated, in pop3server/conn.go as a whole: AUTHORIZATION, with no handler for
-- unknown commands.
use go_pop.Prelude.{
  true, false, not, ◌⊎◌, inl, inr, none, List, [], ◌∷◌, ◌≡◌, refl, ap, Bool-cases, if-case,
}
use go_pop.Text.{Bytes, codes}
use go_pop.Server.Parse.{contains_ctl}
use go_pop.Server.Session.{Session}
use go_pop.Server.Conn.{Conn, Options, auth_allowed, send_ok, write_string, client_error}
use go_pop.Server.Conn.Frame.{client_error-Same}
use go_pop.Server.Maildrop.Frame.{Calm, client_error-Calm}
use go_pop.Server.Extensions.{handle_capa}
use go_pop.Server.Login.{handle_user, handle_stls}
use go_pop.Server.Extensions.Frame.{handle_capa-Quiet, handle_utf8-Calm, handle_lang-Calm}
use go_pop.Server.Login.Granted.{ByPass, ByAuth, Moves, pass-Moves, auth-Moves, gate_closed}
use go_pop.Server.Login.Stls.{StlsOutcome, handle_stls_lem}
use go_pop.Server.Dispatch.{
  Verb, capa, user, pass, auth, stls, quit, utf8, lang, stat, list, uidl, retr, top, dele, rset,
  noop, last, unknown, dispatch_auth,
}
use go_pop.Server.Dispatch.States.{refused, Quiet-Calm, unknown-Calm, last-Calm, goodbye-Calm}

module _ {S : Type 0} (iface : Session S) (opts : Options S) where
  abbrev Stays : Conn S → Conn S → Type 0
  Stays c d = (d.state ≡ c.state) × (d.reader ≡ c.reader)

  error-Stays : (msg : Bytes) (c : Conn S) → Stays c (client_error opts msg c)
  error-Stays msg c =
      let f = (client_error-Same opts msg c).0.1 in (ap (λ t. t.0) f, ap (λ t. t.4) f)

  pub user-Stays : (args : List Bytes) (c : Conn S) → Stays c (handle_user iface opts args c)
  unfolding handle_user send_ok write_string
  user-Stays [] c =
      if-case (λ (d : Conn S). Stays c d) (auth_allowed opts c) _ _ (error-Stays _ c)
        (error-Stays _ c)
  user-Stays (name ∷ args) c =
      if-case (λ (d : Conn S). Stays c d) (not (auth_allowed opts c)) _ _ (error-Stays _ c)
        (if-case (λ (d : Conn S). Stays c d) (contains_ctl name) _ _ (error-Stays _ c) (refl, refl))

  stls-state : (c : Conn S) → (handle_stls iface opts c).state ≡ c.state
  unfolding StlsOutcome
  stls-state c = (handle_stls_lem iface opts c).1

  -- The commands that may authenticate, with what the session must have accepted.
  abbrev pub Grants : Verb → List Bytes → Conn S → S → Type 0
  Grants pass args c s = ByPass iface opts c s
  Grants auth args c s = ByAuth iface opts args c s
  Grants _ args c s = ⊥

  -- A client is authenticated only where that is allowed, and by the session.
  abbrev pub IsEntitled : Verb → List Bytes → Conn S → Conn S → Type 0
  IsEntitled v args c d =
      (d.state ≡ c.state) ⊎ ((auth_allowed opts c ≡ true) × Grants v args c d.session)

  Calm-state : (c d : Conn S) → Calm c d → d.state ≡ c.state
  unfolding Calm
  Calm-state c d q = ap (λ t. t.0) q.0

  Moves-allowed :
      (P : S → Type 0) (c d : Conn S)
      → (auth_allowed opts c ≡ false → Calm c d)
      → Moves iface opts P c d
      → (d.state ≡ c.state) ⊎ ((auth_allowed opts c ≡ true) × P d.session)
  unfolding Moves
  Moves-allowed P c d refused' (_, inl e) = inl e
  Moves-allowed P c d refused' (_, inr accepted) = elim (Bool-cases (auth_allowed opts c)) [
    | inl e ↦ inr (e, accepted)
    | inr e ↦ inl (Calm-state c d (refused' e))
  ]

  -- With no handler for unknown commands: each command in AUTHORIZATION leaves the state as it is,
  -- unless it is PASS or AUTH, authentication is allowed on the connection, and the session has
  -- accepted the client: for PASS, the connection's name with the rest of the line as the password;
  -- for AUTH, exactly the identity, name and password that the SASL PLAIN response decodes to, where the
  -- response stands behind the mechanism or is the next line of the input, with white space trimmed off. The
  -- session is then the one that the accepting method left.
  pub dispatch_auth-IsEntitled :
      (v : Verb) (cmd : Bytes) (args : List Bytes) (c : Conn S)
      → opts.unknown_command_handler ≡ none
      → IsEntitled v args c (dispatch_auth iface opts v cmd args c).0
  unfolding dispatch_auth
  dispatch_auth-IsEntitled capa cmd args c h = inl (
      Calm-state c _
        (Quiet-Calm iface opts c (handle_capa iface opts c) (handle_capa-Quiet iface opts c)))
  dispatch_auth-IsEntitled user cmd args c h = inl (user-Stays args c).0
  dispatch_auth-IsEntitled pass cmd args c h =
      Moves-allowed _ c _
        (λ h. rw ((gate_closed iface opts args c h).1) (client_error-Calm iface opts _ c))
        (pass-Moves iface opts c)
  dispatch_auth-IsEntitled auth cmd args c h =
      Moves-allowed _ c _
        (λ h. rw ((gate_closed iface opts args c h).2) (client_error-Calm iface opts _ c))
        (auth-Moves iface opts args c)
  dispatch_auth-IsEntitled stls cmd args c h = inl (stls-state c)
  dispatch_auth-IsEntitled quit cmd args c h = inl (Calm-state c _ (goodbye-Calm iface opts c))
  dispatch_auth-IsEntitled utf8 cmd args c h = inl (Calm-state c _ (handle_utf8-Calm iface opts c))
  dispatch_auth-IsEntitled lang cmd args c h =
      inl (Calm-state c _ (handle_lang-Calm iface opts args c))
  dispatch_auth-IsEntitled last cmd args c h = inl (Calm-state c _ (last-Calm iface opts c))
  dispatch_auth-IsEntitled unknown cmd args c h =
      inl (Calm-state c _ (unknown-Calm iface opts cmd args c h))
  dispatch_auth-IsEntitled stat cmd args c h =
      inl (ap (λ t. t.0) (refused iface opts (codes "Not authenticated") c).0.1)
  dispatch_auth-IsEntitled list cmd args c h =
      inl (ap (λ t. t.0) (refused iface opts (codes "Not authenticated") c).0.1)
  dispatch_auth-IsEntitled uidl cmd args c h =
      inl (ap (λ t. t.0) (refused iface opts (codes "Not authenticated") c).0.1)
  dispatch_auth-IsEntitled retr cmd args c h =
      inl (ap (λ t. t.0) (refused iface opts (codes "Not authenticated") c).0.1)
  dispatch_auth-IsEntitled top cmd args c h =
      inl (ap (λ t. t.0) (refused iface opts (codes "Not authenticated") c).0.1)
  dispatch_auth-IsEntitled dele cmd args c h =
      inl (ap (λ t. t.0) (refused iface opts (codes "Not authenticated") c).0.1)
  dispatch_auth-IsEntitled rset cmd args c h =
      inl (ap (λ t. t.0) (refused iface opts (codes "Not authenticated") c).0.1)
  dispatch_auth-IsEntitled noop cmd args c h =
      inl (ap (λ t. t.0) (refused iface opts (codes "Not authenticated") c).0.1)
