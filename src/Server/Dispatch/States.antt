-- ===== src/Server/Dispatch/States.antt =====
-- The state machine of pop3server/conn.go: what commands do in AUTHORIZATION and in TRANSACTION,
-- with no handler for unknown commands.
use go_pop.Prelude.{◌+◌, Bool, true, false, none, some, List, ◌++◌, ◌≡◌, refl, arith}
use go_pop.Text.{Bytes, codes}
use go_pop.Server.Errors.{plain}
use go_pop.Server.Session.{Session}
use go_pop.Server.Conn.{Conn, Options, auth_allowed, send_ok, send_err, write_string, client_error}
use go_pop.Server.Conn.Frame.{Same, client_error-Same}
use go_pop.Server.Maildrop.Frame.{
  Calm, Quiet, client_error-Calm, handle_stat-Calm, handle_list-Calm, handle_uidl-Calm,
  handle_retr-Calm, handle_top-Calm, handle_dele-Calm, handle_rset-Calm, handle_noop-Calm,
  handle_quit-Calm,
}
use go_pop.Server.Extensions.{handle_capa}
use go_pop.Server.Login.{needs_tls}
use go_pop.Server.Extensions.Frame.{handle_capa-Quiet, handle_utf8-Calm, handle_lang-Calm}
use go_pop.Server.Login.Granted.{gate_closed}
use go_pop.Server.Dispatch.{
  Verb, capa, user, pass, auth, stls, quit, utf8, lang, stat, list, uidl, retr, top, dele, rset,
  noop, last, unknown, refuse_unknown, dispatch_unknown, dispatch_auth, dispatch_transaction,
}

-- The commands on a maildrop, and those that carry credentials.
abbrev pub on_maildrop : Verb → Bool
on_maildrop stat = true
on_maildrop list = true
on_maildrop uidl = true
on_maildrop retr = true
on_maildrop top = true
on_maildrop dele = true
on_maildrop rset = true
on_maildrop noop = true
on_maildrop _ = false

abbrev pub carries_credentials : Verb → Bool
carries_credentials user = true
carries_credentials pass = true
carries_credentials auth = true
carries_credentials _ = false

module _ {S : Type 0} (iface : Session S) (opts : Options S) where
  -- The command is refused as an error of the client: one error is counted, the connection stays
  -- open, and neither session, state, name, TLS nor input changes.
  abbrev pub IsRefused : Conn S → Conn S × Bool → Type 0
  IsRefused c r = Same c r.0 × (r.0.error_count ≡ c.error_count + 1) × (r.1 ≡ false)

  pub refused : (msg : Bytes) (c : Conn S) → IsRefused c (client_error opts msg c, false)
  refused msg c = let (same, n, _) = client_error-Same opts msg c in (same, n, refl)

  -- Before authentication, each command on the maildrop is refused as an error of the client,
  -- which counts once; the session is the same, and so are state, name, TLS and input.
  pub maildrop-IsRefused :
      (v : Verb) (cmd : Bytes) (args : List Bytes) (c : Conn S)
      → on_maildrop v ≡ true
      → IsRefused c (dispatch_auth iface opts v cmd args c)
  unfolding dispatch_auth
  maildrop-IsRefused stat cmd args c h = refused (codes "Not authenticated") c
  maildrop-IsRefused list cmd args c h = refused (codes "Not authenticated") c
  maildrop-IsRefused uidl cmd args c h = refused (codes "Not authenticated") c
  maildrop-IsRefused retr cmd args c h = refused (codes "Not authenticated") c
  maildrop-IsRefused top cmd args c h = refused (codes "Not authenticated") c
  maildrop-IsRefused dele cmd args c h = refused (codes "Not authenticated") c
  maildrop-IsRefused rset cmd args c h = refused (codes "Not authenticated") c
  maildrop-IsRefused noop cmd args c h = refused (codes "Not authenticated") c
  maildrop-IsRefused capa cmd args c h = absurd (ground arith)
  maildrop-IsRefused user cmd args c h = absurd (ground arith)
  maildrop-IsRefused pass cmd args c h = absurd (ground arith)
  maildrop-IsRefused auth cmd args c h = absurd (ground arith)
  maildrop-IsRefused stls cmd args c h = absurd (ground arith)
  maildrop-IsRefused quit cmd args c h = absurd (ground arith)
  maildrop-IsRefused utf8 cmd args c h = absurd (ground arith)
  maildrop-IsRefused lang cmd args c h = absurd (ground arith)
  maildrop-IsRefused last cmd args c h = absurd (ground arith)
  maildrop-IsRefused unknown cmd args c h = absurd (ground arith)

  pub Quiet-Calm : (c d : Conn S) → Quiet c d → Calm c d
  unfolding Quiet Calm
  Quiet-Calm c d q = (q.0, omega (arith, q.1))

  refuse_unknown-Calm : (cmd : Bytes) (c : Conn S) → Calm c (refuse_unknown iface opts cmd c)
  unfolding refuse_unknown Calm
  refuse_unknown-Calm cmd c =
      client_error-Calm iface opts (codes "Unknown command: " ++ cmd)
        (record c { last_err = some (plain (codes "unknown command: " ++ cmd)) })

  pub unknown-Calm :
      (cmd : Bytes) (args : List Bytes) (c : Conn S)
      → opts.unknown_command_handler ≡ none
      → Calm c (dispatch_unknown iface opts cmd args c).0
  unfolding dispatch_unknown
  unknown-Calm cmd args c e = rw (e, dispatch_unknown) (refuse_unknown-Calm cmd c)

  pub last-Calm : (c : Conn S) → Calm c (send_err (codes "LAST is obsolete (RFC 1939)") c)
  unfolding send_err Calm write_string
  last-Calm c = (refl, omega arith)

  pub goodbye-Calm : (c : Conn S) → Calm c (send_ok (codes "Goodbye") c)
  unfolding send_ok Calm write_string
  goodbye-Calm c = (refl, omega arith)

  -- With no handler for unknown commands: no command in TRANSACTION changes the state, the client's
  -- name, TLS, hijacking or the input, and each counts at most one error.
  pub dispatch_transaction-Calm :
      (v : Verb) (cmd : Bytes) (args : List Bytes) (c : Conn S)
      → opts.unknown_command_handler ≡ none
      → Calm c (dispatch_transaction iface opts v cmd args c).0
  unfolding dispatch_transaction
  dispatch_transaction-Calm stat cmd args c e = handle_stat-Calm iface opts c
  dispatch_transaction-Calm list cmd args c e = handle_list-Calm iface opts args c
  dispatch_transaction-Calm uidl cmd args c e = handle_uidl-Calm iface opts args c
  dispatch_transaction-Calm retr cmd args c e = handle_retr-Calm iface opts args c
  dispatch_transaction-Calm top cmd args c e = handle_top-Calm iface opts args c
  dispatch_transaction-Calm dele cmd args c e = handle_dele-Calm iface opts args c
  dispatch_transaction-Calm rset cmd args c e = handle_rset-Calm iface opts c
  dispatch_transaction-Calm noop cmd args c e = handle_noop-Calm iface opts c
  dispatch_transaction-Calm capa cmd args c e =
      Quiet-Calm c (handle_capa iface opts c) (handle_capa-Quiet iface opts c)
  dispatch_transaction-Calm user cmd args c e = unknown-Calm cmd args c e
  dispatch_transaction-Calm pass cmd args c e = unknown-Calm cmd args c e
  dispatch_transaction-Calm auth cmd args c e = unknown-Calm cmd args c e
  dispatch_transaction-Calm stls cmd args c e = unknown-Calm cmd args c e
  dispatch_transaction-Calm quit cmd args c e = handle_quit-Calm iface opts c
  dispatch_transaction-Calm utf8 cmd args c e = handle_utf8-Calm iface opts c
  dispatch_transaction-Calm lang cmd args c e = handle_lang-Calm iface opts args c
  dispatch_transaction-Calm last cmd args c e = last-Calm c
  dispatch_transaction-Calm unknown cmd args c e = unknown-Calm cmd args c e

  forbidden :
      (c : Conn S) → c.is_tls ≡ false → opts.insecure_auth ≡ false → auth_allowed opts c ≡ false
  unfolding auth_allowed
  forbidden c e f = rw (e, f) refl

  -- Without TLS, and with no permission to authenticate without it, USER, PASS and AUTH are
  -- refused as errors of the client, which count once: the session is the same, no name is kept,
  -- and the state stays.
  pub credentials-IsRefused :
      (v : Verb) (cmd : Bytes) (args : List Bytes) (c : Conn S)
      → carries_credentials v ≡ true
      → c.is_tls ≡ false
      → opts.insecure_auth ≡ false
      → IsRefused c (dispatch_auth iface opts v cmd args c)
  unfolding dispatch_auth
  credentials-IsRefused user cmd args c h clear insecure =
      rw ((gate_closed iface opts args c (forbidden c clear insecure)).0)
        (refused (needs_tls iface opts) c)
  credentials-IsRefused pass cmd args c h clear insecure =
      rw ((gate_closed iface opts args c (forbidden c clear insecure)).1)
        (refused (needs_tls iface opts) c)
  credentials-IsRefused auth cmd args c h clear insecure =
      rw ((gate_closed iface opts args c (forbidden c clear insecure)).2)
        (refused (needs_tls iface opts) c)
  credentials-IsRefused stat cmd args c h clear insecure = absurd (ground arith)
  credentials-IsRefused list cmd args c h clear insecure = absurd (ground arith)
  credentials-IsRefused uidl cmd args c h clear insecure = absurd (ground arith)
  credentials-IsRefused retr cmd args c h clear insecure = absurd (ground arith)
  credentials-IsRefused top cmd args c h clear insecure = absurd (ground arith)
  credentials-IsRefused dele cmd args c h clear insecure = absurd (ground arith)
  credentials-IsRefused rset cmd args c h clear insecure = absurd (ground arith)
  credentials-IsRefused noop cmd args c h clear insecure = absurd (ground arith)
  credentials-IsRefused capa cmd args c h clear insecure = absurd (ground arith)
  credentials-IsRefused stls cmd args c h clear insecure = absurd (ground arith)
  credentials-IsRefused quit cmd args c h clear insecure = absurd (ground arith)
  credentials-IsRefused utf8 cmd args c h clear insecure = absurd (ground arith)
  credentials-IsRefused lang cmd args c h clear insecure = absurd (ground arith)
  credentials-IsRefused last cmd args c h clear insecure = absurd (ground arith)
  credentials-IsRefused unknown cmd args c h clear insecure = absurd (ground arith)
