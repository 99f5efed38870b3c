-- ===== src/Server/Dispatch.antt =====
-- The dispatch of a command by its verb and the state, in pop3server/conn.go.
pub mod States
pub mod Entitled
pub mod Input
pub mod Offered
pub mod Taken
use go_pop.Prelude.{ℕ, Bool, true, false, Option, none, some, List, [], ◌∷◌, ◌++◌, if◌then◌else◌}
use go_pop.Text.{Bytes, codes, equal}
use go_pop.Server.Errors.{SessionError, plain}
use go_pop.Server.Session.{Session}
use go_pop.Server.Conn.{
  Conn, ConnState, authorization, transaction, Options, send_ok, send_err, client_error,
}
use go_pop.Server.Maildrop.{
  handle_stat, handle_list, handle_uidl, handle_retr, handle_top, handle_dele, handle_rset,
  handle_noop, handle_quit,
}
use go_pop.Server.Extensions.{handle_capa, handle_lang, handle_utf8}
use go_pop.Server.Login.{handle_user, handle_pass, handle_auth, handle_stls}

-- The cases of the two `switch` statements, `default` last.
pub data Verb : Type 0 where
  capa user pass auth stls quit utf8 lang : Verb
  stat list uidl retr top dele rset noop last : Verb
  unknown : Verb

abbrev verbs : List (Bytes × Verb)
verbs =
    (codes "CAPA", capa)
    ∷ (codes "USER", user)
    ∷ (codes "PASS", pass)
    ∷ (codes "AUTH", auth)
    ∷ (codes "STLS", stls)
    ∷ (codes "QUIT", quit)
    ∷ (codes "UTF8", utf8)
    ∷ (codes "LANG", lang)
    ∷ (codes "STAT", stat)
    ∷ (codes "LIST", list)
    ∷ (codes "UIDL", uidl)
    ∷ (codes "RETR", retr)
    ∷ (codes "TOP", top)
    ∷ (codes "DELE", dele)
    ∷ (codes "RSET", rset)
    ∷ (codes "NOOP", noop)
    ∷ (codes "LAST", last)
    ∷ []

unfoldable verb_in : List (Bytes × Verb) → Bytes → Verb
unfolding equal
verb_in [] cmd = unknown
verb_in ((name, v) ∷ vs) cmd = if equal name cmd then v else verb_in vs cmd

unfoldable pub verb_of : Bytes → Verb
unfolding verb_in
verb_of = verb_in verbs

module _ {S : Type 0} (iface : Session S) (opts : Options S) where
  -- A command that `client_error` answers, with the hook's error set before.
  unfoldable pub refuse_unknown : Bytes → Conn S → Conn S
  refuse_unknown cmd c =
      client_error opts (codes "Unknown command: " ++ cmd)
        (record c { last_err = some (plain (codes "unknown command: " ++ cmd)) })

  unfoldable pub dispatch_unknown : Bytes → List Bytes → Conn S → Conn S × Bool
  unfolding refuse_unknown
  dispatch_unknown cmd args c = elim opts.unknown_command_handler [
    | none ↦ (refuse_unknown cmd c, false)
    | some h ↦
        let (c', handled, close_conn) = h cmd args c in
        if handled then (c', close_conn) else (refuse_unknown cmd c', false)
  ]

  abbrev pub not_authenticated : Conn S → Conn S × Bool
  not_authenticated c = (client_error opts (codes "Not authenticated") c, false)

  abbrev pub obsolete : Conn S → Conn S × Bool
  obsolete c = (send_err (codes "LAST is obsolete (RFC 1939)") c, false)

  unfoldable pub dispatch_auth : Verb → Bytes → List Bytes → Conn S → Conn S × Bool
  unfolding dispatch_unknown
  dispatch_auth capa cmd args c = (handle_capa iface opts c, false)
  dispatch_auth user cmd args c = (handle_user iface opts args c, false)
  dispatch_auth pass cmd args c = (handle_pass iface opts c, false)
  dispatch_auth auth cmd args c = (handle_auth iface opts args c, false)
  dispatch_auth stls cmd args c = (handle_stls iface opts c, false)
  dispatch_auth quit cmd args c = (send_ok (codes "Goodbye") c, true)
  dispatch_auth utf8 cmd args c = (handle_utf8 iface opts c, false)
  dispatch_auth lang cmd args c = (handle_lang iface opts args c, false)
  dispatch_auth stat cmd args c = not_authenticated c
  dispatch_auth list cmd args c = not_authenticated c
  dispatch_auth uidl cmd args c = not_authenticated c
  dispatch_auth retr cmd args c = not_authenticated c
  dispatch_auth top cmd args c = not_authenticated c
  dispatch_auth dele cmd args c = not_authenticated c
  dispatch_auth rset cmd args c = not_authenticated c
  dispatch_auth noop cmd args c = not_authenticated c
  dispatch_auth last cmd args c = obsolete c
  dispatch_auth unknown cmd args c = dispatch_unknown cmd args c

  -- USER, PASS, AUTH and STLS are unknown commands here.
  unfoldable pub dispatch_transaction : Verb → Bytes → List Bytes → Conn S → Conn S × Bool
  unfolding dispatch_unknown
  dispatch_transaction capa cmd args c = (handle_capa iface opts c, false)
  dispatch_transaction stat cmd args c = (handle_stat iface opts c, false)
  dispatch_transaction list cmd args c = (handle_list iface opts args c, false)
  dispatch_transaction uidl cmd args c = (handle_uidl iface opts args c, false)
  dispatch_transaction retr cmd args c = (handle_retr iface opts args c, false)
  dispatch_transaction top cmd args c = (handle_top iface opts args c, false)
  dispatch_transaction dele cmd args c = (handle_dele iface opts args c, false)
  dispatch_transaction rset cmd args c = (handle_rset iface opts c, false)
  dispatch_transaction noop cmd args c = (handle_noop iface opts c, false)
  dispatch_transaction quit cmd args c = (handle_quit iface opts c, true)
  dispatch_transaction lang cmd args c = (handle_lang iface opts args c, false)
  dispatch_transaction utf8 cmd args c = (handle_utf8 iface opts c, false)
  dispatch_transaction last cmd args c = obsolete c
  dispatch_transaction user cmd args c = dispatch_unknown cmd args c
  dispatch_transaction pass cmd args c = dispatch_unknown cmd args c
  dispatch_transaction auth cmd args c = dispatch_unknown cmd args c
  dispatch_transaction stls cmd args c = dispatch_unknown cmd args c
  dispatch_transaction unknown cmd args c = dispatch_unknown cmd args c

  unfoldable pub dispatch : Bytes → List Bytes → Conn S → Conn S × Bool
  unfolding dispatch_auth dispatch_transaction
  dispatch cmd args c = elim c.state [
    | authorization ↦ dispatch_auth (verb_of cmd) cmd args c
    | transaction ↦ dispatch_transaction (verb_of cmd) cmd args c
  ]
