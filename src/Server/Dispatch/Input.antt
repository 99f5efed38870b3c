-- ===== src/Server/Dispatch/Input.antt =====
-- The input that commands of pop3server/conn.go leave to be read.
use go_pop.Prelude.{◌≤◌, Bool, inl, inr, Option, none, some, List, ◌≡◌, ap, arith}
use go_pop.Text.{Bytes, codes}
use go_pop.Server.Wire.{Segment}
use go_pop.Server.Wire.Progress.{left, to_come}
use go_pop.Server.Session.{Session}
use go_pop.Server.Conn.{Conn, ConnState, authorization, transaction, Options, client_error}
use go_pop.Server.Conn.Frame.{client_error-Same}
use go_pop.Server.Maildrop.Frame.{Calm}
use go_pop.Server.Extensions.{handle_capa}
use go_pop.Server.Login.{handle_stls}
use go_pop.Server.Extensions.Frame.{handle_capa-Quiet, handle_utf8-Calm, handle_lang-Calm}
use go_pop.Server.Login.Granted.{Moves, pass-Moves, auth-Moves}
use go_pop.Server.Login.Stls.{StlsOutcome, handle_stls_lem}
use go_pop.Server.Dispatch.{
  Verb, capa, user, pass, auth, stls, quit, utf8, lang, stat, list, uidl, retr, top, dele, rset,
  noop, last, unknown, dispatch_auth, dispatch_transaction, dispatch, verb_of,
}
use go_pop.Server.Dispatch.Entitled.{user-Stays}
use go_pop.Server.Dispatch.States.{
  Quiet-Calm, unknown-Calm, last-Calm, goodbye-Calm, dispatch_transaction-Calm,
}

module _ {S : Type 0} (iface : Session S) (opts : Options S) where
  -- The TLS handshake of the options delivers no more than what the network does: each record that
  -- is decrypted gives fewer bytes than it has.
  abbrev pub IsShrinking : Type 0
  IsShrinking =
      (handshake : List Segment → Option (List Segment × List Bool)) (w incoming : List Segment)
      (link : List Bool)
      → opts.tls_config ≡ some handshake
      → handshake w ≡ some (incoming, link)
      → to_come incoming ≤ to_come w

  Calm-input : (c d : Conn S) → Calm c d → left d.reader ≤ left c.reader
  unfolding Calm
  Calm-input c d q = omega (arith, ap (λ t. left t.4) q.0)

  Moves-input :
      (P : S → Type 0) (c d : Conn S) → Moves iface opts P c d → left d.reader ≤ left c.reader
  unfolding Moves
  Moves-input P c d m = m.0

  error-input : (msg : Bytes) (c : Conn S) → left (client_error opts msg c).reader ≤ left c.reader
  error-input msg c = omega (arith, ap (λ t. left t.4) (client_error-Same opts msg c).0.1)

  stls-input :
      (c d : Conn S) → IsShrinking → StlsOutcome iface opts c d → left d.reader ≤ left c.reader
  unfolding StlsOutcome
  stls-input c d shrinks (_, _, _, inl (_, _, same)) = omega (arith, ap left same)
  stls-input c d shrinks (_, _, _, inr (handshake, has, up)) =
      let (incoming, link, agreed, fresh, _, _) = up.fresh in
      omega (arith, ap left fresh, shrinks handshake c.reader.incoming incoming link has agreed)

  auth-input :
      (v : Verb) (cmd : Bytes) (args : List Bytes) (c : Conn S)
      → opts.unknown_command_handler ≡ none
      → IsShrinking
      → left (dispatch_auth iface opts v cmd args c).0.reader ≤ left c.reader
  unfolding dispatch_auth
  auth-input capa cmd args c h shrinks =
      Calm-input c _
        (Quiet-Calm iface opts c (handle_capa iface opts c) (handle_capa-Quiet iface opts c))
  auth-input user cmd args c h shrinks = omega (arith, ap left (user-Stays iface opts args c).1)
  auth-input pass cmd args c h shrinks = Moves-input _ c _ (pass-Moves iface opts c)
  auth-input auth cmd args c h shrinks = Moves-input _ c _ (auth-Moves iface opts args c)
  auth-input stls cmd args c h shrinks =
      stls-input c (handle_stls iface opts c) shrinks (handle_stls_lem iface opts c)
  auth-input quit cmd args c h shrinks = Calm-input c _ (goodbye-Calm iface opts c)
  auth-input utf8 cmd args c h shrinks = Calm-input c _ (handle_utf8-Calm iface opts c)
  auth-input lang cmd args c h shrinks = Calm-input c _ (handle_lang-Calm iface opts args c)
  auth-input last cmd args c h shrinks = Calm-input c _ (last-Calm iface opts c)
  auth-input unknown cmd args c h shrinks = Calm-input c _ (unknown-Calm iface opts cmd args c h)
  auth-input stat cmd args c h shrinks = error-input (codes "Not authenticated") c
  auth-input list cmd args c h shrinks = error-input (codes "Not authenticated") c
  auth-input uidl cmd args c h shrinks = error-input (codes "Not authenticated") c
  auth-input retr cmd args c h shrinks = error-input (codes "Not authenticated") c
  auth-input top cmd args c h shrinks = error-input (codes "Not authenticated") c
  auth-input dele cmd args c h shrinks = error-input (codes "Not authenticated") c
  auth-input rset cmd args c h shrinks = error-input (codes "Not authenticated") c
  auth-input noop cmd args c h shrinks = error-input (codes "Not authenticated") c

  -- No command puts input back.
  pub dispatch-input :
      (cmd : Bytes) (args : List Bytes) (c : Conn S)
      → opts.unknown_command_handler ≡ none
      → IsShrinking
      → left (dispatch iface opts cmd args c).0.reader ≤ left c.reader
  unfolding dispatch
  dispatch-input cmd args c h shrinks = in_state c.state
    where
      in_state :
          (t : ConnState)
          → left
              (elim t as (λ _. Conn S × Bool) [
                | authorization ↦ dispatch_auth iface opts (verb_of cmd) cmd args c
                | transaction ↦ dispatch_transaction iface opts (verb_of cmd) cmd args c
              ]).0.reader
            ≤ left c.reader
      in_state authorization = auth-input (verb_of cmd) cmd args c h shrinks
      in_state transaction =
          Calm-input c _ (dispatch_transaction-Calm iface opts (verb_of cmd) cmd args c h)
