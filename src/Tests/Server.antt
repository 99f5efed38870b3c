-- ===== src/Tests/Server.antt =====
-- Examples for the connection of pop3server.
use go_pop.Prelude.{true, false, some, [], ◌∷◌, elem, ◌≡◌, refl, arith}
use go_pop.Text.{codes, equal, trim_space, to_upper, join}
use go_pop.Server.Errors.{ok}
use go_pop.Server.Parse.{number, parse_msg_num, parse_int, index_blank}
use go_pop.Server.Wire.{arrives, new_reader, flush, put, read_line, read_loop}
use go_pop.Server.Wire.Reading.{Bounded, read_line_lem}
use go_pop.Server.Conn.{authorization, transaction, auth_allowed}
use go_pop.Server.Maildrop.{handle_retr, retr_status}
use go_pop.Server.Maildrop.Frame.{Calm}
use go_pop.Server.Maildrop.Retrieval.{IsDelivered, handle_retr-IsDelivered}
use go_pop.Server.Extensions.{handle_capa}
use go_pop.Server.Login.{handle_stls}
use go_pop.Server.Login.Stls.{StlsOutcome, handle_stls_lem}
use go_pop.Server.Dispatch.{
  pass, auth, retr, dele, dispatch, verb_of, dispatch_auth, dispatch_transaction,
}
use go_pop.Server.Dispatch.Entitled.{IsEntitled, dispatch_auth-IsEntitled}
use go_pop.Server.Dispatch.States.{
  IsRefused, credentials-IsRefused, maildrop-IsRefused, dispatch_transaction-Calm,
}
use go_pop.Server.Dispatch.Input.{IsShrinking}
use go_pop.Server.Serve.{serve, round}
use go_pop.Server.Serve.Ends.{IsTornDown, serve-ends}
use go_pop.Server.Serve.Limits.{IsOpen, round-IsOpen}
use go_pop.Mem.{msg_at, top_bytes, body_start, index, top_loop, retr as mem_retr, top as mem_top}
use go_pop.Mem.Interface.{mem_session, new_body}
use go_pop.Tests.{first, logged_in, one_user, test_options, connection}

dispatch_auth-IsEntitled_example :
    IsEntitled mem_session test_options pass
      (codes "pw" ∷ [])
      (connection authorization true logged_in)
      (dispatch_auth mem_session test_options pass
        (codes "PASS")
        (codes "pw" ∷ [])
        (connection authorization true logged_in)).0
dispatch_auth-IsEntitled_example =
    dispatch_auth-IsEntitled mem_session test_options pass (codes "PASS") (codes "pw" ∷ [])
      (connection authorization true logged_in) refl

credentials-IsRefused_example :
    IsRefused mem_session test_options (connection authorization false logged_in) (
      dispatch_auth mem_session test_options auth
        (codes "AUTH")
        (codes "PLAIN" ∷ [])
        (connection authorization false logged_in))
credentials-IsRefused_example =
    credentials-IsRefused mem_session test_options auth (codes "AUTH") (codes "PLAIN" ∷ [])
      (connection authorization false logged_in) refl refl refl

maildrop-IsRefused_example :
    IsRefused mem_session test_options (connection authorization true logged_in) (
      dispatch_auth mem_session test_options dele
        (codes "DELE")
        (codes "1" ∷ [])
        (connection authorization true logged_in))
maildrop-IsRefused_example =
    maildrop-IsRefused mem_session test_options dele (codes "DELE") (codes "1" ∷ [])
      (connection authorization true logged_in) refl

dispatch_transaction-Calm_example :
    Calm
      (connection transaction true logged_in)
      (dispatch_transaction mem_session test_options retr
        (codes "RETR")
        (codes "1" ∷ [])
        (connection transaction true logged_in)).0
dispatch_transaction-Calm_example =
    dispatch_transaction-Calm mem_session test_options retr (codes "RETR") (codes "1" ∷ [])
      (connection transaction true logged_in) refl

handle_stls_lem_example :
    StlsOutcome mem_session test_options
      (connection authorization false logged_in)
      (handle_stls mem_session test_options (connection authorization false logged_in))
handle_stls_lem_example =
    handle_stls_lem mem_session test_options (connection authorization false logged_in)

no_tls : IsShrinking mem_session test_options
no_tls handshake w incoming link h e = absurd (ground arith)

serve-ends_example :
    ((serve mem_session test_options 20 (connection authorization true logged_in)).1 ≡ true)
    × IsTornDown mem_session test_options
        (serve mem_session test_options 20 (connection authorization true logged_in)).0
serve-ends_example =
    serve-ends mem_session test_options 20 (connection authorization true logged_in) refl no_tls
      (omega arith)

opened : IsOpen mem_session test_options (connection authorization true logged_in)
opened = record { owned = refl; staying = refl; below = λ limit e positive. positive }

goes_on : (round mem_session test_options (connection authorization true logged_in)).1 ≡ true
unfolding round read_line equal trim_space dispatch verb_of to_upper index_blank handle_capa
    auth_allowed flush put join
goes_on = refl

round-IsOpen_example :
    IsOpen mem_session test_options
      (round mem_session test_options (connection authorization true logged_in)).0
round-IsOpen_example =
    round-IsOpen mem_session test_options (connection authorization true logged_in) opened goes_on

first_number : parse_msg_num (codes "1" ∷ []) ≡ number 1
unfolding parse_msg_num
first_number = refl

one_line : parse_int (codes "1") ≡ some 1
unfolding parse_int
one_line = refl

first_retr :
    mem_session.retr 1 (one_user, logged_in) ≡ ((one_user, logged_in), ok (new_body first.content))
unfolding mem_retr msg_at elem
first_retr = refl

first_top :
    mem_session.top 1 1 (one_user, logged_in)
    ≡ ((one_user, logged_in), ok (new_body (codes "S: a\r\n\r\n.x\r\n")))
unfolding mem_top msg_at elem top_bytes body_start index top_loop
first_top = refl

handle_retr-IsDelivered_example :
    let c = connection transaction true logged_in in
    IsDelivered mem_session test_options
      (retr_status mem_session test_options (new_body first.content))
      (new_body first.content)
      (record c { session = (one_user, logged_in) })
      (handle_retr mem_session test_options (codes "1" ∷ []) c)
handle_retr-IsDelivered_example =
    handle_retr-IsDelivered mem_session test_options (codes "1" ∷ []) 1 (one_user, logged_in)
      (new_body first.content) (connection transaction true logged_in) first_number first_retr
      (refl, tt)

read_line_lem_example :
    let r = new_reader (arrives (codes "NO") ∷ arrives (codes "OP\r\n") ∷ []) in
    Bounded 10 (read_line 10 r).0 × (read_loop 14 10 [] r ≡ read_line 10 r)
read_line_lem_example =
    read_line_lem 10 3 (new_reader (arrives (codes "NO") ∷ arrives (codes "OP\r\n") ∷ []))
