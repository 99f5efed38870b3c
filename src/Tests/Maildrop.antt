-- ===== src/Tests/Maildrop.antt =====
-- Examples for the in-memory maildrop.
use go_pop.Prelude.{
  pos, to_int64, true, none, some, [], ◌∷◌, ◌++◌, elem, length, if◌then◌else◌, ◌>>=◌, ◌≡◌, refl,
  arith,
}
use go_pop.Text.{Bytes, codes, equal}
use go_pop.DotStuff.Spec.{canonical}
use go_pop.DotStuff.Receive.{receive}
use go_pop.Server.Errors.{ok}
use go_pop.Server.Parse.{number, parse_msg_num}
use go_pop.Server.Wire.Writing.{contents}
use go_pop.Server.Conn.{transaction, response_line}
use go_pop.Server.Maildrop.{handle_retr}
use go_pop.Mem.{
  new, find_user, add_message, login, stat, list, uidl, retr, info, uidl_of, dele, rset, quit,
  top_bytes,
}
use go_pop.Mem.Live.{
  live, visible, items, octets, value, find, without, views_agree, single_lem, numbered, dele_lem,
}
use go_pop.Mem.Accounts.{login_lem, IsAdded, add_message_lem}
use go_pop.Mem.Addresses.{user, message, IsSound, run_ops, run_ops-IsSound, Apart}
use go_pop.Mem.Quit.{IsValid, messages_of}
use go_pop.Mem.Quit.Maildrop.{quit_lem}
use go_pop.Mem.Top.{IsTop, top_bytes-first_lines}
use go_pop.Mem.Interface.{mem_session}
use go_pop.Mem.Interface.Retrieval.{retr-receive}
use go_pop.Tests.{first, second, ann, ann_account, one_user, logged_in, test_options, connection}

views_agree_example :
    (list 0 logged_in ≡ ok (items info (visible logged_in)))
    × (uidl 0 logged_in ≡ ok (items uidl_of (visible logged_in)))
    × (stat logged_in ≡ (pos (length (visible logged_in)), to_int64 (octets (visible logged_in))))
views_agree_example = views_agree logged_in

single_lem_example :
    (value (retr 1 logged_in) ≡ (find 1 (visible logged_in) >>= λ m. some m.content))
    × (value (list 1 logged_in) ≡ (find 1 (visible logged_in) >>= λ m. some (info 1 m ∷ [])))
    × (value (uidl 1 logged_in) ≡ (find 1 (visible logged_in) >>= λ m. some (uidl_of 1 m ∷ [])))
single_lem_example = single_lem 1 logged_in (omega arith)

dele_lem_example :
    (value (dele 1 logged_in).1 ≡ (find 1 (visible logged_in) >>= λ _. some tt))
    × (visible (dele 1 logged_in).0 ≡ without 1 (visible logged_in))
    × (visible (rset logged_in) ≡ numbered 0 logged_in.msgs)
    × (visible (rset (dele 1 logged_in).0) ≡ numbered 0 logged_in.msgs)
dele_lem_example = dele_lem 1 logged_in

known : find_user ann one_user.users ≡ some ann_account
unfolding find_user
known = refl

apart : Apart (first ∷ second ∷ [])
apart = ground arith

valid : IsValid logged_in
unfolding elem
valid = ground arith

quit_lem_example :
    (find_user ann (quit one_user logged_in).0.users ≡ (
      if equal ann ann
      then some (record ann_account { messages = messages_of (visible logged_in) ++ [] })
      else find_user ann one_user.users))
    × ((quit one_user logged_in).1 ≡ 1)
quit_lem_example = quit_lem one_user logged_in ann_account [] ann known refl apart valid

login_lem_example :
    (value (login ann (codes "no") one_user logged_in).1 ≡ (
      find_user ann one_user.users >>= λ a.
      if equal a.password (codes "no") then some tt else none))
    × ((login ann (codes "no") one_user logged_in).0 ≡ (elim (find_user ann one_user.users) [
      | none ↦ logged_in
      | some a ↦
          if equal a.password (codes "no")
          then record logged_in { username = ann; msgs = a.messages }
          else logged_in
    ]))
login_lem_example = login_lem ann (codes "no") one_user logged_in

add_message_lem_example :
    (find_user ann (add_message ann (codes "u2") (codes "new") one_user).0.users ≡ (
      if equal ann ann
      then (find_user ann one_user.users >>= λ a. some (record a {
        messages = a.messages ++ record { addr = 2; uid = codes "u2"; content = codes "new" } ∷ [];
      }))
      else find_user ann one_user.users))
    × IsAdded one_user
        (find_user ann one_user.users)
        (add_message ann (codes "u2") (codes "new") one_user)
add_message_lem_example = add_message_lem ann (codes "u2") (codes "new") ann one_user

run_ops-IsSound_example : IsSound (
    run_ops
      (user ann (codes "pw")
        ∷ message ann (codes "u0") (codes "x")
        ∷ message ann (codes "u1") []
        ∷ [])
      new)
run_ops-IsSound_example = run_ops-IsSound (
    user ann (codes "pw") ∷ message ann (codes "u0") (codes "x") ∷ message ann (codes "u1") [] ∷ [])

top_bytes-first_lines_example : IsTop first.content 1 (top_bytes first.content 1)
top_bytes-first_lines_example = top_bytes-first_lines first.content 1

number_one : parse_msg_num (codes "1" ∷ []) ≡ number 1
unfolding parse_msg_num
number_one = refl

first_shown : find 1 (visible logged_in) ≡ some first
unfolding live elem
first_shown = refl

retr-receive_example :
    (wire : Bytes) × (contents
        (handle_retr mem_session test_options
          (codes "1" ∷ [])
          (connection transaction true logged_in)).writer
      ≡ response_line (codes "+OK") (codes "Message follows") ++ wire)
    × (receive [] wire ≡ some (canonical true 0 first.content, []))
    × ((handle_retr mem_session test_options
          (codes "1" ∷ [])
          (connection transaction true logged_in)).session
        ≡ (one_user, logged_in))
retr-receive_example =
    retr-receive test_options (codes "1" ∷ []) 1 first (connection transaction true logged_in)
      number_one (omega arith) first_shown (refl, tt)
