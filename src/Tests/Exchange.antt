-- ===== src/Tests/Exchange.antt =====
-- Examples for pop3client and pop3server together.
use go_pop.Prelude.{
  to_int64, suc, ◌≤◌, pos, true, false, none, [], ◌∷◌, ◌++◌, length, elem, ◌≡◌, refl, arith,
}
use mathlib.Core.List.{flatten}
use go_pop.Text.{Bytes, codes, is_space, fields, equal, trim_space, to_upper}
use go_pop.Text.Fields.{Solid}
use go_pop.Decimal.{format, format_int}
use go_pop.Base64.{encode_base64}
use go_pop.DotStuff.Spec.{canonical, stuff, terminator, completion}
use go_pop.Server.Errors.{ok}
use go_pop.Server.Parse.{number, parse_msg_num, parse_optional_msg_num, contains_ctl, index_blank}
use go_pop.Server.Wire.{put, flush, read_line, arrives, Reader, new_reader}
use go_pop.Server.Wire.Writing.{contents}
use go_pop.Server.Wire.Stream.{stream, arriving}
use go_pop.Server.Conn.{
  Conn, authorization, transaction, on_command, response_line, auth_allowed, send_ok,
}
use go_pop.Mem.{stat as mem_stat, stat_loop}
use go_pop.Server.Maildrop.{handle_stat, handle_retr, info_line, uidl_line}
use go_pop.Server.Maildrop.Listing.{list-IsListed, uidl-IsListed}
use go_pop.Server.Login.{finish_login, mechanism_advertised}
use go_pop.Server.Dispatch.{dispatch, verb_of}
use go_pop.Server.Serve.{round, settle}
use go_pop.Server.Serve.Commands.{obeyed}
use go_pop.Mem.{msg_at, retr as mem_retr, info, uidl_of, listing, list_loop}
use go_pop.Mem.Interface.{State, mem_session, new_body, sasl_methods}
use go_pop.Client.{Client, done, auth_plain}
use go_pop.Client.Status.{IsValue, stat-handle_stat}
use go_pop.Client.Commands.{stat, list, uidl}
use go_pop.Client.Body.{new_body_reader, retr}
use go_pop.Client.Body.Whole.{read_all, IsWhole}
use go_pop.Client.Receiver.{fits}
use go_pop.Client.Served.{IsServed, retr-round}
use go_pop.Server.Serve.Limits.{IsOpen}
use go_pop.Client.Listing.{IsGiven, list-handle_list, uidl-handle_uidl}
use go_pop.Client.Sent.{round-numbered, round-auth_plain}
use go_pop.Tests.{first, ann, one_user, logged_in, test_options, connection}
use go_pop.Tests.Client.{client_on}

-- The server's connection.
abbrev server : Conn State
server = connection transaction true logged_in

-- What RETR sends for the first message.
abbrev sent_first : Bytes
sent_first =
    response_line (codes "+OK") (codes "Message follows")
    ++ (stuff true (canonical true 0 first.content) ++ terminator)

number_one : parse_msg_num (codes "1" ∷ []) ≡ number 1
unfolding parse_msg_num
number_one = refl

first_body :
    mem_session.retr 1 (one_user, logged_in) ≡ ((one_user, logged_in), ok (new_body first.content))
unfolding mem_retr msg_at elem
first_body = refl

short_lines : fits 4096 0 sent_first ≡ true
unfolding fits stuff canonical completion response_line
short_lines = refl

abbrev reader_of_first : Client
reader_of_first = client_on (arrives sent_first ∷ arrives (codes "+OK\r\n") ∷ [])

no_number : parse_optional_msg_num [] ≡ number 0
unfolding parse_optional_msg_num
no_number = refl

first_info :
    mem_session.list 0 (one_user, logged_in) ≡ ((one_user, logged_in), ok (info 1 first ∷ []))
unfolding listing elem list_loop
first_info = refl

first_uidl :
    mem_session.uidl 0 (one_user, logged_in) ≡ ((one_user, logged_in), ok (uidl_of 1 first ∷ []))
unfolding listing elem list_loop
first_uidl = refl

abbrev listed : Bytes → Bytes
listed item = codes "+OK " ++ (format 1 ++ codes " messages\r\n") ++ ((item ++ []) ++ terminator)

abbrev listing_reader : Bytes → Client
listing_reader sent = client_on (arrives sent ∷ [])

info_short : fits 4096 0 (listed (info_line (info 1 first))) ≡ true
unfolding fits info_line
info_short = refl

uidl_short : fits 4096 0 (listed (uidl_line (uidl_of 1 first))) ≡ true
unfolding fits uidl_line
uidl_short = refl

list-handle_list_example :
    let sent = listed (info_line (info 1 first)) in
    IsGiven (codes "LIST") (info 1 first ∷ []) [] (listing_reader sent) (list (listing_reader sent))
unfolding arriving
list-handle_list_example =
    let sent = listed (info_line (info 1 first)) in
    list-handle_list mem_session test_options [] (one_user, logged_in) server (listing_reader sent)
      sent [] no_number (refl, tt) (refl, tt) refl info_short (info 1 first ∷ []) first_info
      ((list-IsListed mem_session test_options [] (one_user, logged_in) (info 1 first ∷ []) server
        no_number first_info (refl, tt)).1)
      ((omega arith, omega arith), tt) (omega arith)

uidl-handle_uidl_example :
    let sent = listed (uidl_line (uidl_of 1 first)) in
    IsGiven
      (codes "UIDL")
      (uidl_of 1 first ∷ [])
      []
      (listing_reader sent)
      (uidl (listing_reader sent))
unfolding arriving is_space
uidl-handle_uidl_example =
    let sent = listed (uidl_line (uidl_of 1 first)) in
    uidl-handle_uidl mem_session test_options [] (one_user, logged_in) server (listing_reader sent)
      sent [] no_number (refl, tt) (refl, tt) refl uidl_short (uidl_of 1 first ∷ []) first_uidl
      ((uidl-IsListed mem_session test_options [] (one_user, logged_in) (uidl_of 1 first ∷ [])
        server no_number first_uidl (refl, tt)).1)
      ((omega arith, (ground arith, (λ e. cc))), tt) (omega arith)

abbrev sent_numbers : Bytes
sent_numbers =
    codes "+OK " ++ (format_int (pos 1) ++ (codes " " ++ (format_int (pos 15) ++ codes "\r\n")))

first_stat : mem_session.stat (one_user, logged_in) ≡ ((one_user, logged_in), ok (pos 1, pos 15))
unfolding mem_stat stat_loop elem to_int64
first_stat = refl

numbers_sent : contents (handle_stat mem_session test_options server).writer ≡ sent_numbers
unfolding handle_stat mem_stat stat_loop elem to_int64 put
numbers_sent = refl

numbers_short : length sent_numbers ≤ 4096
unfolding format_int
numbers_short = omega arith

abbrev stat_reader : Client
stat_reader = client_on (arrives sent_numbers ∷ arrives (codes "+OK\r\n") ∷ [])

stat-handle_stat_example :
    IsValue (codes "STAT") (pos 1, pos 15) (codes "+OK\r\n") stat_reader (stat stat_reader)
unfolding arriving
stat-handle_stat_example =
    stat-handle_stat mem_session test_options (one_user, logged_in) server stat_reader sent_numbers
      (codes "+OK\r\n") (refl, tt) (refl, tt) refl numbers_short (pos 1) (pos 15) first_stat
      numbers_sent (omega arith) (omega arith)

-- The bytes of AUTH PLAIN for ann, and a server that has them still to read.
abbrev sent_auth : Bytes
sent_auth = codes "AUTH PLAIN AGFubgBwdw==\r\n"

abbrev newcomer : Conn State
newcomer = record (connection authorization true logged_in) {
  reader = new_reader (arrives sent_auth ∷ []);
}

auth_sent : (auth_plain [] ann (codes "pw") (client_on [])).1.writer.sent ≡ sent_auth
unfolding auth_plain encode_base64 put flush read_line
auth_sent = refl

no_controls : contains_ctl ann ≡ false
unfolding contains_ctl
no_controls = refl

no_identity : contains_ctl [] ≡ false
unfolding contains_ctl
no_identity = refl

allowed : auth_allowed test_options newcomer ≡ true
unfolding auth_allowed
allowed = refl

offered :
    mechanism_advertised (sasl_methods.authenticate_mechanisms newcomer.session) (codes "PLAIN")
    ≡ true
unfolding mechanism_advertised
offered = refl

round-auth_plain_example :
    (r : Reader) × (raw : Bytes) × (let c' = record newcomer {
      reader = r;
      raw_arg = raw;
      last_err = none;
    } in
      let d =
        finish_login mem_session test_options
          (sasl_methods.authenticate_plain [] ann (codes "pw") newcomer.session)
          c' in
      round mem_session test_options newcomer
      ≡ settle mem_session test_options
          (record d { hooks = d.hooks ++ on_command (codes "AUTH") d.last_err ∷ [] }, false))
    × (stream r ≡ [])
unfolding arriving
round-auth_plain_example =
    round-auth_plain mem_session test_options sasl_methods [] ann (codes "pw") sent_auth []
      (client_on []) newcomer (omega arith) (ground arith) no_identity no_controls (refl, tt)
      auth_sent refl allowed refl offered refl (omega arith)

abbrev asking : Conn State
asking = record server { reader = new_reader (arrives (codes "RETR 1\r\nQUIT\r\n") ∷ []) }

retr_word : Solid (codes "RETR")
unfolding is_space
retr_word = ground arith

retr_stream :
    stream asking.reader
    ≡ (((codes "RETR" ++ codes " ") ++ format_int (pos 1)) ++ codes "\r\n") ++ codes "QUIT\r\n"
unfolding arriving format_int
retr_stream = refl

retr_short : length ((codes "RETR" ++ codes " ") ++ format_int (pos 1)) ≤ 1024
unfolding format_int
retr_short = omega arith

round-numbered_example :
    (r : Reader) × (round mem_session test_options asking
      ≡ obeyed mem_session test_options (codes "RETR") (format 1) (record asking { reader = r }))
    × (fields (format 1) ≡ format 1 ∷ [])
    × (parse_msg_num (format 1 ∷ []) ≡ number 1)
    × (stream r ≡ codes "QUIT\r\n")
round-numbered_example =
    round-numbered mem_session test_options b'R' (codes "ETR") (codes "QUIT\r\n") 1 asking retr_word
      (omega arith) (omega arith) retr_short retr_stream

asking_IsOpen : IsOpen mem_session test_options asking
asking_IsOpen = record { owned = refl; staying = refl; below = λ limit e positive. positive }

retr_asked :
    (retr (pos 1) reader_of_first).1.writer.sent
    ≡ contents reader_of_first.writer ++ codes "RETR 1\r\n"
unfolding retr put flush read_line format_int response_line stuff canonical
retr_asked = refl

asking_stream : stream asking.reader ≡ codes "RETR 1\r\n" ++ codes "QUIT\r\n"
unfolding arriving
asking_stream = refl

retr_answered :
    (round mem_session test_options asking).0.writer.sent ≡ contents asking.writer ++ sent_first
unfolding round put flush read_line response_line equal trim_space dispatch verb_of to_upper
    index_blank handle_retr parse_msg_num fields mem_retr msg_at elem send_ok stuff canonical
retr_answered = refl

retr-round_example :
    let text = canonical true 0 first.content in
    let (opened, c') = retr (pos 1) reader_of_first in
    (opened ≡ done new_body_reader)
    × IsWhole text (codes "+OK\r\n") (read_all (suc (length text)) (λ n. suc n) new_body_reader c')
    × IsServed mem_session test_options
        (one_user, logged_in)
        (codes "QUIT\r\n")
        (round mem_session test_options asking)
unfolding arriving flatten
retr-round_example =
    retr-round mem_session test_options 1 (one_user, logged_in) (new_body first.content) asking
      reader_of_first (codes "RETR 1\r\n") (codes "QUIT\r\n") sent_first (codes "+OK\r\n")
      (λ n. suc n) (omega arith) (omega arith) asking_IsOpen refl first_body refl (refl, tt)
      (refl, tt) retr_asked asking_stream (omega arith) retr_answered refl short_lines
      (λ n. omega arith)
