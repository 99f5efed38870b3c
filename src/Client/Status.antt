-- ===== src/Client/Status.antt =====
-- STAT, and LIST and UIDL of one message, from pop3server/conn.go to pop3client/commands.go.
use go_pop.Prelude.{
  ℕ, suc, ◌≤◌, ℤ, true, false, Option, some, List, [], ◌∷◌, ◌++◌, length, length-append, ◌≡◌, refl,
  ap, sym, ◌∙◌, arith, All, All-append, append_assoc,
}
use mathlib.Core.List.{append_cancel_left}
use mathlib.Core.Path.{subst}
use go_pop.Text.{Bytes, codes, fields, has_prefix, cut_prefix, trim_prefix, trim_space, is_space}
use go_pop.Text.Fields.{Solid, fields-two, fields-word-rest, trim_space-two}
use go_pop.Decimal.{format_int}
use go_pop.Decimal.RoundTrip.{IsInt64, parse_int64-format_int}
use go_pop.Protocol.{MessageInfo, MessageUidl}
use go_pop.Server.Wire.Writing.{contents, IsAlive, put-IsReliable}
use go_pop.Server.Wire.Stream.{stream}
use go_pop.Server.Parse.{is_crlf, number, parse_optional_msg_num}
use go_pop.Server.Errors.{ok}
use go_pop.Server.Session.{Session}
use go_pop.Server.Conn.{Conn, Options, write_string}
use go_pop.Server.Maildrop.{
  crlf, info_line, uidl_line, handle_stat, handle_list, handle_uidl, reply_items,
}
use go_pop.Client.{Client, Result, done, err, protocol, go_on, ◌>>◌, give, is_ok, expect_ok, cmd}
use go_pop.Client.Commands.{
  stat, stat_numbers, parsed_or, one_item, list_one, uidl_one, parse_num_size, parse_num_uid,
}
use go_pop.Client.Exchange.{cmd_lem}
use go_pop.Client.Items.{
  format_int-IsWord, IsWord, two_numbers_lem, info_text, uidl_text, info_line-text, uidl_line-text,
  IsUid, parse_num_size-info_text, parse_num_uid-uidl_text,
}
use go_pop.Client.Sent.{Solid-clean}

-- The client has the value, its command is on the wire, and the bytes behind the response are left.
abbrev pub IsValue : {A : Type 0} → Bytes → A → Bytes → Client → Result A × Client → Type 0
IsValue command a rest c x =
    (x.0 ≡ done a)
    × (x.1.writer.sent ≡ contents c.writer ++ (command ++ codes "\r\n"))
    × (stream x.1.reader ≡ rest)

-- A value that is parsed from the status line.
parsed :
    {A : Type 0} (command status rest : Bytes) (f : Bytes → Result A) (a : A) (c : Client)
    → IsAlive c.writer
    → All (λ b. is_crlf b ≡ false) status
    → length status ≤ c.max_line
    → is_ok status ≡ true
    → stream c.reader ≡ (status ++ crlf) ++ rest
    → f status ≡ done a
    → IsValue command a rest c
        (go_on (cmd command c) (λ status. do give (expect_ok status); give (f status)))
parsed command status rest f a c alive clean small positive e p =
    let (w, r, given, on_wire, behind) =
      cmd_lem command status rest c alive clean small (e ∙ append_assoc status crlf rest) in
    let c' = record c { reader = r; writer = w } in
    let k = λ (status : Bytes). give (expect_ok status) >> give (f status) in
    let accepted : k status c' ≡ (done a, c') = rw (positive, p) refl in
    subst (IsValue command a rest c) (sym (ap (λ x. go_on x k) given ∙ accepted))
      (refl, on_wire.1, behind)

-- "+OK " and two words.
abbrev two_words : Bytes → Bytes → Bytes
two_words a b = codes "+OK " ++ (a ++ b' ' ∷ b)

two_words_lem :
    (a b : Bytes)
    → IsWord a
    → IsWord b
    → All (λ c. is_crlf c ≡ false) (two_words a b)
      × (is_ok (two_words a b) ≡ true)
      × (fields (two_words a b) ≡ codes "+OK" ∷ a ∷ b ∷ [])
      × (trim_space (trim_prefix (two_words a b) (codes "+OK")) ≡ a ++ b' ' ∷ b)
unfolding is_ok has_prefix cut_prefix trim_prefix
two_words_lem a b (sa, na) (sb, nb) =
    let head : Solid (codes "+OK") = unfold is_space in ground arith in
    (
      All-append (λ c. is_crlf c ≡ false) (codes "+OK ") (a ++ b' ' ∷ b) (ground arith)
          (All-append (λ c. is_crlf c ≡ false) a (b' ' ∷ b) (Solid-clean a sa)
            (refl, Solid-clean b sb)),
      refl,
      fields-word-rest (codes "+OK") (a ++ b' ' ∷ b) head (λ e. cc)
          ∙ ap (λ fs. codes "+OK" ∷ fs) (fields-two a b sa na sb nb),
      trim_space-two a b sa na sb nb,
    )

-- What a handler adds that writes one text.
one_text :
    {S : Type 0} (text sent : Bytes) (s : S) (sc d : Conn S)
    → d ≡ write_string text (record sc { session = s })
    → IsAlive sc.writer
    → contents d.writer ≡ contents sc.writer ++ sent
    → sent ≡ text
unfolding write_string
one_text text sent s sc d e alive out =
    append_cancel_left (contents sc.writer) sent text
      (sym out ∙ ap (λ c. contents c.writer) e ∙ put-IsReliable.appends text sc.writer alive)

-- A status line that two words follow, and the client's bound.
line_bound :
    (max_line : ℕ) (status sent : Bytes)
    → sent ≡ status ++ crlf
    → length sent ≤ max_line
    → length status ≤ max_line
line_bound max_line status sent e h = omega (arith, ap length e, length-append status crlf)

-- A single item on the status line.
single :
    {A : Type 0} (parse : Bytes → Option A) (command a b sent rest : Bytes) (item : A) (c : Client)
    → IsWord a
    → IsWord b
    → sent ≡ two_words a b ++ crlf
    → IsAlive c.writer
    → stream c.reader ≡ sent ++ rest
    → length sent ≤ c.max_line
    → parse (a ++ b' ' ∷ b) ≡ some item
    → IsValue command item rest c (one_item command parse c)
unfolding one_item
single parse command a b sent rest item c wa wb same alive e small p =
    let (clean, positive, _, trimmed) = two_words_lem a b wa wb in
    let status = two_words a b in
    parsed command status rest _ item c alive clean (line_bound c.max_line status sent same small)
      positive (e ∙ ap (λ u. u ++ rest) same)
      (ap (λ o. parsed_or (err (protocol status)) o) (ap parse trimmed ∙ p))

module _ {S : Type 0} (iface : Session S) (opts : Options S) (s : S) (sc : Conn S) (c : Client)
    (sent rest : Bytes) (alive : IsAlive sc.writer) (alive' : IsAlive c.writer)
    (e : stream c.reader ≡ sent ++ rest) (small : length sent ≤ c.max_line) where
  -- STAT of the server, on a network that takes every write, and STAT of the client on what the server
  -- has sent, where it is not above the client's bound: the client returns exactly the count and the
  -- size that the session gave, if they are int64 numbers, its command is on the wire, and the bytes
  -- behind the response are left.
  pub stat-handle_stat :
      (count size : ℤ)
      → iface.stat sc.session ≡ (s, ok (count, size))
      → contents (handle_stat iface opts sc).writer ≡ contents sc.writer ++ sent
      → IsInt64 count
      → IsInt64 size
      → IsValue (codes "STAT") (count, size) rest c (stat c)
  unfolding stat handle_stat stat_numbers
  stat-handle_stat count size given out hc hs =
      let a = format_int count in
      let b = format_int size in
      let (clean, positive, split, _) =
        two_words_lem a b (format_int-IsWord count) (format_int-IsWord size) in
      let status = two_words a b in
      let whole : codes "+OK " ++ (a ++ (codes " " ++ (b ++ crlf))) ≡ status ++ crlf =
        ap (λ u. codes "+OK " ++ u) (sym (append_assoc a (b' ' ∷ b) crlf)) in
      let same : sent ≡ status ++ crlf =
        one_text (codes "+OK " ++ (a ++ (codes " " ++ (b ++ crlf)))) sent s sc
          (handle_stat iface opts sc) (rw given refl) alive out
        ∙ whole in
      let numbers : stat_numbers (fields status) ≡ some (count, size) =
        ap stat_numbers split
        ∙ two_numbers_lem a b count size (parse_int64-format_int count hc)
            (parse_int64-format_int size hs) in
      parsed (codes "STAT") status rest _ (count, size) c alive' clean
        (line_bound c.max_line status sent same small) positive (e ∙ ap (λ u. u ++ rest) same)
        (ap (λ o. parsed_or (err (protocol status)) o) numbers)

  -- LIST and UIDL of one message in the same way: the client returns exactly the item that the
  -- session gave.
  pub list_one-handle_list :
      (args : List Bytes) (m : ℕ) (msg : ℤ) (i : MessageInfo)
      → parse_optional_msg_num args ≡ number (suc m)
      → iface.list (suc m) sc.session ≡ (s, ok (i ∷ []))
      → contents (handle_list iface opts args sc).writer ≡ contents sc.writer ++ sent
      → IsInt64 i.num
      → IsInt64 i.size
      → IsValue (codes "LIST " ++ format_int msg) i rest c (list_one msg c)
  unfolding list_one handle_list reply_items info_text
  list_one-handle_list args m msg i asked given out hn hs =
      let same =
        one_text (codes "+OK " ++ info_line i) sent s sc (handle_list iface opts args sc)
          (rw (asked, handle_list, given) refl) alive out
        ∙ ap (λ u. codes "+OK " ++ u) (info_line-text i) in
      single parse_num_size (codes "LIST " ++ format_int msg) (format_int i.num) (format_int i.size)
        sent rest i c (format_int-IsWord i.num) (format_int-IsWord i.size) same alive' e small
        (parse_num_size-info_text i hn hs)

  pub uidl_one-handle_uidl :
      (args : List Bytes) (m : ℕ) (msg : ℤ) (u : MessageUidl)
      → parse_optional_msg_num args ≡ number (suc m)
      → iface.uidl (suc m) sc.session ≡ (s, ok (u ∷ []))
      → contents (handle_uidl iface opts args sc).writer ≡ contents sc.writer ++ sent
      → IsInt64 u.num
      → IsUid u
      → IsValue (codes "UIDL " ++ format_int msg) u rest c (uidl_one msg c)
  unfolding uidl_one handle_uidl reply_items uidl_text
  uidl_one-handle_uidl args m msg u asked given out hn hu =
      let same =
        one_text (codes "+OK " ++ uidl_line u) sent s sc (handle_uidl iface opts args sc)
          (rw (asked, handle_uidl, given) refl) alive out
        ∙ ap (λ t. codes "+OK " ++ t) (uidl_line-text u hu) in
      single parse_num_uid (codes "UIDL " ++ format_int msg) (format_int u.num) u.unique_id sent
        rest u c (format_int-IsWord u.num) hu same alive' e small (parse_num_uid-uidl_text u hn hu)
