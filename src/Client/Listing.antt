-- ===== src/Client/Listing.antt =====
-- LIST and UIDL from pop3server/conn.go to pop3client/commands.go.
use go_pop.Prelude.{
  ℕ, suc, ◌≤◌, true, false, Option, some, List, [], ◌∷◌, ◌++◌, length, ltb, ◌==◌, ◌≡◌, refl, ap,
  sym, ◌∙◌, arith, All, All-append, All-mono, append_assoc,
}
use mathlib.Core.List.{append_cancel_left, append_cancel_right}
use mathlib.Core.Path.{subst}
use go_pop.Text.{Bytes, codes, equal, has_prefix, cut_prefix}
use go_pop.Decimal.{format}
use go_pop.Decimal.RoundTrip.{IsInt64}
use go_pop.DotStuff.Spec.{terminator}
use go_pop.Protocol.{MessageInfo, MessageUidl}
use go_pop.Server.Wire.{Writer, Reader, drop_cr}
use go_pop.Server.Wire.Writing.{contents, IsAlive}
use go_pop.Server.Wire.Stream.{stream}
use go_pop.Server.Parse.{is_crlf, number, parse_optional_msg_num}
use go_pop.Server.Errors.{ok}
use go_pop.Server.Session.{Session}
use go_pop.Server.Conn.{Conn, Options}
use go_pop.Server.Maildrop.{crlf, info_line, uidl_line, handle_list, handle_uidl}
use go_pop.Server.Maildrop.Listing.{
  IsLine, IsListed, lines_of, format-Starts, info_line-IsLine, uidl_line-IsLine, list-IsListed,
  uidl-IsListed,
}
use go_pop.Client.{
  Client, Result, done, ◌>>=◌, ◌>>◌, give, is_ok, expect_ok, read_multi_line, unstuff_line,
}
use go_pop.Client.Commands.{parse_num_size, parse_num_uid, parse_lines, multi_items, list, uidl}
use go_pop.Client.Response.{Response, ends, more, Reads, read_multi_line_lem}
use go_pop.Client.Receiver.{fits}
use go_pop.Client.Exchange.{Commanded, cmd_lem, after_cmd, fits-text}
use go_pop.Server.Wire.Lines.{StartsWith-text, drop_cr-text}
use go_pop.Client.Items.{
  info_text, uidl_text, info_line-text, uidl_line-text, IsUid, parse_num_size-info_text,
  parse_num_uid-uidl_text,
}

-- The text of a line is parsed as the item.
abbrev ParsedAs : {A : Type 0} → (Bytes → Option A) → (A → Bytes) → A → Type 0
ParsedAs parse item a = (text : Bytes) × (item a ≡ text ++ crlf) × (parse text ≡ some a)

-- Lines that parse, as a response.
abbrev Lists : {A : Type 0} → (Bytes → Option A) → List A → ℕ → Bytes → Bytes → Type 0
Lists parse items max_line s rest =
    (ls : List Bytes) × Response max_line s ls rest
    × (parse_lines parse ls ≡ done items)
    × (length ls ≡ length items)

undotted :
    (first : ℕ) (text : Bytes)
    → (first == b'.') ≡ false
    → (equal (first ∷ text) (codes ".") ≡ false) × (unstuff_line (first ∷ text) ≡ first ∷ text)
unfolding equal unstuff_line
undotted first text h = rw h (ground arith, refl)

parse_more :
    {A : Type 0} (parse : Bytes → Option A) (text : Bytes) (ls : List Bytes) (a : A) (as' : List A)
    → parse text ≡ some a
    → parse_lines parse ls ≡ done as'
    → parse_lines parse (text ∷ ls) ≡ done (a ∷ as')
unfolding parse_lines
parse_more parse text ls a as' h k = rw (h, parse_lines, k) refl

pub IsLine-clean : (text : Bytes) → IsLine (text ++ crlf) → All (λ c. is_crlf c ≡ false) text
IsLine-clean text line =
    subst (All (λ c. is_crlf c ≡ false))
      (append_cancel_right (line.first ∷ line.text) text crlf (sym line.whole)) line.clean

-- One more text in front of a response, on a line that needs no stuffing.
pub line_before :
    (text more' rest : Bytes) (ls : List Bytes) (max_line : ℕ)
    → IsLine (text ++ crlf)
    → fits max_line 0 (text ++ b'\r' ∷ b'\n' ∷ more') ≡ true
    → Response max_line (more' ++ rest) ls rest
    → Response max_line (text ++ b'\r' ∷ b'\n' ∷ (more' ++ rest)) (text ∷ ls) rest
line_before text more' rest ls max_line line small response =
    let same : line.first ∷ line.text ≡ text =
      append_cancel_right (line.first ∷ line.text) text crlf (sym line.whole) in
    let clean = IsLine-clean text line in
    let (plain, kept) = undotted line.first line.text line.undotted in
    let short = (fits-text max_line 0 text more' clean small).0 in
    let whole = drop_cr-text text in
    more (StartsWith-text text (more' ++ rest) clean)
      (ap (λ l. equal l (codes ".")) (whole ∙ sym same) ∙ plain) (rw whole (omega arith))
      (ap unstuff_line (whole ∙ sym same) ∙ kept ∙ same) response

no_item_lines :
    {A : Type 0} (parse : Bytes → Option A) (max_line : ℕ) (rest : Bytes)
    → fits max_line 0 terminator ≡ true
    → Lists parse [] max_line (terminator ++ rest) rest
unfolding parse_lines
no_item_lines parse max_line rest small =
    let (short, _) = fits-text max_line 0 (codes ".") [] (refl, tt) small in
    (
      [],
      ends (StartsWith-text (codes ".") rest (refl, tt)) (unfold equal drop_cr in refl)
          (unfold drop_cr in omega arith),
      refl,
      refl,
    )

item_lines :
    {A : Type 0} (parse : Bytes → Option A) (item : A → Bytes) (items : List A) (max_line : ℕ)
    (rest : Bytes)
    → ((a : A) → IsLine (item a))
    → All (ParsedAs parse item) items
    → fits max_line 0 (lines_of item items ++ terminator) ≡ true
    → Lists parse items max_line ((lines_of item items ++ terminator) ++ rest) rest
item_lines parse item [] max_line rest line parsed small = no_item_lines parse max_line rest small
item_lines parse item (a ∷ as') max_line rest line ((text, e, p), parsed) small =
    let later = lines_of item as' ++ terminator in
    let split : lines_of item (a ∷ as') ++ terminator ≡ text ++ b'\r' ∷ b'\n' ∷ later =
      append_assoc (item a) (lines_of item as') terminator
      ∙ ap (λ t. t ++ later) e
      ∙ append_assoc text crlf later in
    let small' = ap (fits max_line 0) (sym split) ∙ small in
    let clean = IsLine-clean text (subst IsLine e (line a)) in
    let (ls, response, all, count) =
      item_lines parse item as' max_line rest line parsed
        (fits-text max_line 0 text later clean small').1 in
    (
      text ∷ ls,
      subst (λ u. Response max_line u (text ∷ ls) rest)
          (sym (ap (λ u. u ++ rest) split ∙ append_assoc text (b'\r' ∷ b'\n' ∷ later) rest))
          (line_before text later rest ls max_line (subst IsLine e (line a)) small' response),
      parse_more parse text ls a as' p all,
      ap suc count,
    )

-- LIST or UIDL of the client, on what it parses.
multi_items_lem :
    {A : Type 0} (parse : Bytes → Option A) (command status s rest : Bytes) (items : List A)
    (c : Client)
    → IsAlive c.writer
    → All (λ b. is_crlf b ≡ false) status
    → length status ≤ c.max_line
    → is_ok status ≡ true
    → stream c.reader ≡ status ++ b'\r' ∷ b'\n' ∷ s
    → Lists parse items c.max_line s rest
    → length items ≤ c.max_resp_lines
    → (w : Writer) × (r : Reader) × (multi_items command parse c
        ≡ (done items, record c { reader = r; writer = w }))
      × Commanded c command w
      × (stream r ≡ rest)
unfolding multi_items
multi_items_lem parse command status s rest items c alive clean small positive e
      (ls, response, all, count) few =
    let (w, r, given, on_wire, behind) = cmd_lem command status s c alive clean small e in
    let c1 = record c { reader = r; writer = w } in
    let read' =
      read_multi_line_lem c1 rest ls
        (subst (λ u. Response c.max_line u ls rest) (sym behind) response) in
    let within : ltb c.max_resp_lines (length ls) ≡ false = ground arith in
    let (r', e', behind') : Reads c1 ls rest (read_multi_line c1) = rw within at read' in
    (
      w,
      r',
      after_cmd command status c c1
            (λ status. do
              give (expect_ok status)
              lines ← read_multi_line
              give (parse_lines parse lines))
            given
          ∙ rw (positive, e', all) refl,
      on_wire,
      behind',
    )

-- The status line in front of a list.
abbrev head : ℕ → Bytes
head n = codes "+OK " ++ (format n ++ codes " messages")

head_lem : (n : ℕ) → All (λ c. is_crlf c ≡ false) (head n) × (is_ok (head n) ≡ true)
unfolding is_ok has_prefix cut_prefix
head_lem n = (
  (
    refl,
    (
      refl,
      (
        refl,
        (
          refl,
          All-append (λ c. is_crlf c ≡ false) (format n) (codes " messages") (format-Starts n).0
              (refl, (refl, (refl, (refl, (refl, (refl, (refl, (refl, (refl, tt))))))))),
        ),
      ),
    ),
  ),
  refl,
)

-- The client has the items, its command is on the wire, and the bytes behind the response are left.
abbrev pub IsGiven :
    {A : Type 0} → Bytes → List A → Bytes → Client → Result (List A) × Client → Type 0
IsGiven command items rest c x =
    (x.0 ≡ done items)
    × (x.1.writer.sent ≡ contents c.writer ++ (command ++ codes "\r\n"))
    × (stream x.1.reader ≡ rest)

from_server :
    {A S : Type 0} (parse : Bytes → Option A) (item : A → Bytes) (items : List A)
    (command sent rest : Bytes) (sc d : Conn S) (c : Client)
    → IsListed item items sc d
    → contents d.writer ≡ contents sc.writer ++ sent
    → ((a : A) → IsLine (item a))
    → All (ParsedAs parse item) items
    → IsAlive c.writer
    → stream c.reader ≡ sent ++ rest
    → fits c.max_line 0 sent ≡ true
    → length items ≤ c.max_resp_lines
    → IsGiven command items rest c (multi_items command parse c)
from_server parse item items command sent rest sc d c (_, wire, _) out line parsed alive e small
      few =
    let n = length items in
    let body = lines_of item items ++ terminator in
    let split : sent ≡ head n ++ b'\r' ∷ b'\n' ∷ body =
      append_cancel_left (contents sc.writer) sent
        (codes "+OK " ++ (format n ++ codes " messages\r\n") ++ body) (sym out ∙ wire)
      ∙ ap (λ u. codes "+OK " ++ u)
          (append_assoc (format n) (codes " messages\r\n") body
            ∙ sym (append_assoc (format n) (codes " messages") (b'\r' ∷ b'\n' ∷ body))) in
    let (clean, positive) = head_lem n in
    let (short, small') =
      fits-text c.max_line 0 (head n) body clean (ap (fits c.max_line 0) (sym split) ∙ small) in
    let (w, r, given, on_wire, behind) =
      multi_items_lem parse command (head n) (body ++ rest) rest items c alive clean (omega arith)
        positive (e ∙ ap (λ u. u ++ rest) split ∙ append_assoc (head n) (b'\r' ∷ b'\n' ∷ body) rest)
        (item_lines parse item items c.max_line rest line parsed small') few in
    subst (IsGiven command items rest c) (sym given) (refl, on_wire.1, behind)

module _ {S : Type 0} (iface : Session S) (opts : Options S) (args : List Bytes) (s : S)
    (sc : Conn S) (c : Client) (sent rest : Bytes) (parsed : parse_optional_msg_num args ≡ number 0)
    (alive : IsAlive sc.writer) (alive' : IsAlive c.writer) (e : stream c.reader ≡ sent ++ rest)
    (small : fits c.max_line 0 sent ≡ true) where
  -- LIST of the server, on a network that takes every write, and LIST of the client on what the
  -- server has sent (with any bytes behind it, and however the network cuts it), where no line of it
  -- is above the client's bound, nor are there too many: if numbers and sizes are int64 numbers, the client
  -- returns exactly the list that the session gave, its command is on the wire, and the bytes behind the response are left.
  pub list-handle_list :
      (infos : List MessageInfo)
      → iface.list 0 sc.session ≡ (s, ok infos)
      → contents (handle_list iface opts args sc).writer ≡ contents sc.writer ++ sent
      → All (λ (i : MessageInfo). IsInt64 i.num × IsInt64 i.size) infos
      → length infos ≤ c.max_resp_lines
      → IsGiven (codes "LIST") infos rest c (list c)
  unfolding list
  list-handle_list infos sized out sound few =
      from_server parse_num_size info_line infos (codes "LIST") sent rest sc
        (handle_list iface opts args sc) c
        (list-IsListed iface opts args s infos sc parsed sized alive) out info_line-IsLine
        (All-mono (λ (i : MessageInfo). IsInt64 i.num × IsInt64 i.size)
          (ParsedAs parse_num_size info_line) infos
          (λ i (hn, hs). (info_text i, info_line-text i, parse_num_size-info_text i hn hs)) sound)
        alive' e small few

  -- UIDL of the server, on a network that takes every write, and UIDL of the client on what the
  -- server has sent, under the same bounds: where the unique-ids have no white space and are not
  -- empty, and the message numbers are int64 numbers, the client returns exactly the unique-ids that
  -- the session gave, its command is on the wire, and the bytes behind the response are left.
  pub uidl-handle_uidl :
      (uidls : List MessageUidl)
      → iface.uidl 0 sc.session ≡ (s, ok uidls)
      → contents (handle_uidl iface opts args sc).writer ≡ contents sc.writer ++ sent
      → All (λ (u : MessageUidl). IsInt64 u.num × IsUid u) uidls
      → length uidls ≤ c.max_resp_lines
      → IsGiven (codes "UIDL") uidls rest c (uidl c)
  unfolding uidl
  uidl-handle_uidl uidls named out sound few =
      from_server parse_num_uid uidl_line uidls (codes "UIDL") sent rest sc
        (handle_uidl iface opts args sc) c
        (uidl-IsListed iface opts args s uidls sc parsed named alive) out uidl_line-IsLine
        (All-mono (λ (u : MessageUidl). IsInt64 u.num × IsUid u) (ParsedAs parse_num_uid uidl_line)
          uidls (λ u (hn, h). (uidl_text u, uidl_line-text u h, parse_num_uid-uidl_text u hn h))
          sound)
        alive' e small few
