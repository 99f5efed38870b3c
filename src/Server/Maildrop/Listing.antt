-- ===== src/Server/Maildrop/Listing.antt =====
-- LIST and UIDL of pop3server/conn.go: the multi-line response, and what a receiver reads.
use go_pop.Prelude.{
  ℕ, suc, ℤ, pos, negsuc, Bool, true, false, some, List, [], ◌∷◌, ◌++◌, length, ◌==◌, ◌≡◌, ◌≢◌,
  refl, ap, sym, ◌∙◌, arith, All, All-append, append_assoc, append-nil,
}
use mathlib.Core.List.{flatten}
use go_pop.Text.{Bytes, codes}
use go_pop.Decimal.{format, format_int}
use go_pop.Decimal.Laws.{IsDigit, format_lem}
use go_pop.DotStuff.{lf}
use go_pop.DotStuff.Spec.{stuff, canonical, completion, terminator}
use go_pop.Server.Parse.{is_crlf, sanitize_response}
use go_pop.Server.Parse.Commands.{sanitize_response_lem}
use go_pop.Protocol.{MessageInfo, MessageUidl}
use go_pop.DotStuff.Receive.{receive}
use go_pop.DotStuff.Receive.RoundTrip.{receive-stuff}
use go_pop.Server.Errors.{ok}
use go_pop.Server.Parse.{number, parse_optional_msg_num}
use go_pop.Server.Session.{Session}
use go_pop.Server.Conn.{Conn, Options, write_string}
use go_pop.Server.Wire.Writing.{contents, IsAlive, put-IsReliable}
use go_pop.Server.Maildrop.{
  info_line, uidl_line, crlf, write_lines, reply_items, handle_list, handle_uidl,
}

-- A line that needs no stuffing.
pub record IsLine (l : Bytes) : Type 0 where
  pub first : ℕ
  pub text : Bytes
  pub whole : l ≡ (first ∷ text) ++ crlf
  pub clean : All (λ c. is_crlf c ≡ false) (first ∷ text)
  pub undotted : (first == b'.') ≡ false

canonical-clean :
    (t rest : Bytes) (start : Bool) (prev : ℕ)
    → All (λ c. is_crlf c ≡ false) t
    → canonical start prev (t ++ (crlf ++ rest)) ≡ t ++ (crlf ++ canonical true lf rest)
unfolding canonical
canonical-clean [] rest start prev h = ground arith
canonical-clean (c ∷ t) rest start prev (e, h) = ground (arith, canonical-clean t rest (c == lf) c)

stuff-clean :
    (t rest : Bytes)
    → All (λ c. is_crlf c ≡ false) t
    → stuff false (t ++ (crlf ++ rest)) ≡ t ++ (crlf ++ stuff true rest)
unfolding stuff
stuff-clean [] rest h = ground arith
stuff-clean (c ∷ t) rest (e, h) = ground (arith, stuff-clean t rest)

one_line :
    (first : ℕ) (text rest : Bytes) (prev : ℕ)
    → All (λ c. is_crlf c ≡ false) (first ∷ text)
    → (first == b'.') ≡ false
    → stuff true (canonical true prev ((first ∷ text) ++ (crlf ++ rest)))
      ≡ (first ∷ text) ++ (crlf ++ stuff true (canonical true lf rest))
unfolding stuff
one_line first text rest prev clean undotted =
    rw (canonical-clean (first ∷ text) rest true prev clean)
      (ground (arith, stuff-clean text (canonical true lf rest) clean.1))

-- Such lines are on the wire as they are.
stuff-lines :
    (ls : List Bytes) (prev : ℕ)
    → All IsLine ls
    → stuff true (canonical true prev (flatten ls)) ≡ flatten ls
unfolding flatten canonical stuff completion
stuff-lines [] prev h = refl
stuff-lines (l ∷ ls) prev (line, h) =
    let e : l ++ flatten ls ≡ (line.first ∷ line.text) ++ (crlf ++ flatten ls) =
      ap (λ r. r ++ flatten ls) line.whole
      ∙ append_assoc (line.first ∷ line.text) crlf (flatten ls) in
    ap (λ r. stuff true (canonical true prev r)) e
    ∙ one_line line.first line.text (flatten ls) prev line.clean line.undotted
    ∙ ap (λ r. (line.first ∷ line.text) ++ (crlf ++ r)) (stuff-lines ls lf h)
    ∙ sym e

canonical-lines :
    (ls : List Bytes) (prev : ℕ) → All IsLine ls → canonical true prev (flatten ls) ≡ flatten ls
unfolding flatten canonical completion
canonical-lines [] prev h = refl
canonical-lines (l ∷ ls) prev (line, h) =
    let e : l ++ flatten ls ≡ (line.first ∷ line.text) ++ (crlf ++ flatten ls) =
      ap (λ r. r ++ flatten ls) line.whole
      ∙ append_assoc (line.first ∷ line.text) crlf (flatten ls) in
    ap (canonical true prev) e
    ∙ canonical-clean (line.first ∷ line.text) (flatten ls) true prev line.clean
    ∙ ap (λ r. (line.first ∷ line.text) ++ (crlf ++ r)) (canonical-lines ls lf h)
    ∙ sym e

-- So a receiver reads them back.
read_back :
    (ls : List Bytes)
    → All IsLine ls
    → receive [] (flatten ls ++ terminator) ≡ some (flatten ls, [])
read_back ls h =
    ap (λ p. receive [] (p ++ terminator)) (sym (stuff-lines ls 0 h))
    ∙ ap (λ t. receive [] (stuff true (canonical true 0 (flatten ls)) ++ t))
        (sym (append-nil terminator))
    ∙ receive-stuff (flatten ls) []
    ∙ ap (λ p. some (p, [])) (canonical-lines ls 0 h)

digits-clean : (s : Bytes) → All IsDigit s → All (λ c. is_crlf c ≡ false) s
digits-clean [] h = tt
digits-clean (c ∷ s) (d, h) = (ground arith, digits-clean s h)

pub format-Starts :
    (n : ℕ)
    → All (λ c. is_crlf c ≡ false) (format n)
      × ((first : ℕ) × (text : Bytes) × (format n ≡ first ∷ text) × ((first == b'.') ≡ false))
format-Starts n =
    let (all, _, ne) = format_lem n in (digits-clean (format n) all, starts (format n) all ne)
  where
    starts :
        (s : Bytes)
        → All IsDigit s
        → s ≢ []
        → (first : ℕ) × (text : Bytes) × (s ≡ first ∷ text) × ((first == b'.') ≡ false)
    starts [] all ne = absurd (ne refl)
    starts (c ∷ s) (d, all) ne = (c, s, refl, ground arith)

format_int-Starts :
    (z : ℤ)
    → All (λ c. is_crlf c ≡ false) (format_int z)
      × ((first : ℕ) × (text : Bytes) × (format_int z ≡ first ∷ text) × ((first == b'.') ≡ false))
unfolding format_int
format_int-Starts (pos n) = format-Starts n
format_int-Starts (negsuc n) =
    ((refl, (format-Starts (suc n)).0), (b'-', format (suc n), refl, refl))

number-IsLine :
    (z : ℤ) (more : Bytes)
    → All (λ c. is_crlf c ≡ false) more
    → IsLine (format_int z ++ (codes " " ++ (more ++ crlf)))
number-IsLine z more h =
    let (clean, (first, text, e, undotted)) = format_int-Starts z in
    record {
      first = first;
      text = text ++ (codes " " ++ more);
      whole = rw e (sym (append_assoc (first ∷ text) (codes " " ++ more) crlf));
      clean =
          All-append (λ c. is_crlf c ≡ false) (first ∷ text) (codes " " ++ more) (rw e at clean)
            (refl, h);
      undotted = undotted;
    }

pub info_line-IsLine : (i : MessageInfo) → IsLine (info_line i)
unfolding info_line
info_line-IsLine i = number-IsLine i.num (format_int i.size) (format_int-Starts i.size).0

pub uidl_line-IsLine : (u : MessageUidl) → IsLine (uidl_line u)
unfolding uidl_line
uidl_line-IsLine u =
    number-IsLine u.num (sanitize_response u.unique_id) (sanitize_response_lem u.unique_id).0

-- The lines of the items, one after the other.
abbrev pub lines_of : {A : Type 0} → (A → Bytes) → List A → Bytes
lines_of item [] = []
lines_of item (a ∷ as') = item a ++ lines_of item as'

write_lines-contents :
    {S A : Type 0} (item : A → Bytes) (as' : List A) (c : Conn S)
    → IsAlive c.writer
    → IsAlive (write_lines item as' c).writer
      × (contents (write_lines item as' c).writer ≡ contents c.writer ++ lines_of item as')
unfolding write_string
write_lines-contents item [] c alive = (alive, sym (append-nil (contents c.writer)))
write_lines-contents item (a ∷ as') c alive =
    let (alive', all) =
      write_lines-contents item as' (write_string (item a) c)
        (put-IsReliable.good (item a) c.writer alive) in
    (
      alive',
      all
          ∙ ap (λ p. p ++ lines_of item as') (put-IsReliable.appends (item a) c.writer alive)
          ∙ append_assoc (contents c.writer) (item a) (lines_of item as'),
    )

lines_of-flatten :
    {A : Type 0} (item : A → Bytes) (as' : List A)
    → ((a : A) → IsLine (item a))
    → (ls : List Bytes) × All IsLine ls × (lines_of item as' ≡ flatten ls)
unfolding flatten
lines_of-flatten item [] h = ([], tt, refl)
lines_of-flatten item (a ∷ as') h =
    let (ls, lines, e) = lines_of-flatten item as' h in
    (item a ∷ ls, (h a, lines), ap (λ p. item a ++ p) e)

-- The response to LIST or UIDL with no argument.
abbrev pub IsListed : {S A : Type 0} → (A → Bytes) → List A → Conn S → Conn S → Type 0
IsListed item items c d =
    IsAlive d.writer
    × (contents d.writer
        ≡ contents c.writer
          ++ (codes "+OK "
              ++ (format (length items) ++ codes " messages\r\n")
              ++ (lines_of item items ++ terminator)))
    × (receive [] (lines_of item items ++ terminator) ≡ some (lines_of item items, []))

module _ {S : Type 0} (iface : Session S) (opts : Options S) where
  listed :
      {A : Type 0} (item : A → Bytes) (items : List A) (c : Conn S)
      → ((a : A) → IsLine (item a))
      → IsAlive c.writer
      → IsListed item items c (reply_items iface opts item 0 items c)
  unfolding reply_items write_string
  listed item items c line alive =
      let head = codes "+OK " ++ (format (length items) ++ codes " messages\r\n") in
      let c1 = write_string head c in
      let alive1 = put-IsReliable.good head c.writer alive in
      let (alive2, body) = write_lines-contents item items c1 alive1 in
      let (ls, lines, e) = lines_of-flatten item items line in
      let p = lines_of item items in
      (
        put-IsReliable.good terminator (write_lines item items c1).writer alive2,
        put-IsReliable.appends terminator (write_lines item items c1).writer alive2
            ∙ ap (λ q. q ++ terminator)
                (body ∙ ap (λ q. q ++ p) (put-IsReliable.appends head c.writer alive))
            ∙ append_assoc (contents c.writer ++ head) p terminator
            ∙ append_assoc (contents c.writer) head (p ++ terminator),
        ap (λ q. receive [] (q ++ terminator)) e
            ∙ read_back ls lines
            ∙ ap (λ q. some (q, [])) (sym e),
      )

  pub list-IsListed :
      (args : List Bytes) (s : S) (infos : List MessageInfo) (c : Conn S)
      → parse_optional_msg_num args ≡ number 0
      → iface.list 0 c.session ≡ (s, ok infos)
      → IsAlive c.writer
      → IsListed info_line infos c (handle_list iface opts args c)
  unfolding handle_list
  list-IsListed args s infos c parsed sized alive =
      rw (parsed, handle_list, sized)
        (listed info_line infos (record c { session = s }) info_line-IsLine alive)

  pub uidl-IsListed :
      (args : List Bytes) (s : S) (uidls : List MessageUidl) (c : Conn S)
      → parse_optional_msg_num args ≡ number 0
      → iface.uidl 0 c.session ≡ (s, ok uidls)
      → IsAlive c.writer
      → IsListed uidl_line uidls c (handle_uidl iface opts args c)
  unfolding handle_uidl
  uidl-IsListed args s uidls c parsed named alive =
      rw (parsed, handle_uidl, named)
        (listed uidl_line uidls (record c { session = s }) uidl_line-IsLine alive)

  -- LIST and UIDL without a number, on a network that takes every write: the client gets a status
  -- line with the number of items, a line for each item in order, and the terminating line. No
  -- line needs byte-stuffing, whatever the unique-ids are: a receiver of multi-line responses
  -- reads exactly these lines.
  pub handle_list-IsListed :
      (args : List Bytes) (s : S) (infos : List MessageInfo) (uidls : List MessageUidl) (c : Conn S)
      → parse_optional_msg_num args ≡ number 0
      → iface.list 0 c.session ≡ (s, ok infos)
      → iface.uidl 0 c.session ≡ (s, ok uidls)
      → IsAlive c.writer
      → IsListed info_line infos c (handle_list iface opts args c)
        × IsListed uidl_line uidls c (handle_uidl iface opts args c)
  handle_list-IsListed args s infos uidls c parsed sized named alive = (
    list-IsListed args s infos c parsed sized alive,
    uidl-IsListed args s uidls c parsed named alive,
  )
