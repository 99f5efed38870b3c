-- ===== src/Client/Capabilities.antt =====
-- CAPA from pop3server/conn.go to pop3client/client.go.
use go_pop.Prelude.{
  ℕ, suc, ◌≤◌, true, false, List, [], ◌∷◌, ◌++◌, map, length, ltb, ◌≡◌, refl, ap, sym, ◌∙◌, arith,
  All, append_assoc,
}
use mathlib.Core.List.{append_cancel_left}
use mathlib.Core.Path.{subst}
use go_pop.Text.{Bytes, codes, equal, has_prefix, cut_prefix}
use go_pop.DotStuff.Spec.{terminator}
use go_pop.Protocol.{Capability}
use go_pop.Server.Wire.{drop_cr}
use go_pop.Server.Wire.Writing.{contents, IsAlive}
use go_pop.Server.Wire.Stream.{stream}
use go_pop.Server.Wire.Lines.{StartsWith-text}
use go_pop.Server.Parse.{is_crlf}
use go_pop.Server.Session.{Session}
use go_pop.Server.Conn.{Conn, Options}
use go_pop.Server.Maildrop.{crlf}
use go_pop.Server.Maildrop.Listing.{lines_of}
use go_pop.Server.Extensions.{mechanisms, handle_capa}
use go_pop.Server.Extensions.Capabilities.{cap_text, advertised, capa-contents}
use go_pop.Server.Extensions.CapLines.{IsCapLine, no_crlf_lem, advertised-All}
use go_pop.Client.{Client, done, ◌>>◌, give, is_ok, expect_ok, read_multi_line, capa}
use go_pop.Client.Response.{Response, ends, Reads, read_multi_line_lem}
use go_pop.Client.Receiver.{fits}
use go_pop.Client.Exchange.{cmd_lem, after_cmd, fits-text}
use go_pop.Client.Listing.{IsLine-clean, line_before, IsGiven}

text_lines :
    (ks : List Capability) (max_line : ℕ) (rest : Bytes)
    → All IsCapLine ks
    → fits max_line 0 (lines_of (λ k. cap_text k ++ crlf) ks ++ terminator) ≡ true
    → Response max_line
        ((lines_of (λ k. cap_text k ++ crlf) ks ++ terminator) ++ rest)
        (map cap_text ks)
        rest
text_lines [] max_line rest h small =
    let (short, _) = fits-text max_line 0 (codes ".") [] (refl, tt) small in
    ends (StartsWith-text (codes ".") rest (refl, tt)) (unfold equal drop_cr in refl)
      (unfold drop_cr in omega arith)
text_lines (k ∷ ks) max_line rest (line, h) small =
    let text = cap_text k in
    let later = lines_of (λ k. cap_text k ++ crlf) ks ++ terminator in
    let split : lines_of (λ k. cap_text k ++ crlf) (k ∷ ks) ++ terminator
        ≡ text ++ b'\r' ∷ b'\n' ∷ later =
      append_assoc (text ++ crlf) (lines_of (λ k. cap_text k ++ crlf) ks) terminator
      ∙ append_assoc text crlf later in
    let small' = ap (fits max_line 0) (sym split) ∙ small in
    let clean = IsLine-clean text line in
    subst (λ u. Response max_line u (map cap_text (k ∷ ks)) rest)
      (sym (ap (λ u. u ++ rest) split ∙ append_assoc text (b'\r' ∷ b'\n' ∷ later) rest))
      (line_before text later rest (map cap_text ks) max_line line small'
        (text_lines ks max_line rest h (fits-text max_line 0 text later clean small').1))

abbrev head : Bytes
head = codes "+OK Capability list follows"

head_clean : All (λ c. is_crlf c ≡ false) head
head_clean = no_crlf_lem head refl

head_ok : is_ok head ≡ true
unfolding is_ok has_prefix cut_prefix
head_ok = refl

length-map : {A B : Type 0} (f : A → B) (as' : List A) → length (map f as') ≡ length as'
length-map f [] = refl
length-map f (a ∷ as') = ap suc (length-map f as')

module _ {S : Type 0} (iface : Session S) (opts : Options S) where
  -- CAPA of the client, on a response that it parses.
  capa_lem :
      (status s rest : Bytes) (ls : List Bytes) (c : Client)
      → IsAlive c.writer
      → All (λ b. is_crlf b ≡ false) status
      → length status ≤ c.max_line
      → is_ok status ≡ true
      → stream c.reader ≡ status ++ b'\r' ∷ b'\n' ∷ s
      → Response c.max_line s ls rest
      → length ls ≤ c.max_resp_lines
      → IsGiven (codes "CAPA") ls rest c (capa c)
  unfolding capa
  capa_lem status s rest ls c alive clean small positive e response few =
      let (w, r, given, on_wire, behind) = cmd_lem (codes "CAPA") status s c alive clean small e in
      let c1 = record c { reader = r; writer = w } in
      let read' =
        read_multi_line_lem c1 rest ls
          (subst (λ u. Response c.max_line u ls rest) (sym behind) response) in
      let within : ltb c.max_resp_lines (length ls) ≡ false = ground arith in
      let (r', e', behind') : Reads c1 ls rest (read_multi_line c1) = rw within at read' in
      let whole : capa c ≡ (done ls, record c1 { reader = r' }) =
        after_cmd (codes "CAPA") status c c1 (λ status. do give (expect_ok status); read_multi_line)
          given
        ∙ rw (positive, e') refl in
      subst (IsGiven (codes "CAPA") ls rest c) (sym whole) (refl, on_wire.1, behind')

  -- CAPA of the server, on a network that takes every write, and CAPA of the client on what the
  -- server has sent (with any bytes behind it, and however the network cuts it), where no line of
  -- it is above the client's bound, nor are there too many: if the names of the SASL mechanisms have no
  -- CR or LF, and the capabilities of the options are lines that start with no dot, the client
  -- returns exactly the capabilities that hold on the server's connection and are not suppressed, in
  -- order, its command is on the wire, and the bytes behind the response are left.
  pub capa-handle_capa :
      (sc : Conn S) (c : Client) (sent rest : Bytes)
      → IsAlive sc.writer
      → IsAlive c.writer
      → contents (handle_capa iface opts sc).writer ≡ contents sc.writer ++ sent
      → stream c.reader ≡ sent ++ rest
      → All (All (λ b. is_crlf b ≡ false)) (mechanisms iface opts sc)
      → All IsCapLine opts.caps
      → fits c.max_line 0 sent ≡ true
      → length (advertised iface opts sc) ≤ c.max_resp_lines
      → IsGiven (codes "CAPA") (map cap_text (advertised iface opts sc)) rest c (capa c)
  capa-handle_capa sc c sent rest alive alive' out e mechs custom small few =
      let ks = advertised iface opts sc in
      let body = lines_of (λ k. cap_text k ++ crlf) ks ++ terminator in
      let split : sent ≡ head ++ b'\r' ∷ b'\n' ∷ body =
        append_cancel_left (contents sc.writer) sent (head ++ b'\r' ∷ b'\n' ∷ body)
          (sym out ∙ capa-contents iface opts sc alive) in
      let (short, small') =
        fits-text c.max_line 0 head body head_clean (ap (fits c.max_line 0) (sym split) ∙ small) in
      capa_lem head (body ++ rest) rest (map cap_text ks) c alive' head_clean (omega arith) head_ok
        (e ∙ ap (λ u. u ++ rest) split ∙ append_assoc head (b'\r' ∷ b'\n' ∷ body) rest)
        (text_lines ks c.max_line rest (advertised-All iface opts sc mechs custom) small')
        (omega (arith, length-map cap_text ks))
