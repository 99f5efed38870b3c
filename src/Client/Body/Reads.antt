-- ===== src/Client/Body/Reads.antt =====
-- The body reader of pop3client/commands.go against an abstract reader: a text of which each `Read`
-- takes a part off the front.
use go_pop.Prelude.{
  ℕ, zero, suc, ◌≤◌, ◌<◌, Bool, true, false, List, [], ◌∷◌, ◌++◌, length, length-take, take, drop,
  take-append-drop, if◌then◌else◌, ◌≡◌, ◌≢◌, refl, ap, sym, ◌∙◌, arith, append_assoc,
}
use mathlib.Core.Path.{subst}
use go_pop.Text.{Bytes, codes}
use go_pop.Server.Wire.{drop_cr, break_lf}
use go_pop.Server.Wire.Stream.{stream}
use go_pop.Client.{Client, read_line, unstuff_line}
use go_pop.Client.Response.{Response, ends, more, reading, read_line-Reads}
use go_pop.Client.Receiver.{text_of}
use go_pop.Client.Body.{
  BodyReader, ReadResult, bytes, at_end, read_error, hand_out, next_line, read,
}

-- What is still to be handed out is `text`, and behind the response is `rest`.
abbrev pub Left : ℕ → Bool → Bytes → Bytes → Bytes → Bytes → Type 0
Left max_line true buf s text rest = (text ≡ buf) × (s ≡ rest)
Left max_line false buf s text rest =
    (ls : List Bytes) × (text ≡ buf ++ text_of ls) × Response max_line s ls rest

abbrev pub Holds : Bytes → Bytes → BodyReader × Client → Type 0
Holds text rest (b, c) = Left c.max_line b.finished b.buf (stream c.reader) text rest

-- A read that finds nothing left, or one that hands out a part of the text that fits into the room.
abbrev pub ReadsOff : ℕ → Bytes → Bytes → ReadResult × BodyReader × Client → Type 0
ReadsOff room text rest (at_end, b, c) = (text ≡ []) × (b.finished ≡ true) × Holds [] rest (b, c)
ReadsOff room text rest (bytes p, b, c) =
    (p ≢ []) × (length p ≤ room) × ((q : Bytes) × (text ≡ p ++ q) × Holds q rest (b, c))
ReadsOff room text rest (read_error e, b, c) = ⊥

Left-split :
    (max_line : ℕ) (finished : Bool) (p buf s text rest : Bytes)
    → Left max_line finished (p ++ buf) s text rest
    → (q : Bytes) × (text ≡ p ++ q) × Left max_line finished buf s q rest
Left-split max_line true p buf s text rest (e, h) = (buf, e, (refl, h))
Left-split max_line false p buf s text rest (ls, e, h) =
    (buf ++ text_of ls, e ∙ append_assoc p buf (text_of ls), (ls, refl, h))

take-≢ : (room : ℕ) (s : Bytes) → 0 < room → s ≢ [] → take room s ≢ []
take-≢ zero s h k = absurd (omega arith)
take-≢ (suc n) [] h k = absurd (k refl)
take-≢ (suc n) (x ∷ s) h k = λ e. cc

-- A buffer with bytes in it.
hand_out_lem :
    (room : ℕ) (b : BodyReader) (c : Client) (text rest : Bytes)
    → 0 < room
    → b.buf ≢ []
    → Holds text rest (b, c)
    → ReadsOff room text rest (hand_out room b c)
hand_out_lem room b c text rest h ne holds =
    let whole : Left c.max_line b.finished (take room b.buf ++ drop room b.buf) (stream c.reader)
        text rest =
      rw (take-append-drop room b.buf) holds in
    (
      take-≢ room b.buf h ne,
      ground (arith, length-take room b.buf),
      Left-split c.max_line b.finished (take room b.buf) (drop room b.buf) (stream c.reader) text
          rest whole,
    )

crlf-≢ : (l : Bytes) → l ++ codes "\r\n" ≢ []
crlf-≢ [] = λ e. cc
crlf-≢ (c ∷ l) = λ e. cc

next_line_lem :
    (room : ℕ) (b : BodyReader) (c : Client) (s text rest : Bytes) (ls : List Bytes)
    → 0 < room
    → b.finished ≡ false
    → b.buf ≡ []
    → stream c.reader ≡ s
    → text ≡ text_of ls
    → Response c.max_line s ls rest
    → ReadsOff room text rest (next_line room b (read_line c))
unfolding next_line text_of
next_line_lem room b c s text rest [] h open' empty e t (ends {l = l} starts dot fits) =
    let (r, e', behind) = read_line-Reads c l rest (ap break_lf e ∙ starts) fits in
    rw (e', dot) (t, refl, (sym empty, behind))
next_line_lem room b c s text rest (line ∷ ls) h open' empty e t
      (more {l = l} {s' = s'} starts dot fits text_e later) =
    let (r, e', behind) = read_line-Reads c l s' (ap break_lf e ∙ starts) fits in
    let buf = unstuff_line (drop_cr l) ++ codes "\r\n" in
    let holds : Left c.max_line false buf (stream r) text rest = (
      ls,
      t ∙ ap (λ u. (u ++ codes "\r\n") ++ text_of ls) (sym text_e),
      subst (λ u. Response c.max_line u ls rest) (sym behind) later,
    ) in
    rw (e', dot)
      (hand_out_lem room (record b { buf = buf }) (reading c r) text rest h
        (crlf-≢ (unstuff_line (drop_cr l)))
        (subst (λ f. Left c.max_line f buf (stream r) text rest) (sym open') holds))

read_finished :
    (room : ℕ) (b : BodyReader) (c : Client) (text rest : Bytes) (fin : Bool)
    → b.buf ≡ []
    → b.finished ≡ fin
    → 0 < room
    → Left c.max_line fin b.buf (stream c.reader) text rest
    → ReadsOff room text rest (if fin then (at_end, b, c) else next_line room b (read_line c))
read_finished room b c text rest true empty e h (t, behind) = (
  t ∙ empty,
  e,
  subst (λ f. Left c.max_line f b.buf (stream c.reader) [] rest) (sym e) (sym empty, behind),
)
read_finished room b c text rest false empty e h (ls, t, response) =
    next_line_lem room b c (stream c.reader) text rest ls h e empty refl
      (t ∙ ap (λ u. u ++ text_of ls) empty) response

-- A read with room for a byte at least, from a body of which `text` is still to be handed out:
-- it succeeds. Either nothing is left, and it says so; or it hands out a part of the text, not
-- empty and within the room, and the rest of the text is still to be handed out. The bytes behind the
-- response are not touched.
pub read-ReadsOff :
    (room : ℕ) (b : BodyReader) (c : Client) (text rest : Bytes)
    → 0 < room
    → Holds text rest (b, c)
    → ReadsOff room text rest (read room b c)
unfolding read
read-ReadsOff room b c text rest h holds = from b.buf refl
  where
    from :
        (buf : Bytes)
        → b.buf ≡ buf
        → ReadsOff room text rest (elim buf [
          | [] ↦ if b.finished then (at_end, b, c) else next_line room b (read_line c)
          | x ∷ s ↦ hand_out room b c
        ])
    from [] e = read_finished room b c text rest b.finished e refl h holds
    from (x ∷ s) e = hand_out_lem room b c text rest h (λ n. absurd (ground (arith, e, n))) holds
