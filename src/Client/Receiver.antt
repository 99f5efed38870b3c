-- ===== src/Client/Receiver.antt =====
-- The client's multi-line responses, and the receiver that RFC 1939 describes.
use go_pop.Prelude.{
  ℕ, suc, ◌≤◌, Bool, true, false, ◌&&◌, Bool-cases, Option, none, some, Option-cases, inl, inr,
  List, [], ◌∷◌, ◌++◌, length, length-append, leb, ◌==◌, ==_iff, if◌then◌else◌, ◌≡◌, refl, ap, sym,
  ◌∙◌, arith, append_assoc,
}
use go_pop.Text.{Bytes, codes, equal}
use go_pop.DotStuff.Receive.{receive, after, strip_cr, unstuff, receive_other}
use go_pop.Server.Wire.{break_lf, drop_cr}
use go_pop.Client.{unstuff_line}
use go_pop.Client.Response.{Response, ends, more}

-- The text of lines, each ended by CRLF.
unfoldable pub text_of : List Bytes → Bytes
text_of [] = []
text_of (l ∷ ls) = (l ++ b'\r' ∷ b'\n' ∷ []) ++ text_of ls

-- No line of the bytes is above the bound, its CR counted; `n` bytes of the first are gone.
unfoldable pub fits : ℕ → ℕ → Bytes → Bool
fits max_line n [] = true
fits max_line n (c ∷ s) = elim (c == b'\n') [
  | true ↦ leb n max_line && fits max_line 0 s
  | false ↦ fits max_line (suc n) s
]

strip_cr-drop_cr : (l : Bytes) → strip_cr l ≡ drop_cr l
unfolding strip_cr drop_cr
strip_cr-drop_cr [] = refl
strip_cr-drop_cr (c ∷ []) = refl
strip_cr-drop_cr (c ∷ d ∷ t) = ap (◌∷◌ c) (strip_cr-drop_cr (d ∷ t))

unstuff_lem : (l : Bytes) → unstuff l ≡ unstuff_line l
unfolding unstuff unstuff_line
unstuff_lem [] = refl
unstuff_lem (c ∷ l) = refl

length-drop_cr : (l : Bytes) → length (drop_cr l) ≤ length l
unfolding drop_cr
length-drop_cr [] = omega arith
length-drop_cr (c ∷ []) = ground arith
length-drop_cr (c ∷ d ∷ t) = omega (arith, length-drop_cr (d ∷ t))

break_lf-end : (cur s : Bytes) → break_lf cur ≡ none → break_lf (cur ++ b'\n' ∷ s) ≡ some (cur, s)
unfolding break_lf
break_lf-end [] s h = refl
break_lf-end (c ∷ cur) s h = elim (Option-cases (break_lf cur)) [
  | inl e ↦ ground (arith, break_lf-end cur s e)
  | inr (r, e) ↦ absurd (ground arith)
]

break_lf-open :
    (cur : Bytes) (c : ℕ)
    → break_lf cur ≡ none
    → (c == b'\n') ≡ false
    → break_lf (cur ++ c ∷ []) ≡ none
unfolding break_lf
break_lf-open [] c h k = rw k refl
break_lf-open (d ∷ cur) c h k = elim (Option-cases (break_lf cur)) [
  | inl e ↦ ground (arith, break_lf-open cur c e k)
  | inr (r, e) ↦ absurd (ground arith)
]

-- A response of the client that is behind the open line `cur`, and the bytes that it takes.
abbrev pub Parses : ℕ → Bytes → Bytes → Bytes → Bytes → Type 0
Parses max_line cur s text rest =
    (used : Bytes) × (ls : List Bytes) × (s ≡ used ++ rest)
    × (text_of ls ≡ text)
    × (fits max_line (length cur) used ≡ true → Response max_line (cur ++ s) ls rest)

last_line :
    (max_line : ℕ) (cur s : Bytes)
    → break_lf cur ≡ none
    → equal (drop_cr cur) (codes ".") ≡ true
    → Parses max_line cur (b'\n' ∷ s) [] s
unfolding fits text_of
last_line max_line cur s open' dot = (
  b'\n' ∷ [],
  [],
  refl,
  refl,
  λ h. ends (break_lf-end cur s open') dot (ground (arith, length-drop_cr cur)),
)

text_line :
    (max_line : ℕ) (cur s text rest : Bytes)
    → break_lf cur ≡ none
    → equal (drop_cr cur) (codes ".") ≡ false
    → Parses max_line [] s text rest
    → Parses max_line cur
        (b'\n' ∷ s)
        ((unstuff_line (drop_cr cur) ++ b'\r' ∷ b'\n' ∷ []) ++ text)
        rest
unfolding fits text_of
text_line max_line cur s text rest open' dot (used, ls, split, t, later) = (
  b'\n' ∷ used,
  unstuff_line (drop_cr cur) ∷ ls,
  ap (◌∷◌ b'\n') split,
  ap (λ r. (unstuff_line (drop_cr cur) ++ b'\r' ∷ b'\n' ∷ []) ++ r) t,
  λ h.
      let h' : (leb (length cur) max_line && fits max_line 0 used) ≡ true = h in
      more (break_lf-end cur s open') dot (ground (arith, length-drop_cr cur)) refl
        (later (ground arith)),
)

inner_byte :
    (max_line : ℕ) (cur : Bytes) (c : ℕ) (s text rest : Bytes)
    → (c == b'\n') ≡ false
    → Parses max_line (cur ++ c ∷ []) s text rest
    → Parses max_line cur (c ∷ s) text rest
unfolding fits
inner_byte max_line cur c s text rest k (used, ls, split, t, later) = (
  c ∷ used,
  ls,
  ap (◌∷◌ c) split,
  t,
  λ h.
      let n : length (cur ++ c ∷ []) ≡ suc (length cur) =
        omega (arith, length-append cur (c ∷ [])) in
      let h' : fits max_line (length (cur ++ c ∷ [])) used ≡ true = rw n (rw (k, fits) at h) in
      rw (append_assoc cur (c ∷ []) s) at (later h'),
)

receive_lf :
    (cur s : Bytes)
    → receive cur (b'\n' ∷ s) ≡ (
        if equal (drop_cr cur) (codes ".")
        then some ([], s)
        else after (unstuff_line (drop_cr cur) ++ b'\r' ∷ b'\n' ∷ []) (receive [] s))
unfolding receive
receive_lf cur s = rw (← strip_cr-drop_cr cur) (rw (unstuff_lem (strip_cr cur)) refl)

pair_lem :
    (t t' r r' : Bytes)
    → ◌≡◌ {A = Option (Bytes × Bytes)} (some (t, r)) (some (t', r'))
    → (t ≡ t') × (r ≡ r')
pair_lem t t' r r' h = (cc, cc)

after_lem :
    (t text rest : Bytes) (o : Option (Bytes × Bytes))
    → after t o ≡ some (text, rest)
    → (t' : Bytes) × (o ≡ some (t', rest)) × (t ++ t' ≡ text)
unfolding after
after_lem t text rest none h = absurd (ground arith)
after_lem t text rest (some (t', r)) h =
    let (e, e') = pair_lem (t ++ t') text r rest h in (t', rw e' refl, e)

-- What the receiver has read, as a response of the client.
pub receive-Parses :
    (max_line : ℕ) (s cur text rest : Bytes)
    → receive cur s ≡ some (text, rest)
    → break_lf cur ≡ none
    → Parses max_line cur s text rest
receive-Parses max_line [] cur text rest h open' = absurd (unfold receive in ground arith)
receive-Parses max_line (c ∷ s) cur text rest h open' =
    let later = receive-Parses max_line s in
    elim (Bool-cases (c == b'\n')) [
      | inr k ↦ inner_byte max_line cur c s text rest k (
          later (cur ++ c ∷ []) text rest (sym (receive_other cur c s k) ∙ h)
            (break_lf-open cur c open' k))
      | inl k ↦
          let c_lf = (==_iff c b'\n').0 k in
          let h' = sym (receive_lf cur s) ∙ (rw c_lf at h) in
          rw c_lf (elim (Bool-cases (equal (drop_cr cur) (codes "."))) [
            | inl dot ↦
                let (e, e') = pair_lem [] text s rest (rw dot at h') in
                rw (← e, ← e') (last_line max_line cur s open' dot)
            | inr n ↦
                let (t, e, whole) =
                  after_lem (unstuff_line (drop_cr cur) ++ b'\r' ∷ b'\n' ∷ []) text rest
                    (receive [] s) (rw n at h') in
                rw (← whole) (
                  text_line max_line cur s t rest open' n
                    (later [] t rest e (unfold break_lf in refl)))
          ])
    ]
