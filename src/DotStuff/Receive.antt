-- ===== src/DotStuff/Receive.antt =====
-- A receiver of multi-line responses after RFC 1939, section 3, and what it makes of the output of
-- dotstuff.go.
pub mod RoundTrip
use go_pop.Prelude.{
  ℕ, zero, suc, Bool, true, false, not, ◌&&◌, ◌||◌, Bool-cases, inl, inr, Option, none, some, List,
  [], ◌∷◌, ◌++◌, ◌≡◌, refl, ap, ◌∙◌, sym, arith, append_assoc, append-nil, ◌==◌, if◌then◌else◌,
  ==_iff,
}
use go_pop.Text.{Bytes, codes, equal}
use go_pop.DotStuff.{Put, write, close, new_dot_stuff_writer}
use go_pop.DotStuff.Output.{IsReliable, close-write}
use go_pop.DotStuff.Spec.{canonical, stuff, terminator}

-- A line without the CR that ends it.
unfoldable pub strip_cr : Bytes → Bytes
strip_cr [] = []
strip_cr (c ∷ []) = if c == b'\r' then [] else c ∷ []
strip_cr (c ∷ d ∷ t) = c ∷ strip_cr (d ∷ t)

-- A line without the dot that was put in front.
unfoldable pub unstuff : Bytes → Bytes
unstuff [] = []
unstuff (c ∷ s) = if c == b'.' then s else c ∷ s

-- Text in front of what is received later.
unfoldable pub after : Bytes → Option (Bytes × Bytes) → Option (Bytes × Bytes)
after t none = none
after t (some (text, rest)) = some (t ++ text, rest)

-- Reads lines up to the one that is a lone dot: the text of the lines, and the unread bytes. The
-- first argument is the line read so far; `none`: the bytes end first.
unfoldable pub receive : Bytes → Bytes → Option (Bytes × Bytes)
unfolding strip_cr unstuff after equal
receive cur [] = none
receive cur (c ∷ s) = elim (c == b'\n') [
  | true ↦
      let later = receive [] s in
      if equal (strip_cr cur) (b'.' ∷ [])
      then some ([], s)
      else after (unstuff (strip_cr cur) ++ b'\r' ∷ b'\n' ∷ []) later
  | false ↦ receive (cur ++ c ∷ []) s
]

-- Not a lone dot, nor the start of such a line: a dot in front has another behind it.
safe : Bytes → Bool
safe [] = true
safe (c ∷ []) = not (c == b'.')
safe (c ∷ d ∷ t) = not (c == b'.') || d == b'.'

safe_dot : (s : Bytes) → safe s ≡ true → equal s (b'.' ∷ []) ≡ false
unfolding safe equal
safe_dot [] h = refl
safe_dot (c ∷ []) h = ground arith
safe_dot (c ∷ d ∷ t) h = ground arith

safe_dot_cr : (s : Bytes) → safe (s ++ b'\r' ∷ []) ≡ true → equal s (b'.' ∷ []) ≡ false
unfolding safe equal
safe_dot_cr [] h = refl
safe_dot_cr (c ∷ []) h = ground arith
safe_dot_cr (c ∷ d ∷ t) h = ground arith

safe-concat :
    (s : Bytes) (x c : ℕ) → safe (s ++ x ∷ []) ≡ true → safe ((s ++ x ∷ []) ++ c ∷ []) ≡ true
unfolding safe
safe-concat [] x c h = ground arith
safe-concat (a ∷ []) x c h = ground arith
safe-concat (a ∷ d ∷ t) x c h = ground arith

strip_cr-concat_cr : (s : Bytes) → strip_cr (s ++ b'\r' ∷ []) ≡ s
unfolding strip_cr
strip_cr-concat_cr [] = refl
strip_cr-concat_cr (c ∷ []) = refl
strip_cr-concat_cr (c ∷ d ∷ t) = ap (◌∷◌ c) (strip_cr-concat_cr (d ∷ t))

unstuff-concat :
    (s : Bytes) (x : ℕ) (t : Bytes) → unstuff ((s ++ x ∷ []) ++ t) ≡ unstuff (s ++ x ∷ []) ++ t
unfolding unstuff
unstuff-concat [] x t = ground arith
unstuff-concat (c ∷ s) x t = ground arith

-- A line end with its CR still to come, and one whose CR has come.
receive_crlf :
    (cur s : Bytes)
    → safe cur ≡ true
    → receive cur (b'\r' ∷ b'\n' ∷ s) ≡ after (unstuff cur ++ b'\r' ∷ b'\n' ∷ []) (receive [] s)
unfolding receive
receive_crlf cur s h = rw (strip_cr-concat_cr cur) (rw (safe_dot cur h))

receive_lf :
    (init s : Bytes)
    → safe (init ++ b'\r' ∷ []) ≡ true
    → receive (init ++ b'\r' ∷ []) (b'\n' ∷ s)
      ≡ after (unstuff init ++ b'\r' ∷ b'\n' ∷ []) (receive [] s)
unfolding receive
receive_lf init s h = rw (strip_cr-concat_cr init) (rw (safe_dot_cr init h))

pub receive_other :
    (cur : Bytes) (c : ℕ) (s : Bytes)
    → (c == b'\n') ≡ false
    → receive cur (c ∷ s) ≡ receive (cur ++ c ∷ []) s
unfolding receive
receive_other cur c s h = rw (h, receive)

abbrev line_end : ℕ → Bytes
line_end last = if last == b'\r' then b'\n' ∷ [] else b'\r' ∷ b'\n' ∷ []

unstuff-concat_cr : (s : Bytes) → unstuff (s ++ b'\r' ∷ []) ≡ unstuff s ++ b'\r' ∷ []
unfolding unstuff
unstuff-concat_cr [] = refl
unstuff-concat_cr (c ∷ s) = ground arith

-- The end of an open line, whether its CR has been sent or not.
receive-line_end :
    (last : ℕ) (init s : Bytes)
    → safe (init ++ last ∷ []) ≡ true
    → receive (init ++ last ∷ []) (line_end last ++ s)
      ≡ after (unstuff (init ++ last ∷ []) ++ line_end last) (receive [] s)
receive-line_end last init s h = elim (Bool-cases (last == b'\r')) [
  | inl e ↦
      let last_cr = (==_iff last b'\r').0 e in
      let h' = rw last_cr at h in
      rw last_cr (receive_lf init s h' ∙ rw unstuff-concat_cr (rw append_assoc))
  | inr e ↦ rw e (receive_crlf (init ++ last ∷ []) s h)
]
