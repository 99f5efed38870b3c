-- ===== src/DotStuff/Receive/RoundTrip.antt =====
-- The round trip from dotstuff.go to a receiver after RFC 1939.
use go_pop.Prelude.{
  append-nil, sym, length, ◌+◌, ℕ, Bool, true, false, ◌&&◌, Bool-cases, inl, inr, some, [], ◌∷◌,
  ◌++◌, ◌≡◌, refl, ap, ◌∙◌, arith, append_assoc, ◌==◌, ==_iff,
}
use go_pop.Text.{Bytes}
use go_pop.DotStuff.{Put, write, close, new_dot_stuff_writer}
use go_pop.DotStuff.Output.{IsReliable, close-write}
use go_pop.DotStuff.Spec.{bare_lfs, unended, length-canonical, canonical, stuff, terminator}
use go_pop.DotStuff.Receive.{
  after, unstuff, receive, safe, safe-concat, unstuff-concat, receive_crlf, receive_other, line_end,
  receive-line_end,
}

-- What the receiver has read of the line that the writer has open.
abbrev Partial : Bool → ℕ → Bytes → Type 0
Partial true last cur = (cur ≡ []) × ((last == b'\r') ≡ false)
Partial false last cur =
    (init : Bytes) × (cur ≡ init ++ last ∷ []) × (safe (init ++ last ∷ []) ≡ true)

module _ (rest : Bytes) where
  due : Bool → ℕ → Bytes → Bytes
  due start last p = stuff start (canonical start last p) ++ (terminator ++ rest)

  Received : Bool → ℕ → Bytes → Bytes → Type 0
  Received start last cur p =
      receive cur (due start last p) ≡ some (unstuff cur ++ canonical start last p, rest)

  due-lf : (last : ℕ) (p : Bytes) → due false last (b'\n' ∷ p) ≡ line_end last ++ due true b'\n' p
  unfolding due stuff canonical
  due-lf last p = ground arith

  due-nil : (last : ℕ) → due false last [] ≡ line_end last ++ due true b'\n' []
  unfolding due stuff canonical
  due-nil last = ground arith

  canonical-lf :
      (last : ℕ) (p : Bytes)
      → canonical false last (b'\n' ∷ p) ≡ line_end last ++ canonical true b'\n' p
  unfolding canonical
  canonical-lf last p = ground arith

  canonical-nil : (last : ℕ) → canonical false last [] ≡ line_end last ++ canonical true b'\n' []
  unfolding canonical
  canonical-nil last = ground arith

  -- An open line is ended, and the receiver goes on with an empty one.
  open_line :
      (last : ℕ) (init p : Bytes)
      → safe (init ++ last ∷ []) ≡ true
      → Received true b'\n' [] p
      → receive (init ++ last ∷ []) (line_end last ++ due true b'\n' p)
        ≡ some (unstuff (init ++ last ∷ []) ++ (line_end last ++ canonical true b'\n' p), rest)
  unfolding Received after unstuff
  open_line last init p h later =
      receive-line_end last init _ h
      ∙ rw later
          (ap (λ t. some (t, rest)) (append_assoc (unstuff (init ++ last ∷ [])) (line_end last) _))

  due_none : (last : ℕ) → Received true last [] []
  unfolding Received due receive canonical stuff unstuff
  due_none last = refl

  due_end :
      (start : Bool) (last : ℕ) (cur : Bytes) → Partial start last cur → Received start last cur []
  unfolding Received
  due_end true last cur (e, n) = rw e (due_none last)
  due_end false last cur (init, e, h) =
      rw (e, due-nil last, canonical-nil last) (open_line last init [] h (due_none b'\n'))

  -- A byte inside a line.
  due_byte :
      (start : Bool) (last b : ℕ) (p : Bytes)
      → (b == b'\n') ≡ false
      → (start && b == b'.') ≡ false
      → due start last (b ∷ p) ≡ b ∷ due false b p
  unfolding due stuff canonical
  due_byte start last b p h k = ground arith

  due_dot : (last : ℕ) (p : Bytes) → due true last (b'.' ∷ p) ≡ b'.' ∷ b'.' ∷ due false b'.' p
  unfolding due stuff canonical
  due_dot last p = ground arith

  canonical_byte :
      (start : Bool) (last b : ℕ) (p : Bytes)
      → (b == b'\n') ≡ false
      → canonical start last (b ∷ p) ≡ b ∷ canonical false b p
  unfolding canonical
  canonical_byte start last b p h = ground arith

  due_crlf :
      (last : ℕ) (p : Bytes)
      → (last == b'\r') ≡ false
      → (due true last (b'\n' ∷ p) ≡ b'\r' ∷ b'\n' ∷ due true b'\n' p)
        × (canonical true last (b'\n' ∷ p) ≡ b'\r' ∷ b'\n' ∷ canonical true b'\n' p)
  unfolding due stuff canonical
  due_crlf last p h = ground arith

  -- The cases of a byte that starts a line.
  start_lf :
      (last : ℕ) (p : Bytes)
      → (last == b'\r') ≡ false
      → Received true b'\n' [] p
      → Received true last [] (b'\n' ∷ p)
  unfolding Received after unstuff safe
  start_lf last p n later =
      rw ((due_crlf last p n).0, (due_crlf last p n).1)
        (receive_crlf [] (due true b'\n' p) refl ∙ rw later)

  start_dot :
      (last : ℕ) (p : Bytes)
      → Received false b'.' (b'.' ∷ b'.' ∷ []) p
      → Received true last [] (b'.' ∷ p)
  unfolding Received unstuff
  start_dot last p later =
      rw (due_dot last p, canonical_byte true last b'.' p refl)
        (receive_other [] b'.' _ refl ∙ receive_other (b'.' ∷ []) b'.' _ refl ∙ later)

  start_byte :
      (last b : ℕ) (p : Bytes)
      → (b == b'\n') ≡ false
      → (b == b'.') ≡ false
      → Received false b (b ∷ []) p
      → Received true last [] (b ∷ p)
  unfolding Received unstuff
  start_byte last b p l k later =
      rw (due_byte true last b p l k, canonical_byte true last b p l)
        (receive_other [] b _ l ∙ later ∙ rw k)

  safe_byte : (b : ℕ) → (b == b'.') ≡ false → safe (b ∷ []) ≡ true
  unfolding safe
  safe_byte b k = rw k

  -- Whatever line is open, the receiver ends with the canonical form of what is left.
  receive-due :
      (p : Bytes) (start : Bool) (last : ℕ) (cur : Bytes)
      → Partial start last cur
      → Received start last cur p
  unfolding Received
  receive-due [] start last cur h = due_end start last cur h
  receive-due (b ∷ p) true last cur (e, n) =
      let lf_later = receive-due p true b'\n' [] (refl, refl) in
      let dot_later =
        receive-due p false b'.' (b'.' ∷ b'.' ∷ []) (b'.' ∷ [], refl, unfold safe in refl) in
      let later =
        λ (k : (b == b'.') ≡ false). receive-due p false b (b ∷ []) ([], refl, safe_byte b k) in
      rw e (elim (Bool-cases (b == b'\n')) [
        | inl l ↦ rw ((==_iff b b'\n').0 l) (start_lf last p n lf_later)
        | inr l ↦ elim (Bool-cases (b == b'.')) [
          | inl k ↦ rw ((==_iff b b'.').0 k) (start_dot last p dot_later)
          | inr k ↦ start_byte last b p l k (later k)
        ]
      ])
  receive-due (b ∷ p) false last cur (init, e, h) =
      let lf_later = receive-due p true b'\n' [] (refl, refl) in
      let safe' = safe-concat init last b h in
      let later =
        receive-due p false b ((init ++ last ∷ []) ++ b ∷ []) (init ++ last ∷ [], refl, safe') in
      elim (Bool-cases (b == b'\n')) [
        | inl l ↦
            rw (e, (==_iff b b'\n').0 l, due-lf last p, canonical-lf last p)
              (open_line last init p h lf_later)
        | inr l ↦
            rw (e, due_byte false last b p l refl, canonical_byte false last b p l)
              (receive_other _ b _ l ∙ later ∙ rw (unstuff-concat init last (b ∷ []), append_assoc))
      ]

-- A receiver that un-stuffs reads back, from the output of `Write` and `Close` with any bytes
-- behind it, exactly the message in canonical form, and leaves exactly the bytes behind it.
pub receive-stuff :
    (p rest : Bytes)
    → receive [] (stuff true (canonical true 0 p) ++ (terminator ++ rest))
      ≡ some (canonical true 0 p, rest)
unfolding due Received unstuff
receive-stuff p rest = receive-due rest p true 0 [] (refl, refl)

-- A `bytes.Buffer`: every write is appended.
abbrev pub buffer : Put Bytes
buffer p w = (w ++ p, true)

buffer-IsReliable : IsReliable buffer (λ w. w) (λ w. Unit)
buffer-IsReliable = record { fine = λ p w g. refl; good = λ p w g. g; appends = λ p w g. refl }

-- The output of the writer for a message, behind which other bytes follow, is read back by a
-- receiver that un-stuffs as exactly the message in canonical form (CRLF line ends, a last line
-- completed), and exactly the bytes that follow are left: no message can end the response early.
pub receive-write :
    (p rest : Bytes)
    → receive [] ((close buffer (write buffer p (new_dot_stuff_writer [])).0).0 ++ rest)
      ≡ some (canonical true 0 p, rest)
receive-write p rest =
    let (_, _, _, _, e) = close-write buffer (λ w. w) (λ w. Unit) buffer-IsReliable p [] tt in
    rw e
      (rw (append_assoc (stuff true (canonical true 0 p)) terminator rest) (receive-stuff p rest))

-- The octets that a receiver reconstructs from the output for a message: those of the message, one
-- for each LF with no CR in front, and those that complete a last line with no LF.
pub receive-length :
    (p : Bytes)
    → (text : Bytes) × (receive [] (close buffer (write buffer p (new_dot_stuff_writer [])).0).0
        ≡ some (text, []))
      × (length text ≡ length p + bare_lfs 0 p + unended true 0 p)
receive-length p = (
  canonical true 0 p,
  ap (receive []) (sym (append-nil (close buffer (write buffer p (new_dot_stuff_writer [])).0).0))
      ∙ receive-write p [],
  length-canonical p true 0,
)
