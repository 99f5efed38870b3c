-- ===== src/Server/Wire/Lines.antt =====
-- `readLine` on the bytes that a network delivers, however they are cut into segments.
use go_pop.Prelude.{
  ℕ, zero, suc, ◌+◌, ◌≤◌, ◌<◌, true, Bool-cases, some, inl, inr, [], ◌∷◌, ◌++◌, length,
  length-append, ltb, ◌==◌, false, All, if◌then◌else◌, ◌≡◌, refl, ap, sym, ◌∙◌, arith, append_assoc,
  append-nil,
}
use go_pop.Text.{Bytes}
use go_pop.Server.Parse.{is_crlf}
use go_pop.Server.Wire.Reading.{Grows, read_line_chunk-Grows}
use go_pop.Server.Wire.{
  Reader, Slice, complete, full, ended, Chunk, line, prefix, failed, LineResult, got, too_long,
  read_slice, read_chunk, read_line_chunk, take_chunk, read_loop, read_line, break_lf, drop_cr,
  ends_in_cr,
}
use go_pop.Server.Wire.Stream.{stream, StartsWith, SliceReads, read_slice_lem}

drop_cr-append : (q : Bytes) (c : ℕ) (t : Bytes) → drop_cr (q ++ c ∷ t) ≡ q ++ drop_cr (c ∷ t)
unfolding drop_cr
drop_cr-append [] c t = refl
drop_cr-append (a ∷ []) c t = refl
drop_cr-append (a ∷ b ∷ q) c t = ap (◌∷◌ a) (drop_cr-append (b ∷ q) c t)

ends_in_cr_lem : (p : Bytes) → if ends_in_cr p then p ≡ drop_cr p ++ b'\r' ∷ [] else drop_cr p ≡ p
unfolding ends_in_cr drop_cr
ends_in_cr_lem [] = refl
ends_in_cr_lem (c ∷ []) = ground arith
ends_in_cr_lem (c ∷ d ∷ t) = ground (arith, ends_in_cr_lem (d ∷ t))

drop_cr-kept : (p l : Bytes) → drop_cr p ≡ p → drop_cr (p ++ l) ≡ p ++ drop_cr l
unfolding drop_cr
drop_cr-kept p [] h = ap drop_cr (append-nil p) ∙ h ∙ sym (append-nil p)
drop_cr-kept p (c ∷ l) h = drop_cr-append p c l

-- A chunk of a stream that starts with the line `l`: the line without its CR, or a part of it.
abbrev ChunkReads : Bytes → Bytes → Chunk × Reader → Type 0
ChunkReads l rest (line b, r) = (b ≡ drop_cr l) × (stream r ≡ rest)
ChunkReads l rest (prefix b, r) =
    (l' : Bytes) × (break_lf (stream r) ≡ some (l', rest)) × (drop_cr l ≡ b ++ drop_cr l')
ChunkReads l rest (failed e, r) = ⊥

put_back :
    (s l rest : Bytes) → break_lf s ≡ some (l, rest) → break_lf (b'\r' ∷ s) ≡ some (b'\r' ∷ l, rest)
unfolding break_lf
put_back s l rest h = rw h refl

read_chunk_lem :
    (x : Slice) (r : Reader) (l rest : Bytes)
    → SliceReads l rest (x, r)
    → ChunkReads l rest (read_chunk (x, r))
unfolding read_chunk
read_chunk_lem (complete l1) r l rest (e, h) = (ap drop_cr e, h)
read_chunk_lem (full p) r l rest (l', h, e) = elim (Bool-cases (ends_in_cr p)) [
  | inl cr ↦
      let split : p ≡ drop_cr p ++ b'\r' ∷ [] = rw cr at (ends_in_cr_lem p) in
      rw cr (
        b'\r' ∷ l',
        put_back (stream r) l' rest h,
        ap drop_cr (e ∙ ap (λ q. q ++ l') split ∙ append_assoc (drop_cr p) (b'\r' ∷ []) l')
            ∙ drop_cr-append (drop_cr p) b'\r' l',
      )
  | inr n ↦
      let kept : drop_cr p ≡ p = rw n at (ends_in_cr_lem p) in
      rw n (l', h, ap drop_cr e ∙ drop_cr-kept p l' kept)
]
read_chunk_lem (ended p e) r l rest h = elim h [ ]

-- The line that `text` is, or its refusal.
abbrev pub IsLineOf : ℕ → Bytes → Bytes → LineResult × Reader → Type 0
IsLineOf max_len text rest (x, r) =
    if ltb max_len (length text) then x ≡ too_long else (x ≡ got text) × (stream r ≡ rest)

take_chunk_lem :
    (max_len : ℕ) (acc : Bytes) (next : Bytes → Reader → LineResult × Reader) (chunk : Chunk)
    (r : Reader) (l rest : Bytes)
    → ChunkReads l rest (chunk, r)
    → Grows chunk
    → ((b l' : Bytes)
        → 0 < length b
        → length (acc ++ b) ≤ max_len
        → StartsWith (stream r) l' rest
        → IsLineOf max_len ((acc ++ b) ++ drop_cr l') rest (next (acc ++ b) r))
    → IsLineOf max_len (acc ++ drop_cr l) rest (take_chunk max_len acc next chunk r)
unfolding take_chunk
take_chunk_lem max_len acc next (failed e) r l rest h g ih = elim h [ ]
take_chunk_lem max_len acc next (line b) r l rest (e, h) g ih = rw (← e) (ground arith)
take_chunk_lem max_len acc next (prefix b) r l rest (l', h, e) g ih =
    let whole : acc ++ drop_cr l ≡ (acc ++ b) ++ drop_cr l' =
      ap (λ t. acc ++ t) e ∙ sym (append_assoc acc b (drop_cr l')) in
    let longer = length-append (acc ++ b) (drop_cr l') in
    elim (Bool-cases (ltb max_len (length (acc ++ b)))) [
      | inl over ↦
          let over' : ltb max_len (length ((acc ++ b) ++ drop_cr l')) ≡ true = ground arith in
          rw (over, whole, over') refl
      | inr fits ↦ rw (fits, whole) (ih b l' g (ground arith) h)
    ]

read_loop_lem :
    (f max_len : ℕ) (acc : Bytes) (r : Reader) (l rest : Bytes)
    → StartsWith (stream r) l rest
    → length acc ≤ max_len
    → max_len < length acc + f
    → IsLineOf max_len (acc ++ drop_cr l) rest (read_loop f max_len acc r)
unfolding read_loop read_line_chunk
read_loop_lem zero max_len acc r l rest h small fuel = absurd (omega arith)
read_loop_lem (suc f) max_len acc r l rest h small fuel =
    let (slice, r1) = read_slice r.buffered r.incoming in
    let (chunk, r') = read_line_chunk r in
    take_chunk_lem max_len acc (read_loop f max_len) chunk r' l rest
      (read_chunk_lem slice r1 l rest (read_slice_lem r.incoming r.buffered l rest h))
      (read_line_chunk-Grows r)
      (λ b l' grows fits h'.
        read_loop_lem f max_len (acc ++ b) r' l' rest h' fits (omega (arith, length-append acc b)))

-- However the network cuts the bytes into segments: of a stream that has an LF before any read
-- fails, `readLine` returns the line before the first LF, without a CR at its end, and leaves
-- exactly the bytes behind the LF to be read, if the line is within the bound; else it refuses it.
pub read_line-stream :
    (max_len : ℕ) (r : Reader) (l rest : Bytes)
    → StartsWith (stream r) l rest
    → IsLineOf max_len (drop_cr l) rest (read_line max_len r)
unfolding read_line
read_line-stream max_len r l rest h =
    read_loop_lem (suc max_len) max_len [] r l rest h (omega arith) (omega arith)

-- A text with no CR and no LF, and the bytes behind its CRLF.
pub StartsWith-text :
    (text s : Bytes)
    → All (λ c. is_crlf c ≡ false) text
    → StartsWith (text ++ b'\r' ∷ b'\n' ∷ s) (text ++ b'\r' ∷ []) s
unfolding break_lf
StartsWith-text [] s h = refl
StartsWith-text (c ∷ text) s (hc, h) =
    let k : (c == b'\n') ≡ false = ground arith in rw (k, StartsWith-text text s h) refl

pub drop_cr-text : (text : Bytes) → drop_cr (text ++ b'\r' ∷ []) ≡ text
unfolding drop_cr
drop_cr-text [] = refl
drop_cr-text (c ∷ []) = refl
drop_cr-text (c ∷ d ∷ text) = ap (◌∷◌ c) (drop_cr-text (d ∷ text))
