-- ===== src/Server/Wire/Progress.antt =====
-- How much of the input `readLine` takes.
use go_pop.Prelude.{
  ℕ, zero, suc, ◌+◌, ◌-◌, ◌≤◌, ◌<◌, Bool-cases, Option-cases, inl, inr, some, List, [], ◌∷◌, ◌++◌,
  length, length-append, length-take, length-drop, if-case, take, drop, leb, ltb, ◌≡◌, arith,
}
use go_pop.Text.{Bytes}
use go_pop.Server.Wire.{
  Reader, Segment, arrives, fails, Slice, complete, full, ended, Chunk, line, prefix, failed,
  LineResult, got, too_long, read_failed, slice_full, read_slice, read_chunk, read_line_chunk,
  take_chunk, read_loop, read_line, break_lf, buffer_size,
}

-- The bytes and events that are still to be read.
abbrev pub to_come : List Segment → ℕ
to_come [] = 0
to_come (arrives s ∷ w) = suc (length s + to_come w)
to_come (fails e ∷ w) = suc (to_come w)

abbrev pub left : Reader → ℕ
left r = length r.buffered + to_come r.incoming

break_lf-length :
    (s : Bytes) (r : Bytes × Bytes) → break_lf s ≡ some r → length s ≡ suc (length r.0 + length r.1)
unfolding break_lf
break_lf-length [] r h = cc
break_lf-length (c ∷ s) r h = elim (Option-cases (break_lf s)) [
  | inl e ↦ ground arith
  | inr (q, e) ↦ let ih = break_lf-length s q e in ground arith
]

-- What is taken from `n`.
abbrev SliceTakes : ℕ → Slice × Reader → Type 0
SliceTakes n (complete l, r) = left r < n
SliceTakes n (full l, r) = (left r + length l ≤ n) × (2 ≤ length l)
SliceTakes n (ended l e, r) = left r + length l ≤ n

slice_full-Takes :
    (buf : Bytes) (w : List Segment)
    → 2 ≤ length buf
    → SliceTakes (length buf + to_come w) (slice_full buf w)
unfolding slice_full
slice_full-Takes buf w h = elim (Option-cases (break_lf buf)) [
  | inl e ↦ rw (e, slice_full) (omega arith, h)
  | inr (r, e) ↦ rw (e, slice_full) (omega (arith, break_lf-length buf r e))
]

SliceTakes-mono : (n m : ℕ) (x : Slice × Reader) → n ≤ m → SliceTakes n x → SliceTakes m x
SliceTakes-mono n m (complete l, r) h t = omega arith
SliceTakes-mono n m (full l, r) h (t, wide) = (omega arith, wide)
SliceTakes-mono n m (ended l e, r) h t = omega arith

-- A segment of which a part fits.
cut :
    (s buf : Bytes) (w : List Segment)
    → length buf < buffer_size
    → buffer_size - length buf < length s
    → SliceTakes (length buf + suc (length s + to_come w)) (
        slice_full
          (buf ++ take (buffer_size - length buf) s)
          (arrives (drop (buffer_size - length buf) s) ∷ w))
cut s buf w h k =
    let room = buffer_size - length buf in
    let l = length-append buf (take room s) in
    let t = length-take room s in
    let d = length-drop room s in
    SliceTakes-mono (length (buf ++ take room s) + to_come (arrives (drop room s) ∷ w))
      (length buf + suc (length s + to_come w))
      (slice_full (buf ++ take room s) (arrives (drop room s) ∷ w)) (ground arith)
      (slice_full-Takes (buf ++ take room s) (arrives (drop room s) ∷ w) (ground arith))

read_slice-Takes :
    (w : List Segment) (buf : Bytes) → SliceTakes (length buf + to_come w) (read_slice buf w)
unfolding read_slice
read_slice-Takes [] buf = elim (Option-cases (break_lf buf)) [
  | inl e ↦
      rw (e, read_slice)
        (elim (Bool-cases (leb buffer_size (length buf))) [
          | inl f ↦ rw f (omega arith, ground arith)
          | inr f ↦ rw f (omega arith)
        ])
  | inr (r, e) ↦ rw (e, read_slice) (omega (arith, break_lf-length buf r e))
]
read_slice-Takes (fails e' ∷ w) buf = elim (Option-cases (break_lf buf)) [
  | inl e ↦
      rw (e, read_slice)
        (elim (Bool-cases (leb buffer_size (length buf))) [
          | inl f ↦ rw f (omega arith, ground arith)
          | inr f ↦ rw f (omega arith)
        ])
  | inr (r, e) ↦ rw (e, read_slice) (omega (arith, break_lf-length buf r e))
]
read_slice-Takes (arrives s ∷ w) buf = elim (Option-cases (break_lf buf)) [
  | inl e ↦
      rw (e, read_slice)
        (elim (Bool-cases (leb buffer_size (length buf))) [
          | inl f ↦ rw f (omega arith, ground arith)
          | inr f ↦
              let room = buffer_size - length buf in
              let whole =
                SliceTakes-mono (length (buf ++ s) + to_come w)
                  (length buf + suc (length s + to_come w)) (read_slice (buf ++ s) w)
                  (omega (arith, length-append buf s)) (read_slice-Takes w (buf ++ s)) in
              elim (Bool-cases (leb (length s) room)) [
                | inl g ↦ rw (f, g) whole
                | inr g ↦ rw (f, g) (cut s buf w (ground arith) (ground arith))
              ]
        ])
  | inr (r, e) ↦ rw (e, read_slice) (omega (arith, break_lf-length buf r e))
]

abbrev ChunkTakes : ℕ → Chunk × Reader → Type 0
ChunkTakes n (line b, r) = left r < n
ChunkTakes n (prefix b, r) = left r < n
ChunkTakes n (failed e, r) = left r ≤ n

read_chunk-Takes :
    (n : ℕ) (x : Slice) (r : Reader) → SliceTakes n (x, r) → ChunkTakes n (read_chunk (x, r))
unfolding read_chunk
read_chunk-Takes n (complete l) r h = h
read_chunk-Takes n (full l) r h = ground arith
read_chunk-Takes n (ended [] e) r h = ground arith
read_chunk-Takes n (ended (c ∷ l) e) r h = ground arith

-- A line that is returned has taken something.
abbrev pub Takes : ℕ → LineResult × Reader → Type 0
Takes n (got l, r) = left r < n
Takes n (too_long, r) = left r ≤ n
Takes n (read_failed e, r) = left r ≤ n

Takes-mono : (n m : ℕ) (x : LineResult × Reader) → n ≤ m → Takes n x → Takes m x
Takes-mono n m (got l, r) h t = omega arith
Takes-mono n m (too_long, r) h t = omega arith
Takes-mono n m (read_failed e, r) h t = omega arith

take_chunk-Takes :
    (n max_len : ℕ) (acc : Bytes) (next : Bytes → Reader → LineResult × Reader) (chunk : Chunk)
    (r : Reader)
    → ChunkTakes n (chunk, r)
    → ((b : Bytes) → Takes (left r) (next b r))
    → Takes n (take_chunk max_len acc next chunk r)
unfolding take_chunk
take_chunk-Takes n max_len acc next (failed e) r t ih = t
take_chunk-Takes n max_len acc next (line b) r t ih =
    if-case (λ x. Takes n (x, r)) (ltb max_len (length (acc ++ b))) too_long (got (acc ++ b))
      (omega arith) t
take_chunk-Takes n max_len acc next (prefix b) r t ih =
    if-case (Takes n) (ltb max_len (length (acc ++ b))) (too_long, r) (next (acc ++ b) r)
      (omega arith) (Takes-mono (left r) n (next (acc ++ b) r) (omega arith) (ih (acc ++ b)))

read_loop-Takes :
    (f max_len : ℕ) (acc : Bytes) (r : Reader) → Takes (left r) (read_loop f max_len acc r)
unfolding read_loop read_line_chunk
read_loop-Takes zero max_len acc r = omega arith
read_loop-Takes (suc f) max_len acc r =
    let (slice, r1) = read_slice r.buffered r.incoming in
    let (chunk, r') = read_line_chunk r in
    take_chunk-Takes (left r) max_len acc (read_loop f max_len) chunk r'
      (read_chunk-Takes (left r) slice r1 (read_slice-Takes r.incoming r.buffered))
      (λ b. read_loop-Takes f max_len b r')

-- `readLine` never puts input back, and a line that it returns has taken some.
pub read_line-Takes : (max_len : ℕ) (r : Reader) → Takes (left r) (read_line max_len r)
unfolding read_line
read_line-Takes max_len r = read_loop-Takes (suc max_len) max_len [] r

pub Takes-left : (n : ℕ) (x : LineResult × Reader) → Takes n x → left x.1 ≤ n
Takes-left n (got l, r) h = omega arith
Takes-left n (too_long, r) h = h
Takes-left n (read_failed e, r) h = h
