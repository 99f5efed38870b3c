-- ===== src/Server/Wire/Reading.antt =====
-- `readLine`: its bound, and the rounds it makes.
use go_pop.Prelude.{
  ℕ, zero, suc, ◌+◌, ◌-◌, ◌≤◌, ◌<◌, Bool-cases, inl, inr, List, [], ◌∷◌, ◌++◌, length,
  length-append, length-take, take, drop, ltb, ◌≡◌, refl, arith,
}
use go_pop.Text.{Bytes}
use go_pop.Server.Wire.{
  Reader, Segment, arrives, fails, Slice, complete, full, ended, Chunk, line, prefix, failed,
  LineResult, got, slice_full, read_slice, read_chunk, read_line_chunk, take_chunk, read_loop,
  read_line, drop_cr, buffer_size,
}

-- A slice that fills the buffer has two bytes at least.
abbrev Wide : Slice → Type 0
Wide (full l) = 2 ≤ length l
Wide _ = Unit

-- A part of a line has a byte at least.
abbrev pub Grows : Chunk → Type 0
Grows (prefix b) = 0 < length b
Grows _ = Unit

length-drop_cr : (l : Bytes) → length l ≤ length (drop_cr l) + 1
unfolding drop_cr
length-drop_cr [] = omega arith
length-drop_cr (c ∷ []) = ground arith
length-drop_cr (c ∷ d ∷ t) = omega (arith, length-drop_cr (d ∷ t))

read_chunk-Grows : (x : Slice) (r : Reader) → Wide x → Grows (read_chunk (x, r)).0
unfolding read_chunk
read_chunk-Grows (complete l) r h = tt
read_chunk-Grows (full l) r h = ground (arith, length-drop_cr l)
read_chunk-Grows (ended [] e) r h = tt
read_chunk-Grows (ended (c ∷ l) e) r h = tt

take_chunk-Grows :
    (max_len : ℕ) (acc : Bytes) (next next' : Bytes → Reader → LineResult × Reader) (chunk : Chunk)
    (r : Reader)
    → Grows chunk
    → ((b : Bytes)
        → length acc + length b ≤ max_len
        → 0 < length b
        → next (acc ++ b) r ≡ next' (acc ++ b) r)
    → take_chunk max_len acc next chunk r ≡ take_chunk max_len acc next' chunk r
unfolding take_chunk
take_chunk-Grows max_len acc next next' (failed e) r p ih = refl
take_chunk-Grows max_len acc next next' (line b) r p ih = refl
take_chunk-Grows max_len acc next next' (prefix b) r p ih =
    elim (Bool-cases (ltb max_len (length (acc ++ b)))) [
      | inl e ↦ rw e refl
      | inr e ↦ rw e (ih b (ground (arith, length-append acc b)) p)
    ]

-- With a round left for each byte that may still be added, the loop does not depend on the fuel.
read_loop_fuel :
    (f g max_len : ℕ) (acc : Bytes) (r : Reader)
    → ((r : Reader) → Grows (read_line_chunk r).0)
    → max_len < length acc + f
    → max_len < length acc + g
    → length acc ≤ max_len
    → read_loop f max_len acc r ≡ read_loop g max_len acc r
read_loop_fuel zero g max_len acc r grows hf hg h = absurd (omega arith)
read_loop_fuel (suc f) zero max_len acc r grows hf hg h = absurd (omega arith)
read_loop_fuel (suc f) (suc g) max_len acc r grows hf hg h =
    let (chunk, r') = read_line_chunk r in
    let later = λ (b : Bytes) (n : length acc + length b ≤ max_len) (p : 0 < length b).
      read_loop_fuel f g max_len (acc ++ b) r' grows (omega (arith, length-append acc b))
        (omega (arith, length-append acc b)) (omega (arith, length-append acc b)) in
    step chunk r' (
      take_chunk-Grows max_len acc (read_loop f max_len) (read_loop g max_len) chunk r' (grows r)
        later)
  where
    step :
        (chunk : Chunk) (r' : Reader)
        → take_chunk max_len acc (read_loop f max_len) (read_line_chunk r).0 (read_line_chunk r).1
          ≡ take_chunk max_len acc (read_loop g max_len) (read_line_chunk r).0 (read_line_chunk r).1
        → read_loop (suc f) max_len acc r ≡ read_loop (suc g) max_len acc r
    step chunk r' e = unfold read_loop in e

slice_full-Wide : (buf : Bytes) (w : List Segment) → 2 ≤ length buf → Wide (slice_full buf w).0
unfolding slice_full
slice_full-Wide buf w h = ground arith

read_slice-Wide : (w : List Segment) (buf : Bytes) → Wide (read_slice buf w).0
unfolding read_slice
read_slice-Wide [] buf = ground arith
read_slice-Wide (fails e ∷ w) buf = ground arith
read_slice-Wide (arrives s ∷ w) buf =
    let room = buffer_size - length buf in
    let ih = read_slice-Wide w (buf ++ s) in
    let l = length-append buf (take room s) in
    let t = length-take room s in
    ground (arith, ih, slice_full-Wide (buf ++ take room s) (arrives (drop room s) ∷ w))

pub read_line_chunk-Grows : (r : Reader) → Grows (read_line_chunk r).0
unfolding read_line_chunk
read_line_chunk-Grows r =
    let (slice, r') = read_slice r.buffered r.incoming in
    read_chunk-Grows slice r' (read_slice-Wide r.incoming r.buffered)

-- The line that is returned, if one is, is within the bound.
abbrev pub Bounded : ℕ → LineResult → Type 0
Bounded max_len (got l) = length l ≤ max_len
Bounded max_len _ = Unit

take_chunk-Bounded :
    (max_len : ℕ) (acc : Bytes) (next : Bytes → Reader → LineResult × Reader) (chunk : Chunk)
    (r : Reader)
    → ((b : Bytes) → Bounded max_len (next (acc ++ b) r).0)
    → Bounded max_len (take_chunk max_len acc next chunk r).0
unfolding take_chunk
take_chunk-Bounded max_len acc next (failed e) r h = tt
take_chunk-Bounded max_len acc next (line b) r h = ground arith
take_chunk-Bounded max_len acc next (prefix b) r h = ground (arith, h b)

read_loop-Bounded :
    (f max_len : ℕ) (acc : Bytes) (r : Reader) → Bounded max_len (read_loop f max_len acc r).0
unfolding read_loop
read_loop-Bounded zero max_len acc r = tt
read_loop-Bounded (suc f) max_len acc r =
    let (chunk, r') = read_line_chunk r in
    take_chunk-Bounded max_len acc (read_loop f max_len) chunk r'
      (λ b. read_loop-Bounded f max_len (acc ++ b) r')

-- `readLine` returns no line above the bound, and it has made all the rounds that it wants: with
-- any more fuel the result and the reader left behind are the same.
pub read_line_lem :
    (max_len more : ℕ) (r : Reader)
    → Bounded max_len (read_line max_len r).0
      × (read_loop (suc max_len + more) max_len [] r ≡ read_line max_len r)
unfolding read_line
read_line_lem max_len more r = (
  read_loop-Bounded (suc max_len) max_len [] r,
  read_loop_fuel (suc max_len + more) (suc max_len) max_len [] r read_line_chunk-Grows (omega arith)
      (omega arith) (omega arith),
)
