-- ===== src/Server/Wire/Stream.antt =====
-- The bytes that a network delivers, and the slices that `ReadSlice` cuts them into.
use go_pop.Prelude.{
  ◌-◌, none, some, Option-cases, inl, inr, List, [], ◌∷◌, ◌++◌, length, take, drop,
  take-append-drop, leb, if-case, ◌≡◌, refl, ap, sym, ◌∙◌, arith, append_assoc,
}
use go_pop.Text.{Bytes}
use go_pop.Server.Wire.{
  Reader, Segment, arrives, fails, Slice, complete, full, ended, slice_full, read_slice, break_lf,
  buffer_size, new_reader,
}

-- The bytes that arrive before a read fails or the stream ends.
unfoldable pub arriving : List Segment → Bytes
arriving [] = []
arriving (arrives s ∷ w) = s ++ arriving w
arriving (fails e ∷ w) = []

abbrev pub stream : Reader → Bytes
stream r = r.buffered ++ arriving r.incoming

-- The bytes `s` start with the line `l`, with an LF behind it, and go on with `rest`.
abbrev pub StartsWith : Bytes → Bytes → Bytes → Type 0
StartsWith s l rest = break_lf s ≡ some (l, rest)

-- With a line in the buffer, that is the line of the stream.
break_lf-append :
    (a b l rest : Bytes) → break_lf a ≡ some (l, rest) → break_lf (a ++ b) ≡ some (l, rest ++ b)
unfolding break_lf
break_lf-append [] b l rest h = cc
break_lf-append (c ∷ a) b l rest h = elim (Option-cases (break_lf a)) [
  | inl e ↦ ground arith
  | inr ((l', rest'), e) ↦ let ih = break_lf-append a b l' rest' e in ground arith
]

-- With no LF in the buffer, the line starts with the whole of it.
break_lf-behind :
    (a b l rest : Bytes)
    → break_lf a ≡ none
    → break_lf (a ++ b) ≡ some (l, rest)
    → (l' : Bytes) × (break_lf b ≡ some (l', rest)) × (l ≡ a ++ l')
unfolding break_lf
break_lf-behind [] b l rest h k = (l, k, refl)
break_lf-behind (c ∷ a) b l rest h k = elim (Option-cases (break_lf (a ++ b))) [
  | inl e ↦ absurd (ground arith)
  | inr ((l', rest'), e) ↦
      let none' : break_lf a ≡ none = ground arith in
      let (l'', e', e'') = break_lf-behind a b l' rest' none' e in (l'', ground arith, ground arith)
]

-- A slice of a stream that starts with the line `l`: the line, or a part of it.
abbrev pub SliceReads : Bytes → Bytes → Slice × Reader → Type 0
SliceReads l rest (complete l1, r) = (l1 ≡ l) × (stream r ≡ rest)
SliceReads l rest (full p, r) =
    (l' : Bytes) × (break_lf (stream r) ≡ some (l', rest)) × (l ≡ p ++ l')
SliceReads l rest (ended p e, r) = ⊥

-- The line is in the buffer.
buffered_line :
    (buf later l rest l1 rest1 : Bytes)
    → break_lf buf ≡ some (l1, rest1)
    → StartsWith (buf ++ later) l rest
    → (l1 ≡ l) × (rest1 ++ later ≡ rest)
buffered_line buf later l rest l1 rest1 e h =
    let e' = break_lf-append buf later l1 rest1 e in (ground arith, ground arith)

slice_full_lem :
    (buf : Bytes) (w : List Segment) (l rest : Bytes)
    → StartsWith (buf ++ arriving w) l rest
    → SliceReads l rest (slice_full buf w)
unfolding slice_full
slice_full_lem buf w l rest h = elim (Option-cases (break_lf buf)) [
  | inl e ↦ rw (e, slice_full) (break_lf-behind buf (arriving w) l rest e h)
  | inr ((l1, rest1), e) ↦ rw (e, slice_full) (buffered_line buf (arriving w) l rest l1 rest1 e h)
]

no_line : (buf l rest : Bytes) → break_lf buf ≡ none → ¬ StartsWith (buf ++ []) l rest
no_line buf l rest e h = let (l', found, _) = break_lf-behind buf [] l rest e h in nothing found
  where
    nothing : {l' : Bytes} → ¬ (break_lf [] ≡ some (l', rest))
    nothing h = unfold break_lf in cc

pub read_slice_lem :
    (w : List Segment) (buf l rest : Bytes)
    → StartsWith (buf ++ arriving w) l rest
    → SliceReads l rest (read_slice buf w)
unfolding read_slice arriving
read_slice_lem [] buf l rest h = elim (Option-cases (break_lf buf)) [
  | inl e ↦ absurd (no_line buf l rest e h)
  | inr ((l1, rest1), e) ↦ rw (e, read_slice) (buffered_line buf [] l rest l1 rest1 e h)
]
read_slice_lem (fails e' ∷ w) buf l rest h = elim (Option-cases (break_lf buf)) [
  | inl e ↦ absurd (no_line buf l rest e h)
  | inr ((l1, rest1), e) ↦ rw (e, read_slice) (buffered_line buf [] l rest l1 rest1 e h)
]
read_slice_lem (arrives s ∷ w) buf l rest h = elim (Option-cases (break_lf buf)) [
  | inr ((l1, rest1), e) ↦
      rw (e, read_slice) (buffered_line buf (s ++ arriving w) l rest l1 rest1 e h)
  | inl e ↦
      let room = buffer_size - length buf in
      let behind = break_lf-behind buf (s ++ arriving w) l rest e h in
      let whole =
        read_slice_lem w (buf ++ s) l rest (ap break_lf (append_assoc buf s (arriving w)) ∙ h) in
      let cut = slice_full_lem (buf ++ take room s) (arrives (drop room s) ∷ w) l rest (
        ap break_lf (
          append_assoc buf (take room s) (drop room s ++ arriving w)
          ∙ ap (λ t. buf ++ t)
              (sym (append_assoc (take room s) (drop room s) (arriving w))
                ∙ ap (λ t. t ++ arriving w) (take-append-drop room s)))
        ∙ h) in
      rw (e, read_slice)
        (if-case (SliceReads l rest) (leb buffer_size (length buf))
          (full buf, new_reader (arrives s ∷ w)) _ behind
          (if-case (SliceReads l rest) (leb (length s) room) (read_slice (buf ++ s) w)
            (slice_full (buf ++ take room s) (arrives (drop room s) ∷ w)) whole cut))
]
