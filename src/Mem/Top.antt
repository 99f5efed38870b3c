-- ===== src/Mem/Top.antt =====
-- `topBytes` of pop3mem/store.go against a description by bytes.
use native.Mathlib.Numerals.{add-one}
use go_pop.Prelude.{
  ℕ, zero, suc, ◌+◌, false, Bool-cases, Option-cases, inl, inr, none, some, [], ◌∷◌, ◌++◌, ◌≡◌,
  refl, ap, ◌∙◌, sym, arith, take, drop, ◌==◌, if◌then◌else◌, append-nil,
}
use go_pop.Text.{Bytes, codes}
use go_pop.Mem.Split.{Splits, behind_crlf, behind_lf, all_header, index-Lacks, index-CutAt}
use go_pop.Mem.{index, top_loop, body_start, top_bytes}

-- The first `n` lines, each with its LF; a last line need have none.
pub first_lines : ℕ → Bytes → Bytes
first_lines zero s = []
first_lines (suc k) [] = []
first_lines (suc k) (c ∷ s) = c ∷ first_lines (if c == b'\n' then k else suc k) s

-- One round takes the bytes up to the first LF.
round_none : (k : ℕ) (s : Bytes) → index (b'\n' ∷ []) s ≡ none → first_lines (suc k) s ≡ s
unfolding first_lines index
round_none k [] h = refl
round_none k (c ∷ s) h = ground (arith, round_none k s)

round_some :
    (k : ℕ) (s : Bytes) (i : ℕ)
    → index (b'\n' ∷ []) s ≡ some i
    → first_lines (suc k) s ≡ take (i + 1) s ++ first_lines k (drop (i + 1) s)
unfolding first_lines index
round_some k [] i h = cc
round_some k (c ∷ s) i h = elim (Bool-cases (c == b'\n')) [
  | inl e ↦ let i0 : i ≡ 0 = ground arith in rw (i0, e)
  | inr e ↦ elim (Option-cases (index (b'\n' ∷ []) s)) [
    | inl absent ↦ ground arith
    | inr (j, found) ↦
        let later = round_some k s j found in
        let is : i ≡ suc j = ground arith in rw (is, e, add-one) (ap (◌∷◌ c) (rw add-one at later))
  ]
]

top_loop-first_lines : (n : ℕ) (s : Bytes) → top_loop n s ≡ first_lines n s
unfolding top_loop first_lines
top_loop-first_lines zero s = refl
top_loop-first_lines (suc k) [] = refl
top_loop-first_lines (suc k) (c ∷ s) = elim (Option-cases (index (b'\n' ∷ []) (c ∷ s))) [
  | inl e ↦ rw (e, top_loop) (sym (round_none k (c ∷ s) e))
  | inr (i, e) ↦
      rw (e, top_loop)
        (ap (λ t. take (i + 1) (c ∷ s) ++ t) (top_loop-first_lines k (drop (i + 1) (c ∷ s)))
          ∙ sym (round_some k (c ∷ s) i e))
]

first_lines-nil : (n : ℕ) → first_lines n [] ≡ []
unfolding first_lines
first_lines-nil zero = refl
first_lines-nil (suc n) = refl

taken :
    (k n : ℕ) (s : Bytes)
    → (if n == 0 then take k s else take k s ++ top_loop n (drop k s))
      ≡ take k s ++ first_lines n (drop k s)
taken k zero s = unfold first_lines in sym (append-nil (take k s))
taken k (suc n) s =
    let more : (suc n == 0) ≡ false = ground arith in
    rw more (ap (λ t. take k s ++ t) (top_loop-first_lines (suc n) (drop k s)))

top_at :
    (s : Bytes) (n k : ℕ)
    → body_start s ≡ some k
    → top_bytes s n ≡ take k s ++ first_lines n (drop k s)
unfolding top_bytes first_lines
top_at s n k e = rw (top_bytes, e) (taken k n s)

from_cut :
    (pat s : Bytes) (n k : ℕ) (before after : Bytes)
    → body_start s ≡ some k
    → take k s ≡ before ++ pat
    → drop k s ≡ after
    → top_bytes s n ≡ (before ++ pat) ++ first_lines n after
from_cut pat s n k before after e t d =
    top_at s n k e
    ∙ ap (λ h. h ++ first_lines n (drop k s)) t
    ∙ ap (λ b. (before ++ pat) ++ first_lines n b) d

-- The message split, and the header with the first lines of the body.
abbrev pub IsTop : Bytes → ℕ → Bytes → Type 0
IsTop s n out = (header body : Bytes) × Splits s header body × (out ≡ header ++ first_lines n body)

-- TOP returns the header with its blank line and then exactly the first `n` lines of the body. The
-- header ends behind the first CRLF CRLF of the message, wherever that is; only where there is none,
-- behind the first LF LF; a message with neither is all header.
pub top_bytes-first_lines : (s : Bytes) (n : ℕ) → IsTop s n (top_bytes s n)
unfolding top_bytes body_start
top_bytes-first_lines s n = elim (Option-cases (index (codes "\r\n\r\n") s)) [
  | inr (i, e) ↦
      let (before, after, first, t, d) = index-CutAt (codes "\r\n\r\n") s i e in
      (
        before ++ codes "\r\n\r\n",
        after,
        behind_crlf before after first,
        from_cut (codes "\r\n\r\n") s n (i + 4) before after (rw (body_start, e) refl) t d,
      )
  | inl no_crlf ↦ elim (Option-cases (index (codes "\n\n") s)) [
    | inr (i, e) ↦
        let (before, after, first, t, d) = index-CutAt (codes "\n\n") s i e in
        (
          before ++ codes "\n\n",
          after,
          behind_lf before after (index-Lacks b'\r' (codes "\n\r\n") s no_crlf) first,
          from_cut (codes "\n\n") s n (i + 2) before after (rw (body_start, no_crlf, e) refl) t d,
        )
    | inl no_lf ↦
        let none' : body_start s ≡ none = rw (body_start, no_crlf, no_lf) refl in
        (
          s,
          [],
          all_header (index-Lacks b'\r' (codes "\n\r\n") s no_crlf)
              (index-Lacks b'\n' (codes "\n") s no_lf),
          rw (top_bytes, none') (rw first_lines-nil (sym (append-nil s))),
        )
  ]
]
