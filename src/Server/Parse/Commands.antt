-- ===== src/Server/Parse/Commands.antt =====
-- Command lines split, and response lines cleaned.
use native.Mathlib.Numerals.{add-one}
use go_pop.Prelude.{
  ℕ, suc, ◌+◌, Bool, true, false, ◌||◌, Bool-cases, Option-cases, inl, inr, none, some, [], ◌∷◌,
  ◌++◌, take, drop, ◌==◌, ◌≡◌, ◌⊎◌, refl, ap, sym, arith, All,
}
use go_pop.Text.{Bytes}
use go_pop.Server.Parse.{
  index_blank, split_command, contains_crlf, strip_crlf, sanitize_response, is_crlf,
}

abbrev pub is_blank : ℕ → Bool
is_blank c = c == b' ' || c == b'\t'

-- No blank stands in front of the one that is found, and none anywhere if none is found.
index_blank-some :
    (s : Bytes) (i : ℕ)
    → index_blank s ≡ some i
    → (c : ℕ) × (s ≡ take i s ++ c ∷ drop (i + 1) s)
      × (is_blank c ≡ true)
      × All (λ x. is_blank x ≡ false) (take i s)
unfolding index_blank
index_blank-some [] i h = cc
index_blank-some (c ∷ s) i h = elim (Bool-cases (is_blank c)) [
  | inl e ↦ let i0 : i ≡ 0 = ground arith in rw i0 (c, refl, e, tt)
  | inr e ↦ elim (Option-cases (index_blank s)) [
    | inl absent ↦ absurd (ground arith)
    | inr (j, found) ↦
        let (b, split, blank, all) = index_blank-some s j found in
        let is : i ≡ suc j = ground arith in
        rw (is, add-one) (b, ap (◌∷◌ c) (rw add-one at split), blank, (e, all))
  ]
]

index_blank-none : (s : Bytes) → index_blank s ≡ none → All (λ x. is_blank x ≡ false) s
unfolding index_blank
index_blank-none [] h = tt
index_blank-none (c ∷ s) h = ground (arith, index_blank-none s)

-- The verb has no blank in it, and the line is the verb alone, or the verb, one blank and the
-- argument, where every byte of the argument is kept.
pub split_command_lem :
    (line : Bytes)
    → All (λ x. is_blank x ≡ false) (split_command line).0
      × (((line ≡ (split_command line).0) × ((split_command line).1 ≡ []))
          ⊎ ((c : ℕ) × (is_blank c ≡ true)
              × (line ≡ (split_command line).0 ++ c ∷ (split_command line).1)))
unfolding split_command
split_command_lem line = elim (Option-cases (index_blank line)) [
  | inl e ↦ rw (e, split_command) (index_blank-none line e, inl (refl, refl))
  | inr (i, e) ↦
      let (c, split, blank, all) = index_blank-some line i e in
      rw (e, split_command) (all, inr (c, blank, split))
]

strip_crlf-All : (s : Bytes) → All (λ c. is_crlf c ≡ false) (strip_crlf s)
unfolding strip_crlf
strip_crlf-All [] = tt
strip_crlf-All (c ∷ s) = elim (Bool-cases (is_crlf c)) [
  | inl e ↦ rw e (strip_crlf-All s)
  | inr e ↦ rw e (e, strip_crlf-All s)
]

contains_crlf-All : (s : Bytes) → contains_crlf s ≡ false → All (λ c. is_crlf c ≡ false) s
unfolding contains_crlf
contains_crlf-All [] h = tt
contains_crlf-All (c ∷ s) h = ground (arith, contains_crlf-All s)

contains_crlf-strip : (s : Bytes) → contains_crlf s ≡ false → strip_crlf s ≡ s
unfolding contains_crlf strip_crlf
contains_crlf-strip [] h = refl
contains_crlf-strip (c ∷ s) h = ground (arith, contains_crlf-strip s)

-- A cleaned text has no CR and no LF, and it is the text with exactly these taken out.
pub sanitize_response_lem :
    (s : Bytes)
    → All (λ c. is_crlf c ≡ false) (sanitize_response s) × (sanitize_response s ≡ strip_crlf s)
unfolding sanitize_response
sanitize_response_lem s = elim (Bool-cases (contains_crlf s)) [
  | inl e ↦ rw e (strip_crlf-All s, refl)
  | inr e ↦ rw e (contains_crlf-All s e, sym (contains_crlf-strip s e))
]
