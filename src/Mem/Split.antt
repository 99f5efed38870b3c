-- ===== src/Mem/Split.antt =====
-- `bytes.Index` of pop3mem/store.go as the first occurrence, and where `topBytes` splits a message.
use native.Mathlib.Nat.{zero-add, suc-add}
use go_pop.Prelude.{
  ℕ, suc, ◌+◌, ◌≤◌, true, false, ◌⊎◌, Bool-cases, Option-cases, inl, inr, none, some, [], ◌∷◌, ◌++◌,
  ◌≡◌, ◌≢◌, refl, ap, ◌∙◌, sym, arith, take, drop, length, ==_iff, if◌then◌else◌,
}
use go_pop.Text.{Bytes, codes}
use go_pop.Mem.{starts_with, index}

-- The text with a pattern at its first occurrence: what is before it, and what is behind.
abbrev pub FirstAt : Bytes → Bytes → Bytes → Bytes → Type 0
FirstAt pat s before after =
    (s ≡ before ++ (pat ++ after))
    × ((b a : Bytes) → s ≡ b ++ (pat ++ a) → length before ≤ length b)

abbrev pub Lacks : Bytes → Bytes → Type 0
Lacks pat s = (b a : Bytes) → s ≢ b ++ (pat ++ a)

starts_with-append : (pat s : Bytes) → starts_with pat (pat ++ s) ≡ true
unfolding starts_with
starts_with-append [] s = refl
starts_with-append (p ∷ ps) s = ground (arith, starts_with-append ps s)

starts_with-split : (pat s : Bytes) → starts_with pat s ≡ true → (a : Bytes) × (s ≡ pat ++ a)
unfolding starts_with
starts_with-split [] s h = (s, refl)
starts_with-split (p ∷ ps) [] h = absurd (ground arith)
starts_with-split (p ∷ ps) (c ∷ s) h =
    let same : p ≡ c = (==_iff p c).0 (ground arith) in
    let (a, e) = starts_with-split ps s (ground arith) in (a, rw (same, e) refl)

tail-≡ : (c d : ℕ) (s t : Bytes) → c ∷ s ≡ d ∷ t → s ≡ t
tail-≡ c d s t h = cc

not_here : (pat : Bytes) (c : ℕ) (s a : Bytes) → starts_with pat (c ∷ s) ≡ false → c ∷ s ≢ pat ++ a
not_here pat c s a h =
    λ e. absurd (let k = ap (starts_with pat) e ∙ starts_with-append pat a in ground (arith, k))

index-cons :
    (pat : Bytes) (c : ℕ) (s : Bytes)
    → index pat (c ∷ s) ≡ (
        if starts_with pat (c ∷ s)
        then some 0
        else elim (index pat s) [ none ↦ none | some i ↦ some (suc i) ])
unfolding index
index-cons pat c s = refl

index-none :
    (pat : Bytes) (c : ℕ) (s : Bytes)
    → index pat (c ∷ s) ≡ none
    → (starts_with pat (c ∷ s) ≡ false) × (index pat s ≡ none)
index-none pat c s h =
    let h' = sym (index-cons pat c s) ∙ h in
    elim (Bool-cases (starts_with pat (c ∷ s))) [
      | inl e ↦ absurd (let k = (rw e at h') in ground arith)
      | inr e ↦ elim (Option-cases (index pat s)) [
        | inl f ↦ (e, f)
        | inr (j, f) ↦ absurd (let k = (rw (e, f) at h') in ground arith)
      ]
    ]

index-some :
    (pat : Bytes) (c : ℕ) (s : Bytes) (i : ℕ)
    → index pat (c ∷ s) ≡ some i
    → ((starts_with pat (c ∷ s) ≡ true) × (i ≡ 0))
      ⊎ ((starts_with pat (c ∷ s) ≡ false) × ((j : ℕ) × (index pat s ≡ some j) × (i ≡ suc j)))
index-some pat c s i h =
    let h' = sym (index-cons pat c s) ∙ h in
    elim (Bool-cases (starts_with pat (c ∷ s))) [
      | inl e ↦ inl (e, let k = (rw e at h') in ground arith)
      | inr e ↦ elim (Option-cases (index pat s)) [
        | inl f ↦ absurd (let k = (rw (e, f) at h') in ground arith)
        | inr (j, f) ↦ inr (e, (j, f, let k = (rw (e, f) at h') in ground arith))
      ]
    ]

pub index-Lacks : (p : ℕ) (ps s : Bytes) → index (p ∷ ps) s ≡ none → Lacks (p ∷ ps) s
index-Lacks p ps [] h [] a = λ e. cc
index-Lacks p ps [] h (d ∷ b) a = λ e. cc
index-Lacks p ps (c ∷ s) h [] a = not_here (p ∷ ps) c s a (index-none (p ∷ ps) c s h).0
index-Lacks p ps (c ∷ s) h (d ∷ b) a = λ e.
    index-Lacks p ps s (index-none (p ∷ ps) c s h).1 b a (tail-≡ c d s (b ++ ((p ∷ ps) ++ a)) e)

-- The first occurrence, and the text cut behind it.
abbrev pub CutAt : Bytes → Bytes → ℕ → Type 0
CutAt pat s k =
    (before after : Bytes) × FirstAt pat s before after
    × (take k s ≡ before ++ pat)
    × (drop k s ≡ after)

take-append : (a b : Bytes) → (take (length a) (a ++ b) ≡ a) × (drop (length a) (a ++ b) ≡ b)
take-append [] b = (refl, refl)
take-append (c ∷ a) b = let (t, d) = take-append a b in (ap (◌∷◌ c) t, d)

cut_here : (pat s : Bytes) → starts_with pat s ≡ true → CutAt pat s (length pat)
cut_here pat s h =
    let (a, e) = starts_with-split pat s h in
    let (t, d) = take-append pat a in
    (
      [],
      a,
      (e, λ b a'. λ e'. omega arith),
      ap (take (length pat)) e ∙ t,
      ap (drop (length pat)) e ∙ d,
    )

cut_later :
    (pat : Bytes) (c : ℕ) (s : Bytes) (k : ℕ)
    → starts_with pat (c ∷ s) ≡ false
    → CutAt pat s k
    → CutAt pat (c ∷ s) (suc k)
cut_later pat c s k h (before, after, (e, first), t, d) =
    (c ∷ before, after, (ap (◌∷◌ c) e, earlier), ap (◌∷◌ c) t, d)
  where
    earlier : (b a : Bytes) → c ∷ s ≡ b ++ (pat ++ a) → suc (length before) ≤ length b
    earlier [] a e' = absurd (not_here pat c s a h e')
    earlier (x ∷ b) a e' = let n = first b a (tail-≡ c x s (b ++ (pat ++ a)) e') in omega arith

pub index-CutAt : (pat s : Bytes) (i : ℕ) → index pat s ≡ some i → CutAt pat s (i + length pat)
index-CutAt pat [] i h = absurd (unfold index in ground arith)
index-CutAt pat (c ∷ s) i h = elim (index-some pat c s i h) [
  | inl (e, i0) ↦ rw (i0, zero-add) (cut_here pat (c ∷ s) e)
  | inr (e, (j, f, is)) ↦
      rw (is, suc-add) (cut_later pat c s (j + length pat) e (index-CutAt pat s j f))
]

-- The header of a message with its blank line, and the body: split behind the first CRLF CRLF of the
-- message wherever that is; only where there is none, behind the first LF LF; and with neither, the
-- message is all header.
pub data Splits (s : Bytes) : Bytes → Bytes → Type 0 where
  behind_crlf :
      (before body : Bytes)
      → FirstAt (codes "\r\n\r\n") s before body
      → Splits s (before ++ codes "\r\n\r\n") body
  behind_lf :
      (before body : Bytes)
      → Lacks (codes "\r\n\r\n") s
      → FirstAt (codes "\n\n") s before body
      → Splits s (before ++ codes "\n\n") body
  all_header : Lacks (codes "\r\n\r\n") s → Lacks (codes "\n\n") s → Splits s s []
