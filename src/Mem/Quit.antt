-- ===== src/Mem/Quit.antt =====
-- QUIT in pop3mem/store.go: what is left of the maildrop, and the number that is reported.
pub mod Maildrop
use native.Mathlib.Nat.{zero-add}
use go_pop.Prelude.{
  ℕ, zero, suc, ◌+◌, ◌-◌, ◌≤◌, ◌<◌, Bool, true, false, ◌&&◌, ◌||◌, Bool-cases, Option-cases, inl,
  inr, Option, none, some, List, [], ◌∷◌, ◌++◌, ◌≡◌, ◌≢◌, refl, ap, ◌∙◌, sym, arith, All, length,
  get_elem?, elem, if◌then◌else◌, leb, ltb, ◌==◌, append-nil,
}
use native.Mathlib.Decide.{dec_lt}
use go_pop.Text.{Bytes, equal, equal_iff}
use go_pop.Server.Errors.{Outcome, ok, fail}
use go_pop.Mem.{
  Message, Account, Store, Session, find_user, expunge_loop, expunge, marked, quit, dele, login,
  rset,
}
use go_pop.Mem.Live.{live, visible, get_elem?-within, get_elem?-beyond}
use go_pop.Mem.Accounts.{find_user-put_user, equal_refl}
use go_pop.Mem.Addresses.{Apart}

-- The marks of a session are different numbers of its messages.
abbrev Marks : ℕ → List ℕ → Type 0
Marks n [] = Unit
Marks n (k ∷ ks) = (0 < k) × (k ≤ n) × (elem k ks ≡ false) × Marks n ks

abbrev pub IsValid : Session → Type 0
IsValid s = Marks (length s.msgs) s.deleted

pub dele-IsValid : (n : ℕ) (s : Session) → IsValid s → IsValid (dele n s).0
unfolding dele
dele-IsValid n s h = ground arith

All-front : (P : Message → Type 0) (xs ys : List Message) → All P (xs ++ ys) → All P xs
All-front P [] ys h = tt
All-front P (x ∷ xs) ys (p, h) = (p, All-front P xs ys h)

All-back : (P : Message → Type 0) (xs ys : List Message) → All P (xs ++ ys) → All P ys
All-back P [] ys h = h
All-back P (x ∷ xs) ys (p, h) = All-back P xs ys h

-- Each message is the one at its index.
get_elem?-All :
    (P : Message → Type 0) (ms : List Message) (k : ℕ) {m : Message}
    → All P ms
    → get_elem? ms k ≡ some m
    → P m
get_elem?-All P [] k h e = cc
get_elem?-All P (x ∷ ms) zero (p, h) e = let same : x ≡ _ = ground arith in rw same at p
get_elem?-All P (x ∷ ms) (suc k) (p, h) e = get_elem?-All P ms k h e

-- Where addresses differ, an address determines the index.
same_index :
    (ms : List Message) (j k : ℕ) (a b : Message)
    → Apart ms
    → get_elem? ms j ≡ some a
    → get_elem? ms k ≡ some b
    → a.addr ≡ b.addr
    → j ≡ k
same_index [] j k a b h ej ek e = cc
same_index (m ∷ ms) zero zero a b h ej ek e = refl
same_index (m ∷ ms) zero (suc k) a b (p, h) ej ek e =
    let ne = get_elem?-All (λ x. x.addr ≢ m.addr) ms k p ek in
    let ma : m ≡ a = ground arith in absurd (ne (sym e ∙ ap (λ (x : Message). x.addr) (sym ma)))
same_index (m ∷ ms) (suc j) zero a b (p, h) ej ek e =
    let ne = get_elem?-All (λ x. x.addr ≢ m.addr) ms j p ej in
    let mb : m ≡ b = ground arith in absurd (ne (e ∙ ap (λ (x : Message). x.addr) (sym mb)))
same_index (m ∷ ms) (suc j) (suc k) a b (p, h) ej ek e = ap suc (same_index ms j k a b h ej ek e)

-- A message's address is marked exactly where its number is.
elem-marked :
    (del : List ℕ) (ms : List Message) (k : ℕ) (m : Message)
    → Apart ms
    → get_elem? ms k ≡ some m
    → k < length ms
    → elem m.addr (marked del ms) ≡ elem (suc k) del
unfolding marked elem
elem-marked [] ms k m h e lt = refl
elem-marked (n ∷ ns) ms k m h e lt =
    let ih = elem-marked ns ms k m h e lt in
    elim (Option-cases (get_elem? ms (n - 1))) [
      | inl none' ↦
          let ne : n ≢ suc k = λ (p : n ≡ suc k).
            let back : n - 1 ≡ k = omega arith in cc (none', e, ap (get_elem? ms) back) in
          ground (arith, ih, get_elem?-within ms (n - 1), ne)
      | inr (a, found) ↦
          let to : n ≡ suc k → a ≡ m = λ (p : n ≡ suc k).
            let back : n - 1 ≡ k = omega arith in cc (found, ap (get_elem? ms) back, e) in
          let from : a.addr ≡ m.addr → n - 1 ≡ k = same_index ms (n - 1) k a m h found e in
          ground (arith, ih, to, from)
    ]

-- How many of the messages behind index `i` are marked.
count_marked : List ℕ → ℕ → List Message → ℕ
count_marked del i [] = 0
count_marked del i (m ∷ ms) = (if elem (i + 1) del then 1 else 0) + count_marked del (i + 1) ms

count_marked-nil : (i : ℕ) (ms : List Message) → count_marked [] i ms ≡ 0
unfolding count_marked elem
count_marked-nil i [] = refl
count_marked-nil i (m ∷ ms) = omega (arith, count_marked-nil (i + 1) ms)

-- A mark counts once, if it is the number of a message.
count_marked-cons :
    (n : ℕ) (del : List ℕ) (i : ℕ) (ms : List Message)
    → elem n del ≡ false
    → count_marked (n ∷ del) i ms
      ≡ (if ltb i n && leb n (i + length ms) then 1 else 0) + count_marked del i ms
unfolding count_marked elem
count_marked-cons n del i [] h = ground arith
count_marked-cons n del i (m ∷ ms) h = ground (arith, count_marked-cons n del (i + 1) ms)

count_marked-length :
    (del : List ℕ) (ms : List Message) → Marks (length ms) del → count_marked del 0 ms ≡ length del
count_marked-length [] ms h = count_marked-nil 0 ms
count_marked-length (n ∷ ns) ms (p, q, fresh, h) =
    ground (arith, count_marked-cons n ns 0 ms fresh, count_marked-length ns ms h)

-- The messages of a view.
abbrev pub messages_of : List (ℕ × Message) → List Message
messages_of [] = []
messages_of ((n, m) ∷ l) = m ∷ messages_of l

-- `expunge_loop` over the messages from index `i` on, where each mark is known.
expunge_loop-live :
    (rem del : List ℕ) (i : ℕ) (ms rest : List Message)
    → All (λ (m : Message). elem m.addr rem ≡ false) rest
    → ((k : ℕ) (m : Message) → get_elem? ms k ≡ some m → elem m.addr rem ≡ elem (i + suc k) del)
    → expunge_loop rem (ms ++ rest) ≡ (messages_of (live del i ms) ++ rest, count_marked del i ms)
unfolding expunge_loop live count_marked
expunge_loop-live rem del i [] [] h at = refl
expunge_loop-live rem del i [] (m ∷ rest) (p, h) at =
    rw p (rw (expunge_loop-live rem del i [] rest h at))
expunge_loop-live rem del i (m ∷ ms) rest h at =
    let later = λ (k : ℕ) (x : Message) (e : get_elem? ms k ≡ some x).
      let shift : i + suc (suc k) ≡ i + 1 + suc k = omega arith in rw shift at (at (suc k) x e) in
    let ih = expunge_loop-live rem del (i + 1) ms rest h later in
    let head = at zero m refl in
    elim (Bool-cases (elem (i + 1) del)) [
      | inl e ↦ rw (head, e, ih) (ground arith)
      | inr e ↦ rw (head, e, ih) (ground arith)
    ]

Apart-front : (xs ys : List Message) → Apart (xs ++ ys) → Apart xs
Apart-front [] ys h = tt
Apart-front (x ∷ xs) ys (p, h) = (All-front (λ y. y.addr ≢ x.addr) xs ys p, Apart-front xs ys h)
