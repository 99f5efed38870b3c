-- ===== src/Mem/Live.antt =====
-- What a session of pop3mem/store.go shows: the messages of its snapshot that are not marked, under
-- their numbers. `Stat`, `List`, `Uidl`, `Retr`, `Dele` and `Rset` are stated over this view.
use native.Mathlib.Nat.{zero-add}
use go_pop.Prelude.{
  ℕ, zero, suc, ◌+◌, ◌%◌, ◌^◌, ◌≤◌, ◌<◌, pos, to_int64, false, Bool-cases, inl, inr, Option, none,
  some, List, [], ◌∷◌, ◌++◌, ◌≡◌, refl, ap, ◌∙◌, sym, arith, length, get_elem?, elem, ◌==◌,
  if◌then◌else◌, append-nil, append_assoc, ◌>>=◌, is_none,
}
use go_pop.Server.Errors.{Outcome, ok, fail}
use go_pop.Mem.{
  Message, Session, msg_at, stat_loop, stat, info, uidl_of, list_loop, listing, list, uidl, retr,
  dele, rset,
}

-- The messages behind index `i` that are not marked, with their numbers.
unfoldable pub live : List ℕ → ℕ → List Message → List (ℕ × Message)
live deleted i [] = []
live deleted i (m ∷ ms) =
    let rest = live deleted (i + 1) ms in if elem (i + 1) deleted then rest else (i + 1, m) ∷ rest

abbrev pub visible : Session → List (ℕ × Message)
visible s = live s.deleted 0 s.msgs

abbrev pub octets : List (ℕ × Message) → ℕ
octets [] = 0
octets ((n, m) ∷ l) = length m.content + octets l

abbrev pub items : {A : Type 0} → (ℕ → Message → A) → List (ℕ × Message) → List A
items item [] = []
items item ((n, m) ∷ l) = item n m ∷ items item l

abbrev pub find : ℕ → List (ℕ × Message) → Option Message
find n [] = none
find n ((k, m) ∷ l) = if k == n then some m else find n l

-- The entries under other numbers.
abbrev pub without : ℕ → List (ℕ × Message) → List (ℕ × Message)
without n [] = []
without n ((k, m) ∷ l) = let rest = without n l in if k == n then rest else (k, m) ∷ rest

abbrev pub value : {A : Type 0} → Outcome A → Option A
value (ok a) = some a
value (fail e) = none

list_loop-live :
    {A : Type 0} (item : ℕ → Message → A) (del : List ℕ) (i : ℕ) (ms : List Message) (acc : List A)
    → list_loop item del i ms acc ≡ acc ++ items item (live del i ms)
unfolding list_loop live
list_loop-live item del i [] acc = sym (append-nil acc)
list_loop-live item del i (m ∷ ms) acc = elim (Bool-cases (elem (i + 1) del)) [
  | inl e ↦ rw e (list_loop-live item del (i + 1) ms acc)
  | inr e ↦
      rw e (list_loop-live item del (i + 1) ms (acc ++ item (i + 1) m ∷ []) ∙ append_assoc acc _ _)
]

to_int64-wrap : (a b : ℕ) → to_int64 (a % 2 ^ 64 + b) ≡ to_int64 (a + b)
unfolding to_int64
to_int64-wrap a b = let same : (a % 2 ^ 64 + b) % 2 ^ 64 ≡ (a + b) % 2 ^ 64 = omega arith in rw same

stat_loop-live :
    (del : List ℕ) (i : ℕ) (ms : List Message) (n size : ℕ)
    → stat_loop del i ms n size
      ≡ (pos (n + length (live del i ms)), to_int64 (size + octets (live del i ms)))
unfolding stat_loop live
stat_loop-live del i [] n size =
    let p : n + 0 ≡ n = omega arith in let q : size + 0 ≡ size = omega arith in rw (p, q)
stat_loop-live del i (m ∷ ms) n size = elim (Bool-cases (elem (i + 1) del)) [
  | inl e ↦ rw e (stat_loop-live del (i + 1) ms n size)
  | inr e ↦
      let more = live del (i + 1) ms in
      let p : n + 1 + length more ≡ n + suc (length more) = omega arith in
      let q : size + length m.content + octets more ≡ size + (length m.content + octets more) =
        omega arith in
      rw e (
        stat_loop-live del (i + 1) ms (n + 1) ((size + length m.content) % 2 ^ 64)
        ∙ rw (to_int64-wrap (size + length m.content) (octets more), p, q))
]

-- Below `i` there is nothing.
find-low : (del : List ℕ) (i n : ℕ) (ms : List Message) → n ≤ i → find n (live del i ms) ≡ none
unfolding live
find-low del i n [] h = refl
find-low del i n (m ∷ ms) h = ground (arith, find-low del (i + 1) n ms)

find-live :
    (del : List ℕ) (i k n : ℕ) (ms : List Message)
    → n ≡ i + suc k
    → find n (live del i ms) ≡ (if elem n del then none else get_elem? ms k)
unfolding live
find-live del i k n [] e = ground arith
find-live del i zero n (m ∷ ms) e =
    let e' : i + 1 ≡ n = omega arith in rw e' (ground (arith, find-low del n n ms))
find-live del i (suc k) n (m ∷ ms) e = ground (arith, find-live del (i + 1) k n ms)

pub get_elem?-beyond : {A : Type 0} (xs : List A) (k : ℕ) → length xs ≤ k → get_elem? xs k ≡ none
get_elem?-beyond [] k h = refl
get_elem?-beyond (x ∷ xs) zero h = absurd (omega arith)
get_elem?-beyond (x ∷ xs) (suc k) h = get_elem?-beyond xs k (omega arith)

value-msg_at : (n : ℕ) (s : Session) → value (msg_at n s) ≡ find n (visible s)
unfolding msg_at
value-msg_at zero s = sym (find-low s.deleted 0 0 s.msgs (omega arith))
value-msg_at (suc k) s =
    ground (arith, find-live s.deleted 0 k (suc k) s.msgs, get_elem?-beyond s.msgs k)

-- A mark takes its number out of the view, and nothing else.
live-mark :
    (n : ℕ) (del : List ℕ) (i : ℕ) (ms : List Message)
    → live (n ∷ del) i ms ≡ without n (live del i ms)
unfolding live elem
live-mark n del i [] = refl
live-mark n del i (m ∷ ms) = ground (arith, live-mark n del (i + 1) ms)

pub get_elem?-within :
    {A : Type 0} (xs : List A) (k : ℕ) → k < length xs → is_none (get_elem? xs k) ≡ false
get_elem?-within [] k h = absurd (omega arith)
get_elem?-within (x ∷ xs) zero h = refl
get_elem?-within (x ∷ xs) (suc k) h = get_elem?-within xs k (omega arith)

find-without : (n : ℕ) (l : List (ℕ × Message)) → find n l ≡ none → without n l ≡ l
find-without n [] h = refl
find-without n ((k, m) ∷ l) h = ground (arith, find-without n l)

-- STAT, LIST and UIDL with no argument show one and the same view: an item for each message that is
-- not marked, in order; their number; and their size in octets, as an int64.
pub views_agree :
    (s : Session)
    → (list 0 s ≡ ok (items info (visible s)))
      × (uidl 0 s ≡ ok (items uidl_of (visible s)))
      × (stat s ≡ (pos (length (visible s)), to_int64 (octets (visible s))))
unfolding listing stat
views_agree s = (
  ap ok (list_loop-live info s.deleted 0 s.msgs []),
  ap ok (list_loop-live uidl_of s.deleted 0 s.msgs []),
  stat_loop-live s.deleted 0 s.msgs 0 0 ∙ rw zero-add (rw zero-add),
)

-- RETR n, LIST n and UIDL n find message `n` exactly where the view has it.
pub single_lem :
    (n : ℕ) (s : Session)
    → 0 < n
    → (value (retr n s) ≡ (find n (visible s) >>= λ m. some m.content))
      × (value (list n s) ≡ (find n (visible s) >>= λ m. some (info n m ∷ [])))
      × (value (uidl n s) ≡ (find n (visible s) >>= λ m. some (uidl_of n m ∷ [])))
unfolding listing retr
single_lem n s h = ground (arith, value-msg_at n s)

-- All messages behind index `i`, with their numbers.
unfoldable pub numbered : ℕ → List Message → List (ℕ × Message)
numbered i [] = []
numbered i (m ∷ ms) = (i + 1, m) ∷ numbered (i + 1) ms

unmarked_all : (i : ℕ) (ms : List Message) → live [] i ms ≡ numbered i ms
unfolding live numbered elem
unmarked_all i [] = refl
unmarked_all i (m ∷ ms) = ap (λ l. (i + 1, m) ∷ l) (unmarked_all (i + 1) ms)

dele_view :
    (n : ℕ) (s : Session)
    → (value (dele n s).1 ≡ (find n (visible s) >>= λ _. some tt))
      × (visible (dele n s).0 ≡ without n (visible s))
      × ((dele n s).0.msgs ≡ s.msgs)
unfolding dele
dele_view zero s =
    let low = find-low s.deleted 0 0 s.msgs (omega arith) in
    (rw low, sym (find-without 0 (visible s) low), refl)
dele_view (suc k) s =
    let found = find-live s.deleted 0 k (suc k) s.msgs (omega arith) in
    ground (
      arith,
      found,
      get_elem?-beyond s.msgs k,
      get_elem?-within s.msgs k,
      find-without (suc k) (visible s),
      live-mark (suc k) s.deleted 0 s.msgs,
    )

-- DELE n succeeds exactly where the view has message `n`; it then takes that message out of the
-- view and leaves the rest; otherwise the view stays as it is. RSET brings every message back,
-- whatever has been marked: all messages of the snapshot are in the view, under their numbers in
-- order, right after RSET and also where DELE n goes before it.
pub dele_lem :
    (n : ℕ) (s : Session)
    → (value (dele n s).1 ≡ (find n (visible s) >>= λ _. some tt))
      × (visible (dele n s).0 ≡ without n (visible s))
      × (visible (rset s) ≡ numbered 0 s.msgs)
      × (visible (rset (dele n s).0) ≡ numbered 0 s.msgs)
dele_lem n s =
    let (found, view, kept) = dele_view n s in
    (found, view, unmarked_all 0 s.msgs, unmarked_all 0 (dele n s).0.msgs ∙ ap (numbered 0) kept)
