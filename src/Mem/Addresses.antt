-- ===== src/Mem/Addresses.antt =====
-- The identity of messages in pop3mem/store.go, on which `expunge` rests.
use go_pop.Prelude.{
  ℕ, ◌+◌, ◌<◌, Bool-cases, Option-cases, inl, inr, some, List, [], ◌∷◌, ◌++◌, ◌≡◌, ◌≢◌, arith, All,
  All-append, elem,
}
use go_pop.Text.{Bytes, equal}
use go_pop.Mem.{
  Message, Account, Store, find_user, put_user, add_user, add_message, new, expunge_loop, expunge,
}

-- No two messages of a maildrop have the same address.
abbrev pub Apart : List Message → Type 0
Apart [] = Unit
Apart (m ∷ ms) = All (λ x. x.addr ≢ m.addr) ms × Apart ms

-- Addresses were handed out before, and are all different.
abbrev IsSoundAt : ℕ → Bytes × Account → Type 0
IsSoundAt next u = Apart u.1.messages × All (λ (m : Message). m.addr < next) u.1.messages

abbrev pub IsSound : Store → Type 0
IsSound s = All (IsSoundAt s.next) s.users

module _ (P : Bytes × Account → Type 0)
    (any_name : (n k : Bytes) (a : Account) → P (n, a) → P (k, a)) where
  All-put_user :
      (name : Bytes) (a : Account) (us : List (Bytes × Account))
      → P (name, a)
      → All P us
      → All P (put_user name a us)
  unfolding put_user
  All-put_user name a [] p h = (p, tt)
  All-put_user name a ((n, b) ∷ us) p (pb, h) = elim (Bool-cases (equal n name)) [
    | inl e ↦ rw e (p, h)
    | inr e ↦ rw e (pb, All-put_user name a us p h)
  ]

  All-find_user :
      (name : Bytes) (us : List (Bytes × Account)) {a : Account}
      → All P us
      → find_user name us ≡ some a
      → P (name, a)
  unfolding find_user
  All-find_user name [] h e = cc
  All-find_user name ((n, b) ∷ us) {a} (pb, h) e = elim (Bool-cases (equal n name)) [
    | inl t ↦ let same : b ≡ a = ground arith in rw same at (any_name n name b pb)
    | inr t ↦ All-find_user name us h (rw t at e)
  ]

All-mono :
    {A : Type 0} {P Q : A → Type 0} (xs : List A) → ((x : A) → P x → Q x) → All P xs → All Q xs
All-mono [] f h = tt
All-mono (x ∷ xs) f (p, h) = (f x p, All-mono xs f h)

Apart-append :
    (ms : List Message) (m : Message)
    → Apart ms
    → All (λ (x : Message). x.addr < m.addr) ms
    → Apart (ms ++ m ∷ [])
Apart-append [] m h lt = (tt, tt)
Apart-append (x ∷ ms) m (hx, h) (ltx, lt) =
    (All-append (λ y. y.addr ≢ x.addr) ms (m ∷ []) hx (omega arith, tt), Apart-append ms m h lt)

All-expunge_loop :
    (P : Message → Type 0) (rem : List ℕ) (ms : List Message)
    → All P ms
    → All P (expunge_loop rem ms).0
unfolding expunge_loop
All-expunge_loop P rem [] h = tt
All-expunge_loop P rem (m ∷ ms) (p, h) = elim (Bool-cases (elem m.addr rem)) [
  | inl e ↦ rw e (All-expunge_loop P rem ms h)
  | inr e ↦ rw e (p, All-expunge_loop P rem ms h)
]

Apart-expunge_loop : (rem : List ℕ) (ms : List Message) → Apart ms → Apart (expunge_loop rem ms).0
unfolding expunge_loop
Apart-expunge_loop rem [] h = tt
Apart-expunge_loop rem (m ∷ ms) (p, h) = elim (Bool-cases (elem m.addr rem)) [
  | inl e ↦ rw e (Apart-expunge_loop rem ms h)
  | inr e ↦ rw e (All-expunge_loop (λ x. x.addr ≢ m.addr) rem ms p, Apart-expunge_loop rem ms h)
]

module _ (s : Store) (sound : IsSound s) where
  add_user-IsSound : (name password : Bytes) → IsSound (add_user name password s)
  unfolding add_user
  add_user-IsSound name password =
      All-put_user (IsSoundAt s.next) (λ n k a h. h) name _ s.users (tt, tt) sound

  grown :
      (us : List (Bytes × Account)) → All (IsSoundAt s.next) us → All (IsSoundAt (s.next + 1)) us
  grown us = All-mono us (λ u h. (h.0, All-mono u.1.messages (λ m lt. omega arith) h.1))

  add_message-IsSound : (name uid content : Bytes) → IsSound (add_message name uid content s).0
  unfolding add_message
  add_message-IsSound name uid content = elim (Option-cases (find_user name s.users)) [
    | inl e ↦ rw (e, add_message) sound
    | inr (a, e) ↦
        let m : Message = record { addr = s.next; uid = uid; content = content } in
        let (apart, lt) = All-find_user (IsSoundAt s.next) (λ n k a h. h) name s.users sound e in
        let lt' =
          All-mono a.messages
            (λ (x : Message) (h : x.addr < s.next). let r : x.addr < s.next + 1 = omega arith in r)
            lt in
        rw (e, add_message)
          (All-put_user (IsSoundAt (s.next + 1)) (λ n k a h. h) name _ s.users
            (
              Apart-append a.messages m apart lt,
              All-append (λ (x : Message). x.addr < s.next + 1) a.messages (m ∷ []) lt'
                  (omega arith, tt),
            )
            (grown s.users sound))
  ]

  expunge-IsSound : (name : Bytes) (rem : List ℕ) → IsSound (expunge name rem s).0
  unfolding expunge
  expunge-IsSound name [] = sound
  expunge-IsSound name (r ∷ rs) = elim (Option-cases (find_user name s.users)) [
    | inl e ↦ rw (e, expunge) sound
    | inr (a, e) ↦
        let (apart, lt) = All-find_user (IsSoundAt s.next) (λ n k a h. h) name s.users sound e in
        rw (e, expunge)
          (All-put_user (IsSoundAt s.next) (λ n k a h. h) name _ s.users
            (
              Apart-expunge_loop (r ∷ rs) a.messages apart,
              All-expunge_loop (λ (x : Message). x.addr < s.next) (r ∷ rs) a.messages lt,
            )
            sound)
  ]

-- What may happen to the store: `AddUser`, `AddMessage`, `expunge`.
pub data StoreOp : Type 0 where
  user : Bytes → Bytes → StoreOp
  message : Bytes → Bytes → Bytes → StoreOp
  remove : Bytes → List ℕ → StoreOp

unfoldable pub run_ops : List StoreOp → Store → Store
run_ops [] s = s
run_ops (user n p ∷ ops) s = run_ops ops (add_user n p s)
run_ops (message n u c ∷ ops) s = run_ops ops (add_message n u c s).0
run_ops (remove n rem ∷ ops) s = run_ops ops (expunge n rem s).0

IsSound-run_ops : (ops : List StoreOp) (s : Store) → IsSound s → IsSound (run_ops ops s)
unfolding run_ops
IsSound-run_ops [] s h = h
IsSound-run_ops (user n p ∷ ops) s h = IsSound-run_ops ops _ (add_user-IsSound s h n p)
IsSound-run_ops (message n u c ∷ ops) s h = IsSound-run_ops ops _ (add_message-IsSound s h n u c)
IsSound-run_ops (remove n rem ∷ ops) s h = IsSound-run_ops ops _ (expunge-IsSound s h n rem)

-- However store operations interleave, from an empty store on, the messages of each maildrop have
-- different addresses, all handed out before: identity by pointer never confuses two messages.
pub run_ops-IsSound : (ops : List StoreOp) → IsSound (run_ops ops new)
run_ops-IsSound ops = IsSound-run_ops ops new tt
