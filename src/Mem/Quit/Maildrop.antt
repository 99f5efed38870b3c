-- ===== src/Mem/Quit/Maildrop.antt =====
-- QUIT in pop3mem/store.go over the whole store.
use native.Mathlib.Nat.{zero-add}
use go_pop.Prelude.{
  ℕ, suc, ◌-◌, ◌<◌, false, Bool-cases, Option-cases, inl, inr, none, some, List, [], ◌∷◌, ◌++◌, ◌≡◌,
  ◌≢◌, refl, ◌∙◌, arith, All, length, get_elem?, elem, if◌then◌else◌, ◌==◌,
}
use native.Mathlib.Decide.{dec_lt}
use go_pop.Text.{Bytes, equal, equal_iff}
use go_pop.Mem.{Message, Account, Store, Session, find_user, expunge_loop, expunge, marked, quit}
use go_pop.Mem.Live.{visible, get_elem?-beyond}
use go_pop.Mem.Accounts.{find_user-put_user, equal_refl}
use go_pop.Mem.Addresses.{Apart}
use go_pop.Mem.Quit.{
  IsValid, All-back, Apart-front, get_elem?-All, elem-marked, count_marked-length, messages_of,
  expunge_loop-live,
}

-- No message of `ys` shares its address with one of `xs`.
cross :
    (xs ys : List Message)
    → Apart (xs ++ ys)
    → All (λ (y : Message). All (λ (x : Message). y.addr ≢ x.addr) xs) ys
cross [] ys h = all_of ys
  where
    all_of : (l : List Message) → All {0, 0} (λ (y : Message). Unit) l
    all_of [] = tt
    all_of (y ∷ l) = (tt, all_of l)
cross (x ∷ xs) ys (p, h) = both ys (All-back (λ y. y.addr ≢ x.addr) xs ys p) (cross xs ys h)
  where
    both :
        (l : List Message)
        → All (λ (y : Message). y.addr ≢ x.addr) l
        → All (λ (y : Message). All (λ (z : Message). y.addr ≢ z.addr) xs) l
        → All (λ (y : Message). All (λ (z : Message). y.addr ≢ z.addr) (x ∷ xs)) l
    both [] a b = tt
    both (y ∷ l) (a, as') (b, bs) = ((a, b), both l as' bs)

elem-marked_other :
    (a : ℕ) (del : List ℕ) (ms : List Message)
    → All (λ (x : Message). a ≢ x.addr) ms
    → elem a (marked del ms) ≡ false
unfolding marked elem
elem-marked_other a [] ms h = refl
elem-marked_other a (n ∷ ns) ms h =
    let ih = elem-marked_other a ns ms h in
    elim (Option-cases (get_elem? ms (n - 1))) [
      | inl e ↦ ground (arith, ih)
      | inr (m, e) ↦
          let ne = get_elem?-All (λ x. a ≢ x.addr) ms (n - 1) h e in ground (arith, ih, ne)
    ]

unmarked :
    (del : List ℕ) (xs ys : List Message)
    → All (λ (y : Message). All (λ (x : Message). y.addr ≢ x.addr) xs) ys
    → All (λ (y : Message). elem y.addr (marked del xs) ≡ false) ys
unmarked del xs [] h = tt
unmarked del xs (y ∷ ys) (p, h) = (elem-marked_other y.addr del xs p, unmarked del xs ys h)

within_of_some : (ms : List Message) (k : ℕ) {m : Message} → get_elem? ms k ≡ some m → k < length ms
within_of_some ms k e = elim (dec_lt k (length ms)) [
  | yes h ↦ h
  | no h ↦ let out = get_elem?-beyond ms k (omega arith) in cc
]

expunge_loop-nil : (ms : List Message) → expunge_loop [] ms ≡ (ms, 0)
unfolding expunge_loop elem
expunge_loop-nil [] = refl
expunge_loop-nil (m ∷ ms) = rw (expunge_loop-nil ms)

expunge_any :
    (name k : Bytes) (rem : List ℕ) (store : Store) {acc : Account}
    → find_user name store.users ≡ some acc
    → (find_user k (expunge name rem store).0.users ≡ (
        if equal name k
        then some (record acc { messages = (expunge_loop rem acc.messages).0 })
        else find_user k store.users))
      × ((expunge name rem store).1 ≡ (expunge_loop rem acc.messages).1)
unfolding expunge
expunge_any name k [] store {acc} e =
    rw (expunge_loop-nil acc.messages) (ground (arith, equal_iff name k), refl)
expunge_any name k (r ∷ rs) store e =
    rw (e, expunge) (find_user-put_user name k _ store.users, refl)

quit-expunge :
    (store : Store) (s : Session)
    → quit store s ≡ expunge s.username (marked s.deleted s.msgs) store
unfolding quit
quit-expunge store s = go s.deleted
  where
    go :
        (del : List ℕ)
        → (if length del == 0 then (store, 0) else expunge s.username (marked del s.msgs) store)
          ≡ expunge s.username (marked del s.msgs) store
    go [] = unfold marked expunge in refl
    go (n ∷ ns) = let more : (suc (length ns) == 0) ≡ false = ground arith in rw more

expunge_loop-expunge_loop :
    (rem : List ℕ) (ms : List Message) → (expunge_loop rem (expunge_loop rem ms).0).1 ≡ 0
unfolding expunge_loop
expunge_loop-expunge_loop rem [] = refl
expunge_loop-expunge_loop rem (m ∷ ms) = elim (Bool-cases (elem m.addr rem)) [
  | inl e ↦ rw e (expunge_loop-expunge_loop rem ms)
  | inr e ↦ rw (e, e) (expunge_loop-expunge_loop rem ms)
]

expunge_missing :
    (name : Bytes) (rem : List ℕ) (store : Store)
    → find_user name store.users ≡ none
    → expunge name rem store ≡ (store, 0)
unfolding expunge
expunge_missing name [] store e = refl
expunge_missing name (r ∷ rs) store e = rw (e, expunge)

-- What one QUIT has removed, another QUIT with the same marks (of a second session that showed the
-- same messages) neither removes nor counts again.
pub quit-quit : (store : Store) (s : Session) → (quit (quit store s).0 s).1 ≡ 0
quit-quit store s =
    let rem = marked s.deleted s.msgs in
    elim (Option-cases (find_user s.username store.users)) [
      | inl e ↦ rw (
        quit-expunge store s,
        expunge_missing s.username rem store e,
        quit-expunge store s,
        expunge_missing s.username rem store e,
      )
      | inr (acc, e) ↦
          let (users, number) = expunge_any s.username s.username rem store e in
          let there = users ∙ rw (equal_refl s.username) in
          rw (quit-expunge store s, quit-expunge (expunge s.username rem store).0 s)
            ((expunge_any s.username s.username rem (expunge s.username rem store).0
                {acc = record acc { messages = (expunge_loop rem acc.messages).0 }} there).1
              ∙ expunge_loop-expunge_loop rem acc.messages)
    ]

-- QUIT in a session with valid marks, whose snapshot still stands in its user's maildrop, perhaps
-- with newer messages behind it: exactly the marked messages are gone, the others and the newer
-- ones stay in order, the number reported is the number of marks, and no other user's account
-- changes.
pub quit_lem :
    (store : Store) (s : Session) (acc : Account) (newer : List Message) (k : Bytes)
    → find_user s.username store.users ≡ some acc
    → acc.messages ≡ s.msgs ++ newer
    → Apart acc.messages
    → IsValid s
    → (find_user k (quit store s).0.users ≡ (
        if equal s.username k
        then some (record acc { messages = messages_of (visible s) ++ newer })
        else find_user k store.users))
      × ((quit store s).1 ≡ length s.deleted)
quit_lem store s acc newer k e split apart valid =
    let apart' = rw split at apart in
    let loop =
      expunge_loop-live (marked s.deleted s.msgs) s.deleted 0 s.msgs newer
        (unmarked s.deleted s.msgs newer (cross s.msgs newer apart'))
        (λ i m at.
          elem-marked s.deleted s.msgs i m (Apart-front s.msgs newer apart') at
            (within_of_some s.msgs i at)
          ∙ rw zero-add) in
    let (users, number) = expunge_any s.username k (marked s.deleted s.msgs) store e in
    rw (quit-expunge store s) (
      users ∙ rw (split, loop),
      number ∙ rw (split, loop) (count_marked-length s.deleted s.msgs valid),
    )
