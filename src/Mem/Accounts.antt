-- ===== src/Mem/Accounts.antt =====
-- The users of pop3mem/store.go: adding users and messages, and logging in.
use go_pop.Prelude.{
  Bool, true, false, ◌+◌, Option, Option-cases, inl, inr, none, some, List, [], ◌∷◌, ◌++◌, ◌≡◌,
  refl, arith, if◌then◌else◌, ◌>>=◌,
}
use go_pop.Text.{Bytes, equal, equal_iff}
use go_pop.Mem.{Account, Store, Session, find_user, put_user, add_message, authenticate, login}
use go_pop.Mem.Live.{value}

pub find_user-put_user :
    (n k : Bytes) (a : Account) (us : List (Bytes × Account))
    → find_user k (put_user n a us) ≡ (if equal n k then some a else find_user k us)
unfolding find_user put_user
find_user-put_user n k a [] = refl
find_user-put_user n k a ((i, b) ∷ us) =
    ground (arith, equal_iff n k, equal_iff i n, equal_iff i k, find_user-put_user n k a us)

pub equal_refl : (a : Bytes) → equal a a ≡ true
equal_refl a = (equal_iff a a).1 refl

-- The store and the verdict of `AddMessage`, for what the user's name is mapped to.
abbrev pub IsAdded : Store → Option Account → Store × Bool → Type 0
IsAdded s none x = (x.0 ≡ s) × (x.1 ≡ false)
IsAdded s (some _) x = (x.0.next ≡ s.next + 1) × (x.1 ≡ true)

-- A message that is added stands last in its user's maildrop, under the store's next address, which
-- is then used up, and no other user's account changes; this succeeds. For an unknown user the store
-- stays as it was, and an error is returned.
pub add_message_lem :
    (name uid content k : Bytes) (s : Store)
    → (find_user k (add_message name uid content s).0.users ≡ (
        if equal name k
        then (find_user name s.users >>= λ a. some (record a {
          messages = a.messages ++ record { addr = s.next; uid = uid; content = content } ∷ [];
        }))
        else find_user k s.users))
      × IsAdded s (find_user name s.users) (add_message name uid content s)
unfolding add_message
add_message_lem name uid content k s = elim (Option-cases (find_user name s.users)) [
  | inl e ↦ rw (e, add_message) (ground (arith, equal_iff name k), (refl, refl))
  | inr (a, e) ↦ rw (e, add_message) (find_user-put_user name k _ s.users, (refl, refl))
]

-- Logging in succeeds exactly for a user that exists, with that user's password; the session then
-- has the user's name and a snapshot of the maildrop, and otherwise it is unchanged.
pub login_lem :
    (name password : Bytes) (store : Store) (s : Session)
    → (value (login name password store s).1
        ≡ (find_user name store.users >>= λ a. if equal a.password password then some tt else none))
      × ((login name password store s).0 ≡ (elim (find_user name store.users) [
        | none ↦ s
        | some a ↦
            if equal a.password password then record s { username = name; msgs = a.messages } else s
      ]))
unfolding login authenticate
login_lem name password store s = ground arith
