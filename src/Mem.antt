-- ===== src/Mem.antt =====
-- pop3mem/store.go: the in-memory maildrop. A `*Message` is its address with what it points to,
-- since messages are never written after `AddMessage`; the mutex makes each store operation one
-- step.
pub mod Live
pub mod Accounts
pub mod Addresses
pub mod Quit
pub mod Top
pub mod Split
pub mod Interface
use go_pop.Prelude.{
  ℕ, zero, suc, ◌+◌, ◌-◌, ◌%◌, ◌^◌, ℤ, pos, to_int64, Bool, true, false, not, ◌&&◌, ◌||◌, Option,
  none, some, List, [], ◌∷◌, ◌++◌, length, get_elem?, take, drop, elem, ltb, leb, ◌==◌,
  if◌then◌else◌,
}
use Prim.Native.String.{String}
use go_pop.Text.{Bytes, codes, equal}
use go_pop.Protocol.{MessageInfo, MessageUidl}
use go_pop.Server.Errors.{Error, SessionError, Outcome, ok, fail, wire}

pub record Message : Type 0 where
  pub addr : ℕ
  pub uid : Bytes
  pub content : Bytes

pub record Account : Type 0 where
  pub password : Bytes
  pub messages : List Message

-- `next`: the address of the message that is allocated next.
pub record Store : Type 0 where
  pub users : List (Bytes × Account)
  pub next : ℕ

-- `New`.
abbrev pub new : Store
new = record { users = []; next = 0 }

-- `s.users[username]`, and the assignment to it.
unfoldable pub find_user : Bytes → List (Bytes × Account) → Option Account
unfolding equal
find_user name [] = none
find_user name ((n, a) ∷ us) = if equal n name then some a else find_user name us

unfoldable pub put_user : Bytes → Account → List (Bytes × Account) → List (Bytes × Account)
unfolding equal
put_user name a [] = (name, a) ∷ []
put_user name a ((n, b) ∷ us) = if equal n name then (name, a) ∷ us else (n, b) ∷ put_user name a us

unfoldable pub add_user : Bytes → Bytes → Store → Store
unfolding put_user
add_user name password s = record s {
  users = put_user name (record { password = password; messages = [] }) s.users;
}

-- `AddMessage`; `false`: unknown user.
unfoldable pub add_message : Bytes → Bytes → Bytes → Store → Store × Bool
add_message name uid content s = elim (find_user name s.users) [
  | none ↦ (s, false)
  | some acc ↦
      let m : Message = record { addr = s.next; uid = uid; content = content } in
      (
        record {
          users = put_user name (record acc { messages = acc.messages ++ m ∷ [] }) s.users;
          next = s.next + 1;
        },
        true,
      )
]

abbrev dummy_password : Bytes
dummy_password = 0 ∷ (codes "pop3mem-nonexistent-account" ++ 0 ∷ [])

-- `authenticate`: the stored password, or the dummy, is compared either way.
unfoldable pub authenticate : Bytes → Bytes → Store → Option (List Message)
authenticate name password s =
    let acc = find_user name s.users in
    let stored : Bytes = elim acc [ none ↦ dummy_password | some a ↦ a.password ] in
    let matches = equal stored password in
    elim acc [ none ↦ none | some a ↦ if matches then some a.messages else none ]

-- The loop of `expunge`: what is kept, and how many are removed.
unfoldable pub expunge_loop : List ℕ → List Message → List Message × ℕ
unfolding elem
expunge_loop remove [] = ([], 0)
expunge_loop remove (m ∷ ms) =
    let (kept, removed) = expunge_loop remove ms in
    if elem m.addr remove then (kept, suc removed) else (m ∷ kept, removed)

-- `expunge`; the keys of `remove` are addresses.
unfoldable pub expunge : Bytes → List ℕ → Store → Store × ℕ
expunge name [] s = (s, 0)
expunge name (r ∷ rs) s = elim (find_user name s.users) [
  | none ↦ (s, 0)
  | some acc ↦
      let (kept, removed) = expunge_loop (r ∷ rs) acc.messages in
      (record s { users = put_user name (record acc { messages = kept }) s.users }, removed)
]

-- `session` without its pointer to the store. `deleted`: the keys of the map.
pub record Session : Type 0 where
  pub username : Bytes
  pub msgs : List Message
  pub deleted : List ℕ

-- `NewSession`.
abbrev pub new_session : Session
new_session = record { username = []; msgs = []; deleted = [] }

abbrev pub says : String → SessionError
says text = wire (record { code = []; message = codes text; close = false })

abbrev pub auth_failed : SessionError
auth_failed =
    wire (record { code = codes "AUTH"; message = codes "authentication failed"; close = false })

unfoldable pub login : Bytes → Bytes → Store → Session → Session × Outcome (Unit {0})
login name password store s = elim (authenticate name password store) [
  | none ↦ (s, fail auth_failed)
  | some ms ↦ (record s { username = name; msgs = ms }, ok tt)
]

-- `s.msgs[msg-1]` for a number in range.
unfoldable pub msg_at : ℕ → Session → Outcome Message
msg_at msg s =
    if msg == 0 || ltb (length s.msgs) msg
    then fail (says "no such message")
    else if elem msg s.deleted
    then fail (says "message is deleted")
    else elim (get_elem? s.msgs (msg - 1)) [ none ↦ fail (says "no such message") | some m ↦ ok m ]

-- The loop of `Stat` from index `i`; the sum is an int64's bit pattern.
unfoldable pub stat_loop : List ℕ → ℕ → List Message → ℕ → ℕ → ℤ × ℤ
unfolding elem
stat_loop deleted i [] count size = (pos count, to_int64 size)
stat_loop deleted i (m ∷ ms) count size =
    let skip = elem (i + 1) deleted in
    stat_loop deleted (i + 1) ms (if skip then count else count + 1)
      (if skip then size else (size + length m.content) % 2 ^ 64)

unfoldable pub stat : Session → ℤ × ℤ
stat s = stat_loop s.deleted 0 s.msgs 0 0

abbrev pub info : ℕ → Message → MessageInfo
info num m = record { num = pos num; size = pos (length m.content) }

abbrev pub uidl_of : ℕ → Message → MessageUidl
uidl_of num m = record { num = pos num; unique_id = m.uid }

-- The loops of `List` and `Uidl`: an item for each index whose number is not deleted.
unfoldable pub list_loop :
    {A : Type 0} → (ℕ → Message → A) → List ℕ → ℕ → List Message → List A → List A
unfolding elem
list_loop item deleted i [] items = items
list_loop item deleted i (m ∷ ms) items =
    list_loop item deleted (i + 1) ms
      (if elem (i + 1) deleted then items else items ++ item (i + 1) m ∷ [])

unfoldable pub listing : {A : Type 0} → (ℕ → Message → A) → ℕ → Session → Outcome (List A)
listing item msg s =
    if ltb 0 msg
    then elim (msg_at msg s) [ fail e ↦ fail e | ok m ↦ ok (item msg m ∷ []) ]
    else ok (list_loop item s.deleted 0 s.msgs [])

abbrev pub list : ℕ → Session → Outcome (List MessageInfo)
list = listing info

abbrev pub uidl : ℕ → Session → Outcome (List MessageUidl)
uidl = listing uidl_of

unfoldable pub retr : ℕ → Session → Outcome Bytes
retr msg s = elim (msg_at msg s) [ fail e ↦ fail e | ok m ↦ ok m.content ]

unfoldable pub dele : ℕ → Session → Session × Outcome (Unit {0})
unfolding elem
dele msg s =
    if msg == 0 || ltb (length s.msgs) msg
    then (s, fail (says "no such message"))
    else if elem msg s.deleted
    then (s, fail (says "message already deleted"))
    else (record s { deleted = msg ∷ s.deleted }, ok tt)

abbrev pub rset : Session → Session
rset s = record s { deleted = [] }

-- The keys of `remove` in `Quit`: the addresses of the marked messages.
unfoldable pub marked : List ℕ → List Message → List ℕ
marked [] ms = []
marked (num ∷ nums) ms =
    let rest = marked nums ms in
    if leb 1 num && leb num (length ms)
    then elim (get_elem? ms (num - 1)) [ none ↦ rest | some m ↦ m.addr ∷ rest ]
    else rest

unfoldable pub quit : Store → Session → Store × ℕ
quit store s =
    if length s.deleted == 0 then (store, 0) else expunge s.username (marked s.deleted s.msgs) store

-- `bytes.HasPrefix`.
unfoldable pub starts_with : Bytes → Bytes → Bool
starts_with [] s = true
starts_with (p ∷ ps) [] = false
starts_with (p ∷ ps) (c ∷ s) = p == c && starts_with ps s

-- `bytes.Index` for a pattern that is not empty.
unfoldable pub index : Bytes → Bytes → Option ℕ
unfolding starts_with
index pat [] = none
index pat (c ∷ s) =
    let later = index pat s in
    if starts_with pat (c ∷ s) then some 0 else elim later [ none ↦ none | some i ↦ some (suc i) ]

-- The loop of `topBytes` with as many rounds left as the first argument.
unfoldable pub top_loop : ℕ → Bytes → Bytes
top_loop zero body = []
top_loop (suc left) [] = []
top_loop (suc left) (c ∷ s) = elim (index (b'\n' ∷ []) (c ∷ s)) [
  | none ↦ c ∷ s
  | some i ↦ take (i + 1) (c ∷ s) ++ top_loop left (drop (i + 1) (c ∷ s))
]

-- Where the body starts: behind the first blank line, CRLF before LF.
unfoldable pub body_start : Bytes → Option ℕ
body_start content = elim (index (codes "\r\n\r\n") content) [
  | some i ↦ some (i + 4)
  | none ↦ elim (index (codes "\n\n") content) [ none ↦ none | some i ↦ some (i + 2) ]
]

unfoldable pub top_bytes : Bytes → ℕ → Bytes
top_bytes content n = elim (body_start content) [
  | none ↦ content
  | some k ↦ if n == 0 then take k content else take k content ++ top_loop n (drop k content)
]

unfoldable pub top : ℕ → ℕ → Session → Outcome Bytes
top msg lines s = elim (msg_at msg s) [ fail e ↦ fail e | ok m ↦ ok (top_bytes m.content lines) ]
