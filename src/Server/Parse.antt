-- ===== src/Server/Parse.antt =====
-- The utility functions of pop3server/conn.go: splitting a command line, numbers, SASL PLAIN, and
-- cleaning what goes into a response line.
pub mod Numbers
pub mod Commands
pub mod Sasl
use go_pop.Prelude.{
  ℕ, zero, suc, ◌+◌, ◌-◌, ◌*◌, Bool, true, false, ◌&&◌, ◌||◌, Option, none, some, List, [], ◌∷◌,
  ◌++◌, take, drop, ltb, leb, ◌==◌, if◌then◌else◌, ◌>>=◌, ◌≡◌, refl,
}
use go_pop.Text.{Bytes, codes}
use go_pop.Base64.{decode_base64}

-- `strings.IndexAny(line, " \t")`.
unfoldable pub index_blank : Bytes → Option ℕ
index_blank [] = none
index_blank (c ∷ s) =
    let later = index_blank s in
    if c == b' ' || c == b'\t' then some 0 else (later >>= λ i. some (suc i))

unfoldable pub split_command : Bytes → Bytes × Bytes
split_command line = elim (index_blank line) [
  | none ↦ (line, [])
  | some i ↦ (take i line, drop (i + 1) line)
]

abbrev pub is_crlf : ℕ → Bool
is_crlf c = c == b'\r' || c == b'\n'

-- `strings.ContainsAny(s, "\r\n")`.
unfoldable pub contains_crlf : Bytes → Bool
contains_crlf [] = false
contains_crlf (c ∷ s) = is_crlf c || contains_crlf s

-- The replacer that takes every CR and LF out.
unfoldable pub strip_crlf : Bytes → Bytes
strip_crlf [] = []
strip_crlf (c ∷ s) = let rest = strip_crlf s in if is_crlf c then rest else c ∷ rest

unfoldable pub sanitize_response : Bytes → Bytes
unfolding contains_crlf strip_crlf
sanitize_response s = if contains_crlf s then strip_crlf s else s

-- `math.MaxInt32`.
abbrev pub max_val : ℕ
max_val = 2147483647

-- The loop of `parseInt`, whose callers only ask whether there was an error.
unfoldable pub parse_digits : ℕ → Bytes → Option ℕ
parse_digits n [] = some n
parse_digits n (ch ∷ s) =
    let n' = n * 10 + (ch - b'0') in
    if ltb ch b'0' || ltb b'9' ch then none else if ltb max_val n' then none else parse_digits n' s

unfoldable pub parse_int : Bytes → Option ℕ
unfolding parse_digits
parse_int [] = none
parse_int (c ∷ s) = parse_digits 0 (c ∷ s)

-- A message number, or the text of the error.
pub data MsgNum : Type 0 where
  number : ℕ → MsgNum
  bad : Bytes → MsgNum

unfoldable pub parse_msg_num : List Bytes → MsgNum
unfolding parse_int
parse_msg_num [] = bad (codes "message number required")
parse_msg_num (a ∷ args) = elim (parse_int a) [
  | none ↦ bad (codes "invalid message number")
  | some n ↦ if ltb n 1 then bad (codes "invalid message number") else number n
]

unfoldable pub parse_optional_msg_num : List Bytes → MsgNum
unfolding parse_msg_num
parse_optional_msg_num [] = number 0
parse_optional_msg_num (a ∷ args) = parse_msg_num (a ∷ args)

unfoldable pub contains_ctl : Bytes → Bool
contains_ctl [] = false
contains_ctl (c ∷ s) = ltb c 0x20 || c == 0x7f || contains_ctl s

-- The loop of `splitNull`.
unfoldable pub split_null_loop : List Bytes → Bytes → Bytes → List Bytes
split_null_loop parts current [] = parts ++ current ∷ []
split_null_loop parts current (b ∷ s) =
    split_null_loop (if b == 0 then parts ++ current ∷ [] else parts)
      (if b == 0 then [] else current ++ b ∷ []) s

unfoldable pub split_null : Bytes → List Bytes
unfolding split_null_loop
split_null = split_null_loop [] []

-- What `decodeSASLPlain` returns: identity, username and password, or the text of an error.
pub data Credentials : Type 0 where
  plain_login : Bytes → Bytes → Bytes → Credentials
  malformed : Bytes → Credentials

unfoldable pub sasl_parts : List Bytes → Credentials
unfolding contains_ctl
sasl_parts (identity ∷ username ∷ password ∷ []) =
    if contains_ctl identity || contains_ctl username
    then malformed (codes "control characters in SASL PLAIN identity")
    else plain_login identity username password
sasl_parts _ = malformed (codes "invalid SASL PLAIN format")

unfoldable pub decode_sasl_plain : Bytes → Credentials
decode_sasl_plain encoded = elim (decode_base64 encoded) [
  | none ↦ malformed (codes "illegal base64 data")
  | some decoded ↦ sasl_parts (split_null decoded)
]
