-- ===== src/Client/Commands.antt =====
-- pop3client/commands.go: the commands with a parsed response, and those that only want "+OK".
use go_pop.Prelude.{ℤ, Option, none, some, List, [], ◌∷◌, ◌++◌}
use go_pop.Text.{Bytes, codes, fields, trim_space, trim_prefix}
use go_pop.Decimal.{format_int, parse_int64}
use go_pop.Protocol.{MessageInfo, MessageUidl}
use go_pop.Client.{
  Result, done, err, protocol, malformed, Action, ◌>>=◌, ◌>>◌, give, is_ok, expect_ok, write_cmd,
  read_line, read_multi_line, cmd, cmd_expect_ok,
}

-- Two numbers at the head of some fields.
unfoldable pub two_numbers : List Bytes → Option (ℤ × ℤ)
unfolding parse_int64
two_numbers (a ∷ b ∷ rest) = elim (parse_int64 a) [
  | none ↦ none
  | some num ↦ elim (parse_int64 b) [ none ↦ none | some size ↦ some (num, size) ]
]
two_numbers _ = none

-- `parseNumSize`; `none` on an error, the same for every cause.
unfoldable pub parse_num_size : Bytes → Option MessageInfo
unfolding fields two_numbers
parse_num_size line = elim (two_numbers (fields line)) [
  | none ↦ none
  | some (num, size) ↦ some (record { num = num; size = size })
]

-- A number and a text at the head of some fields.
unfoldable pub number_and_uid : List Bytes → Option MessageUidl
unfolding parse_int64
number_and_uid (a ∷ uid ∷ rest) = elim (parse_int64 a) [
  | none ↦ none
  | some num ↦ some (record { num = num; unique_id = uid })
]
number_and_uid _ = none

unfoldable pub parse_num_uid : Bytes → Option MessageUidl
unfolding fields number_and_uid
parse_num_uid line = number_and_uid (fields line)

-- The numbers of "+OK <count> <size>".
unfoldable pub stat_numbers : List Bytes → Option (ℤ × ℤ)
unfolding two_numbers
stat_numbers [] = none
stat_numbers (status ∷ rest) = two_numbers rest

-- A parsed value, or an error.
abbrev pub parsed_or : {A : Type 0} → Result A → Option A → Result A
parsed_or e none = e
parsed_or e (some a) = done a

unfoldable pub stat : Action (ℤ × ℤ)
unfolding cmd is_ok stat_numbers fields
stat = do
  status ← cmd (codes "STAT")
  give (expect_ok status)
  give (parsed_or (err (protocol status)) (stat_numbers (fields status)))

-- The items of the lines, up to the first line that cannot be parsed.
unfoldable pub parse_lines : {A : Type 0} → (Bytes → Option A) → List Bytes → Result (List A)
parse_lines parse [] = done []
parse_lines parse (line ∷ lines) = elim (parse line) [
  | none ↦ err (malformed line)
  | some item ↦ elim (parse_lines parse lines) [ err e ↦ err e | done items ↦ done (item ∷ items) ]
]

-- LIST and UIDL with no argument.
unfoldable pub multi_items : {A : Type 0} → Bytes → (Bytes → Option A) → Action (List A)
unfolding write_cmd read_line is_ok read_multi_line parse_lines
multi_items command parse = do
  write_cmd command
  status ← read_line
  give (expect_ok status)
  lines ← read_multi_line
  give (parse_lines parse lines)

unfoldable pub list : Action (List MessageInfo)
unfolding multi_items parse_num_size
list = multi_items (codes "LIST") parse_num_size

unfoldable pub uidl : Action (List MessageUidl)
unfolding multi_items parse_num_uid
uidl = multi_items (codes "UIDL") parse_num_uid

-- LIST and UIDL with a message number.
unfoldable pub one_item : {A : Type 0} → Bytes → (Bytes → Option A) → Action A
unfolding cmd is_ok trim_space trim_prefix
one_item command parse = do
  status ← cmd command
  give (expect_ok status)
  give (parsed_or (err (protocol status)) (parse (trim_space (trim_prefix status (codes "+OK")))))

unfoldable pub list_one : ℤ → Action MessageInfo
unfolding one_item parse_num_size format_int
list_one msg = one_item (codes "LIST " ++ format_int msg) parse_num_size

unfoldable pub uidl_one : ℤ → Action MessageUidl
unfolding one_item parse_num_uid format_int
uidl_one msg = one_item (codes "UIDL " ++ format_int msg) parse_num_uid

unfoldable pub dele : ℤ → Action (Unit {0})
unfolding cmd_expect_ok format_int
dele msg = cmd_expect_ok (codes "DELE " ++ format_int msg)

unfoldable pub rset : Action (Unit {0})
unfolding cmd_expect_ok
rset = cmd_expect_ok (codes "RSET")

unfoldable pub noop : Action (Unit {0})
unfolding cmd_expect_ok
noop = cmd_expect_ok (codes "NOOP")
