-- ===== src/Client/Body.antt =====
-- pop3client/commands.go: RETR and TOP, and the reader over the message body.
pub mod Reads
pub mod Whole
use go_pop.Prelude.{
  ℕ, zero, suc, ℤ, Bool, true, false, Option, none, some, List, [], ◌∷◌, ◌++◌, take, drop,
  if◌then◌else◌,
}
use go_pop.Text.{Bytes, codes, equal}
use go_pop.Decimal.{format_int}
use go_pop.Server.Wire.Progress.{left}
use go_pop.Client.{
  Client, ClientErr, Result, done, err, Action, go_on, ◌>>=◌, ◌>>◌, give, is_ok, expect_ok,
  write_cmd, read_line, unstuff_line,
}

pub record BodyReader : Type 0 where
  pub buf : Bytes
  pub finished : Bool

-- `&bodyReader{...}`.
abbrev pub new_body_reader : BodyReader
new_body_reader = record { buf = []; finished = false }

unfoldable pub retrieve : Bytes → Action BodyReader
unfolding write_cmd read_line is_ok
retrieve command = do
  write_cmd command
  status ← read_line
  give (expect_ok status)
  give (done new_body_reader)

unfoldable pub retr : ℤ → Action BodyReader
unfolding retrieve format_int
retr msg = retrieve (codes "RETR " ++ format_int msg)

unfoldable pub top : ℤ → ℤ → Action BodyReader
unfolding retrieve format_int
top msg lines = retrieve (codes "TOP " ++ (format_int msg ++ (codes " " ++ format_int lines)))

-- What `Read` returns: bytes, the end, or an error.
pub data ReadResult : Type 0 where
  bytes : Bytes → ReadResult
  at_end : ReadResult
  read_error : ClientErr → ReadResult

-- `copy(p, b.buf)`, where `p` has room for so many bytes.
abbrev pub hand_out : ℕ → BodyReader → Client → ReadResult × BodyReader × Client
hand_out room b c = (bytes (take room b.buf), record b { buf = drop room b.buf }, c)

-- A line of the loop of `Read`. Behind it the buffer is not empty: it ends in CRLF.
unfoldable pub next_line : ℕ → BodyReader → Result Bytes × Client → ReadResult × BodyReader × Client
unfolding unstuff_line
next_line room b (err e, c) = (read_error e, record b { finished = true }, c)
next_line room b (done line, c) =
    if equal line (codes ".")
    then (at_end, record b { finished = true }, c)
    else hand_out room (record b { buf = unstuff_line line ++ codes "\r\n" }) c

unfoldable pub read : ℕ → BodyReader → Client → ReadResult × BodyReader × Client
unfolding next_line read_line
read room b c = elim b.buf [
  | [] ↦ if b.finished then (at_end, b, c) else next_line room b (read_line c)
  | x ∷ s ↦ hand_out room b c
]

-- A line of the loop of `Close`; `next` goes on.
unfoldable pub drop_line :
    (BodyReader → Client → Result (Unit {0}) × BodyReader × Client)
    → BodyReader
    → Result Bytes × Client
    → Result (Unit {0}) × BodyReader × Client
drop_line next b (err e, c) = (err e, record b { finished = true }, c)
drop_line next b (done line, c) =
    let more = next b c in
    if equal line (codes ".") then (done tt, record b { finished = true }, c) else more

-- The loop of `Close` with fuel: every line that is read takes some of the input.
unfoldable pub close_loop : ℕ → BodyReader → Client → Result (Unit {0}) × BodyReader × Client
unfolding drop_line read_line
close_loop zero b c = (done tt, b, c)
close_loop (suc f) b c =
    let rest = drop_line (close_loop f) b (read_line c) in
    if b.finished then (done tt, b, c) else rest

unfoldable pub close : BodyReader → Client → Result (Unit {0}) × BodyReader × Client
unfolding close_loop
close b c = close_loop (suc (left c.reader)) b c
