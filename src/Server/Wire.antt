-- ===== src/Server/Wire.antt =====
-- What pop3server/conn.go reads from and writes to: `bufio.Reader`, `bufio.Writer` and the network
-- connection behind them, and `readLine`.
pub mod Writing
pub mod Reading
pub mod Progress
pub mod Stream
pub mod Lines
use go_pop.Prelude.{
  ℕ, zero, suc, ◌+◌, ◌-◌, Bool, true, false, not, Option, none, some, List, [], ◌∷◌, ◌++◌, length,
  take, drop, ltb, leb, ◌==◌, if◌then◌else◌, ◌>>=◌,
}
use go_pop.Text.{Bytes}

-- A read error: the end of the stream, a deadline that passes (with the time since the start of the
-- connection), or any other.
pub data ReadErr : Type 0 where
  eof : ReadErr
  timeout : ℕ → ReadErr
  broken : ReadErr

-- What the network delivers, read by read; behind the last segment the stream has ended.
pub data Segment : Type 0 where
  arrives : Bytes → Segment
  fails : ReadErr → Segment

-- `bufio.Reader`: bytes that have been read and not consumed, and what is still to come.
pub record Reader : Type 0 where
  pub buffered : Bytes
  pub incoming : List Segment

-- `bufio.NewReader`.
abbrev pub new_reader : List Segment → Reader
new_reader incoming = record { buffered = []; incoming = incoming }

-- The default size of both buffers.
abbrev pub buffer_size : ℕ
buffer_size = 4096

-- The bytes up to the first LF, and those behind it.
unfoldable pub break_lf : Bytes → Option (Bytes × Bytes)
break_lf [] = none
break_lf (c ∷ s) =
    let later = break_lf s in
    if c == b'\n' then some ([], s) else (later >>= λ r. some (c ∷ r.0, r.1))

-- `ReadSlice('\n')`: a line without its LF, a full buffer with none, or what came before an error.
pub data Slice : Type 0 where
  complete : Bytes → Slice
  full : Bytes → Slice
  ended : Bytes → ReadErr → Slice

-- A buffer that takes no more bytes.
unfoldable pub slice_full : Bytes → List Segment → Slice × Reader
unfolding break_lf
slice_full buf w = elim (break_lf buf) [
  | some (line, rest) ↦ (complete line, record { buffered = rest; incoming = w })
  | none ↦ (full buf, new_reader w)
]

unfoldable pub read_slice : Bytes → List Segment → Slice × Reader
unfolding slice_full
read_slice buf [] = elim (break_lf buf) [
  | some (line, rest) ↦ (complete line, record { buffered = rest; incoming = [] })
  | none ↦
      if leb buffer_size (length buf)
      then (full buf, new_reader [])
      else (ended buf eof, new_reader [])
]
read_slice buf (fails e ∷ w) = elim (break_lf buf) [
  | some (line, rest) ↦ (complete line, record { buffered = rest; incoming = fails e ∷ w })
  | none ↦
      if leb buffer_size (length buf)
      then (full buf, new_reader (fails e ∷ w))
      else (ended buf e, new_reader w)
]
read_slice buf (arrives s ∷ w) =
    let room = buffer_size - length buf in
    let whole = read_slice (buf ++ s) w in
    let cut = slice_full (buf ++ take room s) (arrives (drop room s) ∷ w) in
    elim (break_lf buf) [
      | some (line, rest) ↦ (complete line, record { buffered = rest; incoming = arrives s ∷ w })
      | none ↦
          if leb buffer_size (length buf)
          then (full buf, new_reader (arrives s ∷ w))
          else if leb (length s) room
          then whole
          else cut
    ]

-- A line without the CR that ends it.
unfoldable pub drop_cr : Bytes → Bytes
drop_cr [] = []
drop_cr (c ∷ []) = if c == b'\r' then [] else c ∷ []
drop_cr (c ∷ d ∷ t) = c ∷ drop_cr (d ∷ t)

unfoldable pub ends_in_cr : Bytes → Bool
ends_in_cr [] = false
ends_in_cr (c ∷ []) = c == b'\r'
ends_in_cr (c ∷ d ∷ t) = ends_in_cr (d ∷ t)

-- What `ReadLine` returns: a line, the first part of one (`isPrefix`), or an error.
pub data Chunk : Type 0 where
  line : Bytes → Chunk
  prefix : Bytes → Chunk
  failed : ReadErr → Chunk

-- `ReadLine`. A CR at the end of a full buffer is put back; an error is not reported for bytes that
-- came before it.
unfoldable pub read_chunk : Slice × Reader → Chunk × Reader
unfolding drop_cr ends_in_cr
read_chunk (complete l, r) = (line (drop_cr l), r)
read_chunk (full l, r) =
    if ends_in_cr l
    then (prefix (drop_cr l), record r { buffered = b'\r' ∷ r.buffered })
    else (prefix l, r)
read_chunk (ended [] e, r) = (failed e, r)
read_chunk (ended (c ∷ l) e, r) = (line (c ∷ l), r)

unfoldable pub read_line_chunk : Reader → Chunk × Reader
unfolding read_chunk read_slice
read_line_chunk r = read_chunk (read_slice r.buffered r.incoming)

-- What `readLine` of `Conn` returns.
pub data LineResult : Type 0 where
  got : Bytes → LineResult
  too_long : LineResult
  read_failed : ReadErr → LineResult

-- One round of the loop of `readLine`; `next` goes on.
unfoldable pub take_chunk :
    ℕ → Bytes → (Bytes → Reader → LineResult × Reader) → Chunk → Reader → LineResult × Reader
take_chunk max_len acc next (failed e) r = (read_failed e, r)
take_chunk max_len acc next (line b) r =
    (if ltb max_len (length (acc ++ b)) then too_long else got (acc ++ b), r)
take_chunk max_len acc next (prefix b) r =
    let more = next (acc ++ b) r in if ltb max_len (length (acc ++ b)) then (too_long, r) else more

-- The loop with fuel: every round but the last adds a byte at least.
unfoldable pub read_loop : ℕ → ℕ → Bytes → Reader → LineResult × Reader
unfolding take_chunk
read_loop zero max_len acc r = (too_long, r)
read_loop (suc f) max_len acc r =
    let (chunk, r') = read_line_chunk r in take_chunk max_len acc (read_loop f max_len) chunk r'

unfoldable pub read_line : ℕ → Reader → LineResult × Reader
unfolding read_loop read_line_chunk
read_line max_len = read_loop (suc max_len) max_len []

-- `bufio.Writer`, with what has reached the network, and whether each network write to come
-- succeeds (all of them do behind the end of the list). An error stays.
pub record Writer : Type 0 where
  pub pending : Bytes
  pub sent : Bytes
  pub link : List Bool
  pub failed_once : Bool

-- `newWriter`.
abbrev pub new_writer : List Bool → Writer
new_writer link = record { pending = []; sent = []; link = link; failed_once = false }

-- One network write of `p`; what is pending then is `left`.
unfoldable pub net_write : Bytes → Bytes → Writer → Writer × Bool
net_write p left w = elim w.link [
  | [] ↦ (record w { sent = w.sent ++ p; pending = left }, true)
  | up ∷ later ↦
      if up
      then (record w { sent = w.sent ++ p; pending = left; link = later }, true)
      else (record w { link = later; failed_once = true }, false)
]

-- A call on a writer that has failed before is refused.
abbrev pub unless_failed : Writer → Writer × Bool → Writer × Bool
unless_failed w r = if w.failed_once then (w, false) else r

-- `Flush`.
unfoldable pub flush_pending : Writer → Writer × Bool
flush_pending w = if length w.pending == 0 then (w, true) else net_write w.pending [] w

unfoldable pub flush : Writer → Writer × Bool
unfolding flush_pending net_write
flush w = unless_failed w (flush_pending w)

-- Bytes for an empty buffer: what does not fit is written at once.
unfoldable pub put_empty : Bytes → Writer → Writer × Bool
unfolding net_write
put_empty p w =
    if leb (length p) buffer_size then (record w { pending = p }, true) else net_write p [] w

-- `Write`: a buffer that would overflow is filled and flushed.
unfoldable pub put_buffered : Bytes → Writer → Writer × Bool
put_buffered p w =
    let room = buffer_size - length w.pending in
    let (w', fine) = net_write (w.pending ++ take room p) [] w in
    let behind = put_empty (drop room p) w' in
    if leb (length p) room
    then (record w { pending = w.pending ++ p }, true)
    else if length w.pending == 0
    then put_empty p w
    else if fine
    then behind
    else (w', false)

unfoldable pub put : Bytes → Writer → Writer × Bool
unfolding put_buffered put_empty
put p w = unless_failed w (put_buffered p w)
