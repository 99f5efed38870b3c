-- ===== src/Server/Conn.antt =====
-- The connection of pop3server/conn.go, the options of options.go, and the helpers that handlers
-- use.
pub mod Deadline
pub mod Frame
use go_pop.Prelude.{
  ℕ, suc, ◌+◌, ◌*◌, ℤ, pos, negsuc, to_int64, Bool, true, false, not, ◌&&◌, ◌||◌, Option, none,
  some, is_none, List, [], ◌∷◌, ◌++◌, ltb, leb, ◌==◌, if◌then◌else◌,
}
use go_pop.Text.{Bytes, codes, equal}
use go_pop.Protocol.{Capability}
use go_pop.Server.Errors.{Error, wire_message, SessionError, wire, close_connection, plain}
use go_pop.Server.Parse.{sanitize_response}
use go_pop.Server.Wire.{Reader, Segment, Writer, put, flush}

pub data ConnState : Type 0 where
  authorization transaction : ConnState

-- The calls of the observability hooks.
pub data Hook : Type 0 where
  on_command : Bytes → Option SessionError → Hook
  on_timeout_absolute on_timeout_idle : Hook

-- `Conn` over the state of its session. `slept` and `hooks` record the delays and the hook calls;
-- `net_closed`: the library has closed the network connection.
pub record Conn (S : Type 0) : Type 0 where
  pub session : S
  pub state : ConnState
  pub username : Bytes
  pub raw_arg : Bytes
  pub error_count : ℕ
  pub is_tls : Bool
  pub hijacked : Bool
  pub close_pending : Bool
  pub last_err : Option SessionError
  pub reader : Reader
  pub writer : Writer
  pub slept : List ℤ
  pub hooks : List Hook
  pub net_closed : Bool

-- `Options`, less what makes sessions, the logger, the hooks and the command timeout.
-- `tls_config`: the handshake of crypto/tls, from what the network delivers to what the decrypted
-- connection delivers and takes, or a failure. Durations are in nanoseconds. The unknown-command
-- handler may do anything to the connection; it returns `handled` and `close`.
pub record Options (S : Type 0) : Type 0 where
  pub tls_config : Option (List Segment → Option (List Segment × List Bool))
  pub caps : List Capability
  pub suppressed_caps : List Bytes
  pub idle_timeout : ℤ
  pub auth_idle_timeout : ℤ
  pub absolute_session_timeout : ℤ
  pub write_timeout : ℤ
  pub insecure_auth : Bool
  pub max_line_length : ℕ
  pub max_errors : ℤ
  pub auth_failures_exempt_from_max_errors : Bool
  pub error_delay : ℤ
  pub max_error_delay : ℤ
  pub greeting : Bytes
  pub reject_message : Bytes
  pub strict_session_errors : Bool
  pub unknown_command_handler : Option (Bytes → List Bytes → Conn S → Conn S × Bool × Bool)

abbrev pub is_zero : ℤ → Bool
is_zero (pos n) = n == 0
is_zero (negsuc n) = false

-- `x > 0`.
abbrev pub is_positive : ℤ → Bool
is_positive (pos n) = ltb 0 n
is_positive (negsuc n) = false

-- `x > y` where `y` is positive.
abbrev pub exceeds : ℤ → ℤ → Bool
exceeds (pos n) (pos m) = ltb m n
exceeds (pos n) (negsuc m) = true
exceeds (negsuc n) y = false

abbrev pub seconds : ℕ → ℤ
seconds n = pos (n * 1000000000)

unfoldable pub defaults : {S : Type 0} → Options S → Options S
unfolding equal
defaults o = record o {
  idle_timeout = if is_zero o.idle_timeout then seconds 600 else o.idle_timeout;
  max_line_length = if o.max_line_length == 0 then 1024 else o.max_line_length;
  max_errors = if is_zero o.max_errors then pos 10 else o.max_errors;
  max_error_delay = if is_zero o.max_error_delay then seconds 30 else o.max_error_delay;
  write_timeout = if is_zero o.write_timeout then seconds 60 else o.write_timeout;
  greeting = if equal o.greeting [] then codes "POP3 server ready" else o.greeting;
  reject_message =
      if equal o.reject_message [] then codes "Service not available" else o.reject_message;
}

-- `c.writer.WriteString`, whose error the code leaves to the next flush.
unfoldable pub write_string : {S : Type 0} → Bytes → Conn S → Conn S
write_string s c = record c { writer = (put s c.writer).0 }

unfoldable pub flush_conn : {S : Type 0} → Conn S → Conn S × Bool
flush_conn c = let (w, fine) = flush c.writer in (record c { writer = w }, fine)

-- A response line: the status, and the cleaned message behind a blank.
unfoldable pub response_line : Bytes → Bytes → Bytes
unfolding equal sanitize_response
response_line status msg =
    if equal msg []
    then status ++ codes "\r\n"
    else status ++ (codes " " ++ (sanitize_response msg ++ codes "\r\n"))

-- `ok` and `err`.
unfoldable pub send_ok : {S : Type 0} → Bytes → Conn S → Conn S
unfolding write_string
send_ok msg = write_string (response_line (codes "+OK") msg)

unfoldable pub send_err : {S : Type 0} → Bytes → Conn S → Conn S
unfolding write_string
send_err msg = write_string (response_line (codes "-ERR") msg)

-- `Hijack`; `false`: it is refused.
unfoldable pub hijack : {S : Type 0} → Conn S → Conn S × Bool
unfolding flush_conn
hijack c =
    let (c', fine) = flush_conn c in
    let allowed : Bool = elim c.state [ authorization ↦ not c.hijacked | transaction ↦ false ] in
    if allowed
    then (if fine then (record c' { hijacked = true }, true) else (c', false))
    else (c, false)

-- `t.Add(d)` for a duration that is set.
unfoldable pub deadline_after : ℕ → ℤ → Option ℕ
deadline_after t (pos d) = if ltb 0 d then some (t + d) else none
deadline_after t (negsuc d) = none

module _ {S : Type 0} (opts : Options S) where
  unfoldable pub auth_allowed : Conn S → Bool
  auth_allowed c = opts.insecure_auth || c.is_tls

  -- The delay after the error with this number: `count * delay` as an int64, capped.
  unfoldable pub error_delay_of : ℕ → ℤ → ℤ
  unfolding to_int64
  error_delay_of count (pos delay) =
      let d = to_int64 (count * delay) in
      if is_positive opts.max_error_delay && exceeds d opts.max_error_delay
      then opts.max_error_delay
      else d
  error_delay_of count (negsuc n) = negsuc n

  unfoldable pub apply_error_delay : Conn S → Conn S
  unfolding error_delay_of
  apply_error_delay c =
      if is_positive opts.error_delay
      then record c { slept = c.slept ++ error_delay_of c.error_count opts.error_delay ∷ [] }
      else c

  abbrev pub client_fault : Bytes → SessionError
  client_fault msg = wire (record { code = []; message = msg; close = false })

  unfoldable pub client_error : Bytes → Conn S → Conn S
  unfolding apply_error_delay send_err
  client_error msg c =
      let counted = record c {
        error_count = c.error_count + 1;
        last_err = if is_none c.last_err then some (client_fault msg) else c.last_err;
      } in
      send_err msg (apply_error_delay counted)

  unfoldable pub session_error : SessionError → Conn S → Conn S
  unfolding send_err wire_message
  session_error (wire e) c =
      let c' = send_err (wire_message e) (record c { last_err = some (wire e) }) in
      if e.close then record c' { close_pending = true } else c'
  session_error (close_connection t) c =
      record (send_err (codes "internal error")
        (record c { last_err = some (close_connection t) })) { close_pending = true }
  session_error (plain t) c =
      send_err (if opts.strict_session_errors then codes "internal error" else t)
        (record c { last_err = some (plain t) })

  unfoldable pub max_errors_exceeded : Conn S → Bool
  max_errors_exceeded c = elim opts.max_errors [
    | pos n ↦ ltb 0 n && leb n c.error_count
    | negsuc n ↦ false
  ]

  -- `nextReadDeadline` at the time `now`, with the start time of the connection.
  unfoldable pub next_read_deadline : ℕ → ℕ → ConnState → Option ℕ
  unfolding deadline_after
  next_read_deadline now start state =
      let in_auth : Bool = elim state [
        | authorization ↦ is_positive opts.auth_idle_timeout
        | transaction ↦ false
      ] in
      let idle : ℤ = if in_auth then opts.auth_idle_timeout else opts.idle_timeout in
      let deadline = deadline_after now idle in
      elim (deadline_after start opts.absolute_session_timeout) [
        | none ↦ deadline
        | some t ↦ elim deadline [ none ↦ some t | some d ↦ some (if ltb t d then t else d) ]
      ]
