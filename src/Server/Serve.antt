-- ===== src/Server/Serve.antt =====
-- The command loop of pop3server/conn.go: `serve`, and what its deferred calls do.
pub mod Ends
pub mod Limits
pub mod Hijack
pub mod Commands
pub mod Replies
use go_pop.Prelude.{
  ℕ, zero, suc, ℤ, pos, negsuc, Bool, true, false, not, ◌&&◌, ◌||◌, Option, none, some, List, [],
  ◌∷◌, ◌++◌, ltb, leb, if◌then◌else◌,
}
use go_pop.Text.{Bytes, codes, equal, to_upper, trim_space, fields}
use go_pop.Server.Parse.{split_command}
use go_pop.Server.Wire.{
  ReadErr, eof, timeout, broken, LineResult, got, too_long, read_failed, read_line,
}
use go_pop.Server.Session.{Session}
use go_pop.Server.Conn.{
  Conn, Options, Hook, on_command, on_timeout_absolute, on_timeout_idle, send_ok, send_err,
  flush_conn, max_errors_exceeded,
}
use go_pop.Server.Dispatch.{dispatch}

module _ {S : Type 0} (iface : Session S) (opts : Options S) where
  -- The time since the start has reached the session's limit, if there is one.
  unfoldable pub session_expired : ℕ → Bool
  session_expired elapsed = elim opts.absolute_session_timeout [
    | pos limit ↦ ltb 0 limit && leb limit elapsed
    | negsuc n ↦ false
  ]

  abbrev farewell : Bytes → Conn S → Conn S
  farewell msg c = (flush_conn (send_err msg c)).0

  abbrev noted : Hook → Conn S → Conn S
  noted h c = record c { hooks = c.hooks ++ h ∷ [] }

  -- What a failing read leads to.
  unfoldable pub read_failure : ReadErr → Conn S → Conn S
  read_failure eof c = c
  read_failure broken c = c
  read_failure (timeout elapsed) c =
      if session_expired elapsed
      then noted on_timeout_absolute
          (farewell (codes "[IN-USE] Maximum session duration exceeded") c)
      else noted on_timeout_idle (farewell (codes "Idle timeout, connection timed out") c)

  -- What follows the handler. The Boolean of a round tells whether the loop goes on.
  unfoldable pub settle : Conn S × Bool → Conn S × Bool
  unfolding flush_conn max_errors_exceeded
  settle (c, quit) =
      let closing = quit || c.close_pending in
      let excess = not closing && max_errors_exceeded opts c in
      let (c', fine) =
        flush_conn
          (if excess then send_err (codes "Too many errors, closing connection") c else c) in
      if c.hijacked then (c, false) else (c', fine && not (closing || excess))

  -- A command: the verb and its argument, the handler, and the hook.
  unfoldable pub run_command : Bytes → Conn S → Conn S × Bool
  unfolding settle split_command
  run_command line c =
      let (verb, raw_arg) = split_command line in
      let cmd = to_upper verb in
      let (c', quit) =
        dispatch iface opts cmd (fields raw_arg)
          (record c { raw_arg = raw_arg; last_err = none }) in
      settle (noted (on_command cmd c'.last_err) c', quit)

  unfoldable pub round_of : LineResult → Conn S → Conn S × Bool
  unfolding run_command read_failure
  round_of (read_failed e) c = (read_failure e c, false)
  round_of too_long c = (farewell (codes "Line too long") c, false)
  round_of (got text) c =
      let line = trim_space text in if equal line [] then (c, true) else run_command line c

  -- One round of the loop.
  unfoldable pub round : Conn S → Conn S × Bool
  unfolding round_of
  round c =
      let (result, r) = read_line opts.max_line_length c.reader in
      round_of result (record c { reader = r })

  -- The loop with fuel; the Boolean: it has ended.
  unfoldable pub loop : ℕ → Conn S → Conn S × Bool
  unfolding round
  loop zero c = (c, false)
  loop (suc f) c = let (c', on) = round c in let rest = loop f c' in if on then rest else (c', true)

  -- `close`.
  unfoldable pub close_conn : Conn S → Conn S
  close_conn c = record c {
    session = iface.close c.session;
    net_closed = if c.hijacked then c.net_closed else true;
  }

  unfoldable pub serve : ℕ → Conn S → Conn S × Bool
  unfolding loop close_conn flush_conn
  serve fuel c =
      let (c', fine) = flush_conn (send_ok opts.greeting c) in
      let (c'', ended) = loop fuel c' in
      if fine then (close_conn c'', ended) else (close_conn c', true)
