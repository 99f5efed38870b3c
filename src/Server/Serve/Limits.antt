-- ===== src/Server/Serve/Limits.antt =====
-- When the command loop of pop3server/conn.go goes on: the central enforcement of closure and of
-- the limit on errors.
use go_pop.Prelude.{
  ℕ, ◌<◌, pos, Bool, true, false, not, ◌&&◌, ◌||◌, none, [], ◌∷◌, ◌++◌, if◌then◌else◌, ◌≡◌, refl,
  ◌∙◌, arith,
}
use go_pop.Text.{Bytes, codes, equal, to_upper, trim_space, fields}
use go_pop.Server.Parse.{split_command}
use go_pop.Server.Wire.{LineResult, got, too_long, read_failed, read_line}
use go_pop.Server.Session.{Session}
use go_pop.Server.Conn.{
  Conn, Options, on_command, send_err, write_string, flush_conn, max_errors_exceeded,
}
use go_pop.Server.Dispatch.{dispatch}
use go_pop.Server.Serve.{settle, run_command, round_of, round}

module _ {S : Type 0} (iface : Session S) (opts : Options S) where
  -- The connection is the library's, nothing asks for its end, and a limit on errors that is set
  -- has not been reached.
  pub record IsOpen (c : Conn S) : Type 0 where
    pub owned : c.hijacked ≡ false
    pub staying : c.close_pending ≡ false
    pub below : (limit : ℕ) → opts.max_errors ≡ pos limit → 0 < limit → c.error_count < limit

  not_exceeded :
      (c : Conn S) (limit : ℕ)
      → max_errors_exceeded opts c ≡ false
      → opts.max_errors ≡ pos limit
      → 0 < limit
      → c.error_count < limit
  unfolding max_errors_exceeded
  not_exceeded c limit h e positive = ground arith

  settle_branches :
      (hijacked quit pending exceeded fine : Bool) (c d : Conn S)
      → (hijacked ≡ false → quit ≡ false → pending ≡ false → exceeded ≡ false → IsOpen d)
      → let closing = quit || pending in
        let excess = not closing && exceeded in
        let p : Conn S × Bool =
          if hijacked then (c, false) else (d, fine && not (closing || excess)) in
        p.1 ≡ true → IsOpen p.0
  settle_branches true quit pending exceeded fine c d k on = absurd (ground arith)
  settle_branches false true pending exceeded fine c d k on = absurd (ground arith)
  settle_branches false false true exceeded fine c d k on = absurd (ground arith)
  settle_branches false false false true fine c d k on = absurd (ground arith)
  settle_branches false false false false fine c d k on = k refl refl refl refl

  notice :
      (excess : Bool) (c : Conn S)
      → let d = if excess then send_err (codes "Too many errors, closing connection") c else c in
        (d.hijacked ≡ c.hijacked)
        × (d.close_pending ≡ c.close_pending)
        × (d.error_count ≡ c.error_count)
  unfolding send_err write_string
  notice true c = (refl, refl, refl)
  notice false c = (refl, refl, refl)

  settle-IsOpen :
      (c : Conn S) (quit : Bool)
      → (settle iface opts (c, quit)).1 ≡ true
      → IsOpen (settle iface opts (c, quit)).0
  unfolding settle flush_conn
  settle-IsOpen c quit =
      settle_branches c.hijacked quit c.close_pending (max_errors_exceeded opts c) _ c _
        (λ owned _ staying within.
          let excess = not (quit || c.close_pending) && max_errors_exceeded opts c in
          let (a, b, n) = notice excess c in
          record {
            owned = a ∙ owned;
            staying = b ∙ staying;
            below = λ limit e positive. omega (arith, n, not_exceeded c limit within e positive);
          })

  run_command-IsOpen :
      (line : Bytes) (c : Conn S)
      → (run_command iface opts line c).1 ≡ true
      → IsOpen (run_command iface opts line c).0
  unfolding run_command
  run_command-IsOpen line c on =
      let (verb, raw_arg) = split_command line in
      let cmd = to_upper verb in
      let (d, quit) =
        dispatch iface opts cmd (fields raw_arg)
          (record c { raw_arg = raw_arg; last_err = none }) in
      settle-IsOpen (record d { hooks = d.hooks ++ on_command cmd d.last_err ∷ [] }) quit on

  line-IsOpen :
      (blank : Bool) (line : Bytes) (c : Conn S)
      → IsOpen c
      → (if blank then (c, true) else run_command iface opts line c).1 ≡ true
      → IsOpen (if blank then (c, true) else run_command iface opts line c).0
  line-IsOpen true line c open' on = open'
  line-IsOpen false line c open' on = run_command-IsOpen line c on

  round_of-IsOpen :
      (result : LineResult) (c : Conn S)
      → IsOpen c
      → (round_of iface opts result c).1 ≡ true
      → IsOpen (round_of iface opts result c).0
  unfolding round_of
  round_of-IsOpen (got text) c open' on =
      line-IsOpen (equal (trim_space text) []) (trim_space text) c open' on
  round_of-IsOpen too_long c open' on = absurd (ground arith)
  round_of-IsOpen (read_failed e) c open' on = absurd (ground arith)

  -- Whatever the handlers did, one for unknown commands included: from a connection that is not
  -- hijacked, on which no closure is pending, and whose errors are fewer than a limit that is set,
  -- a round after which the loop goes on leaves such a connection.
  pub round-IsOpen :
      (c : Conn S) → IsOpen c → (round iface opts c).1 ≡ true → IsOpen (round iface opts c).0
  unfolding round
  round-IsOpen c open' on =
      let (result, r) = read_line opts.max_line_length c.reader in
      round_of-IsOpen result (record c { reader = r })
        (record { owned = open'.owned; staying = open'.staying; below = open'.below }) on
