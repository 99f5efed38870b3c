-- ===== src/Server/Serve/Ends.antt =====
-- The command loop of pop3server/conn.go ends, and the connection is torn down.
use go_pop.Prelude.{
  ℕ, zero, suc, ◌≤◌, ◌<◌, Bool, true, false, not, ◌&&◌, ◌||◌, Bool-cases, inl, inr, none, [], ◌∷◌,
  ◌++◌, if-case, if◌then◌else◌, ◌≡◌, refl, ap, arith,
}
use go_pop.Text.{Bytes, equal, to_upper, trim_space, fields}
use go_pop.Server.Parse.{split_command}
use go_pop.Server.Wire.{LineResult, got, too_long, read_failed, read_line}
use go_pop.Server.Wire.Progress.{left, Takes, read_line-Takes}
use go_pop.Server.Session.{Session}
use go_pop.Server.Conn.{
  Conn, Options, on_command, send_ok, send_err, write_string, flush_conn, max_errors_exceeded,
}
use go_pop.Server.Dispatch.{dispatch}
use go_pop.Server.Dispatch.Input.{IsShrinking, dispatch-input}
use go_pop.Server.Serve.{settle, run_command, round_of, round, loop, close_conn, serve}

module _ {S : Type 0} (iface : Session S) (opts : Options S) where
  settle-reader : (c : Conn S) (quit : Bool) → (settle iface opts (c, quit)).0.reader ≡ c.reader
  unfolding settle flush_conn send_err write_string
  settle-reader c quit =
      if-case (λ (p : Conn S × Bool). p.0.reader ≡ c.reader) c.hijacked _ _ refl
        (if-case (λ (d : Conn S). d.reader ≡ c.reader)
          (not (quit || c.close_pending) && max_errors_exceeded opts c) _ _ refl refl)

  run_command-input :
      (line : Bytes) (c : Conn S)
      → opts.unknown_command_handler ≡ none
      → IsShrinking iface opts
      → left (run_command iface opts line c).0.reader ≤ left c.reader
  unfolding run_command
  run_command-input line c h shrinks =
      let (verb, raw_arg) = split_command line in
      let cmd = to_upper verb in
      let c1 = record c { raw_arg = raw_arg; last_err = none } in
      let (d, quit) = dispatch iface opts cmd (fields raw_arg) c1 in
      omega (
        arith,
        ap left
            (settle-reader (record d { hooks = d.hooks ++ on_command cmd d.last_err ∷ [] }) quit),
        dispatch-input iface opts cmd (fields raw_arg) c1 h shrinks,
      )

  line-input :
      (n : ℕ) (blank : Bool) (line : Bytes) (c : Conn S)
      → opts.unknown_command_handler ≡ none
      → IsShrinking iface opts
      → left c.reader < n
      → left (if blank then (c, true) else run_command iface opts line c).0.reader < n
  line-input n true line c h shrinks taken = taken
  line-input n false line c h shrinks taken = omega (arith, run_command-input line c h shrinks)

  round_of-input :
      (n : ℕ) (result : LineResult) (c : Conn S)
      → opts.unknown_command_handler ≡ none
      → IsShrinking iface opts
      → Takes n (result, c.reader)
      → (round_of iface opts result c).1 ≡ true
      → left (round_of iface opts result c).0.reader < n
  unfolding round_of
  round_of-input n (got text) c h shrinks taken on =
      line-input n (equal (trim_space text) []) (trim_space text) c h shrinks taken
  round_of-input n too_long c h shrinks taken on = absurd (ground arith)
  round_of-input n (read_failed e) c h shrinks taken on = absurd (ground arith)

  -- A round after which the loop goes on has taken some input.
  round-input :
      (c : Conn S)
      → opts.unknown_command_handler ≡ none
      → IsShrinking iface opts
      → (round iface opts c).1 ≡ true
      → left (round iface opts c).0.reader < left c.reader
  unfolding round
  round-input c h shrinks on =
      let (result, r) = read_line opts.max_line_length c.reader in
      round_of-input (left c.reader) result (record c { reader = r }) h shrinks
        (read_line-Takes opts.max_line_length c.reader) on

  loop-ends :
      (fuel : ℕ) (c : Conn S)
      → opts.unknown_command_handler ≡ none
      → IsShrinking iface opts
      → left c.reader < fuel
      → (loop iface opts fuel c).1 ≡ true
  unfolding loop
  loop-ends zero c h shrinks enough = absurd (omega arith)
  loop-ends (suc f) c h shrinks enough = elim (Bool-cases (round iface opts c).1) [
    | inl on ↦
        rw on
          (loop-ends f (round iface opts c).0 h shrinks (omega (arith, round-input c h shrinks on)))
    | inr off ↦ rw off refl
  ]

  -- The session has been closed last, and the network connection too unless it has been hijacked.
  abbrev pub IsTornDown : Conn S → Type 0
  IsTornDown d =
      ((s : S) × (d.session ≡ iface.close s)) × (d.hijacked ≡ false → d.net_closed ≡ true)

  close_conn-IsTornDown : (c : Conn S) → IsTornDown (close_conn iface opts c)
  unfolding close_conn
  close_conn-IsTornDown c = ((c.session, refl), λ h. rw h refl)

  -- With no handler for unknown commands, a handshake that delivers no more than it reads, and
  -- more fuel than input: serving a connection ends, whatever the client sends and however the
  -- network fails, and then the session has been closed, and the network connection too unless it
  -- has been hijacked.
  pub serve-ends :
      (fuel : ℕ) (c : Conn S)
      → opts.unknown_command_handler ≡ none
      → IsShrinking iface opts
      → left c.reader < fuel
      → ((serve iface opts fuel c).1 ≡ true) × IsTornDown (serve iface opts fuel c).0
  unfolding serve send_ok write_string flush_conn
  serve-ends fuel c h shrinks enough =
      let (c', fine) = flush_conn (send_ok opts.greeting c) in
      if-case (λ (p : Conn S × Bool). (p.1 ≡ true) × IsTornDown p.0) fine _ _
        (loop-ends fuel c' h shrinks enough, close_conn-IsTornDown (loop iface opts fuel c').0)
        (refl, close_conn-IsTornDown c')
