-- ===== src/Server/Conn/Frame.antt =====
-- What the responses of pop3server/conn.go leave alone.
use go_pop.Prelude.{◌+◌, Bool, true, false, ◌||◌, Bool-cases, inl, inr, some, ◌≡◌, refl}
use go_pop.Text.{Bytes}
use go_pop.Server.Errors.{SessionError, wire, close_connection, plain}
use go_pop.Server.Wire.{Reader}
use go_pop.Server.Conn.{
  Conn, ConnState, Options, write_string, send_err, is_positive, apply_error_delay, client_error,
  session_error,
}

-- What only authentication and TLS change.
abbrev pub frame : {S : Type 0} → Conn S → ConnState × Bytes × Bool × Bool × Reader
frame c = (c.state, c.username, c.is_tls, c.hijacked, c.reader)

abbrev pub Same : {S : Type 0} → Conn S → Conn S → Type 0
Same c d = (d.session ≡ c.session) × (frame d ≡ frame c)

module _ {S : Type 0} (opts : Options S) where
  -- A client's error is counted once, and touches neither session nor state.
  pub client_error-Same :
      (msg : Bytes) (c : Conn S)
      → Same c (client_error opts msg c)
        × ((client_error opts msg c).error_count ≡ c.error_count + 1)
        × ((client_error opts msg c).close_pending ≡ c.close_pending)
  unfolding client_error apply_error_delay send_err write_string
  client_error-Same msg c = elim (Bool-cases (is_positive opts.error_delay)) [
    | inl e ↦ rw e ((refl, refl), refl, refl)
    | inr e ↦ rw e ((refl, refl), refl, refl)
  ]

  abbrev pub closes : SessionError → Bool
  closes (wire e) = e.close
  closes (close_connection t) = true
  closes (plain t) = false

  -- A session's error is not counted, is what the hook sees, and leaves the connection to be
  -- closed exactly if it was so before or the error says so; session, state, name, TLS and input
  -- stay.
  pub session_error-Same :
      (e : SessionError) (c : Conn S)
      → Same c (session_error opts e c)
        × ((session_error opts e c).error_count ≡ c.error_count)
        × ((session_error opts e c).last_err ≡ some e)
        × ((session_error opts e c).close_pending ≡ (closes e || c.close_pending))
  unfolding session_error send_err write_string
  session_error-Same (wire e) c = elim (Bool-cases e.close) [
    | inl h ↦ rw h ((refl, refl), refl, refl, refl)
    | inr h ↦ rw h ((refl, refl), refl, refl, refl)
  ]
  session_error-Same (close_connection t) c = ((refl, refl), refl, refl, refl)
  session_error-Same (plain t) c = ((refl, refl), refl, refl, refl)
