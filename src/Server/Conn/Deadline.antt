-- ===== src/Server/Conn/Deadline.antt =====
-- `nextReadDeadline`, `applyErrorDelay` and the response lines of pop3server/conn.go.
use go_pop.Prelude.{
  ℕ, ◌+◌, ◌*◌, ◌<◌, ◌≤◌, ◌^◌, ℤ, pos, to_int64-pos, false, Bool-cases, inl, inr, Option, none, some,
  [], ◌++◌, ltb, if◌then◌else◌, ◌≡◌, ◌⊎◌, refl, sym, arith, All, All-append, append_assoc,
}
use go_pop.Text.{Bytes, codes, equal}
use go_pop.Server.Parse.{sanitize_response, is_crlf}
use go_pop.Server.Parse.Commands.{sanitize_response_lem}
use go_pop.Server.Conn.{
  ConnState, authorization, transaction, Options, is_positive, deadline_after, next_read_deadline,
  error_delay_of, response_line,
}

module _ {S : Type 0} (opts : Options S) where
  -- The idle timeout that is in force.
  abbrev pub idle_limit : ConnState → ℤ
  idle_limit authorization =
      if is_positive opts.auth_idle_timeout then opts.auth_idle_timeout else opts.idle_timeout
  idle_limit transaction = opts.idle_timeout

  -- A deadline that keeps both limits, and is one of them; without a deadline, there is no limit.
  abbrev pub Within : ℕ → ℕ → ℕ → ℕ → Option ℕ → Type 0
  Within now start idle total none = (idle ≡ 0) × (total ≡ 0)
  Within now start idle total (some t) =
      (0 < idle → t ≤ now + idle)
      × (0 < total → t ≤ start + total)
      × ((t ≡ now + idle) ⊎ (t ≡ start + total))

  -- For limits that are not negative: no read deadline is later than the idle timeout in force
  -- allows, nor than the end of the session; it is one of the two; and there is none only if
  -- neither limit is set.
  pub next_read_deadline_lem :
      (now start idle total : ℕ) (state : ConnState)
      → idle_limit state ≡ pos idle
      → opts.absolute_session_timeout ≡ pos total
      → Within now start idle total (next_read_deadline opts now start state)
  unfolding next_read_deadline deadline_after
  next_read_deadline_lem now start idle total authorization hi ht = ground arith
  next_read_deadline_lem now start idle total transaction hi ht = ground arith

  -- With a cap that is set, and without overflow, the delay is the number of errors times the
  -- configured delay, or the cap where that is less.
  pub error_delay_of_lem :
      (count delay cap : ℕ)
      → opts.max_error_delay ≡ pos cap
      → 0 < cap
      → count * delay < 2 ^ 63
      → error_delay_of opts count (pos delay)
        ≡ pos (if ltb cap (count * delay) then cap else count * delay)
  unfolding error_delay_of
  error_delay_of_lem count delay cap e positive small = ground (arith, to_int64-pos (count * delay))

-- A response is one line: it ends in CRLF, and no CR or LF is in front of that, whatever the
-- message.
pub response_line_lem :
    (status msg : Bytes)
    → All (λ c. is_crlf c ≡ false) status
    → (text : Bytes) × (response_line status msg ≡ text ++ codes "\r\n")
      × All (λ c. is_crlf c ≡ false) text
unfolding response_line
response_line_lem status msg clean = elim (Bool-cases (equal msg [])) [
  | inl e ↦ rw e (status, refl, clean)
  | inr e ↦
      let (single, same) = sanitize_response_lem msg in
      rw e (
        status ++ (codes " " ++ sanitize_response msg),
        sym (append_assoc status (codes " " ++ sanitize_response msg) (codes "\r\n")),
        All-append (λ c. is_crlf c ≡ false) status (codes " " ++ sanitize_response msg) clean
            (refl, single),
      )
]
