-- ===== src/Server/Login/Gate.antt =====
-- `finish_login`: what an authentication attempt leads to in pop3server/conn.go.
use go_pop.Prelude.{
  ◌+◌, Bool, true, false, not, ◌||◌, Bool-cases, ◌⊎◌, inl, inr, some, if◌then◌else◌, ◌≡◌, refl, ap,
  ◌∙◌,
}
use go_pop.Text.{codes}
use go_pop.Server.Errors.{SessionError, Outcome, ok, fail}
use go_pop.Server.Wire.{flush}
use go_pop.Server.Session.{Session, Attempt}
use go_pop.Server.Conn.{
  Conn, authorization, transaction, Options, write_string, send_ok, flush_conn, hijack, is_positive,
  apply_error_delay, session_error,
}
use go_pop.Server.Conn.Frame.{Same, session_error-Same, closes}
use go_pop.Server.Login.{after_attempt, login_result, finish_login}

-- The frame of a connection, but for the state.
abbrev Kept : {S : Type 0} → Conn S → Conn S → Type 0
Kept c d =
    (d.session ≡ c.session)
    × (d.username ≡ c.username)
    × (d.is_tls ≡ c.is_tls)
    × (d.reader ≡ c.reader)

module _ {S : Type 0} (iface : Session S) (opts : Options S) where
  apply_error_delay-Same :
      (c : Conn S)
      → Same c (apply_error_delay opts c)
        × ((apply_error_delay opts c).error_count ≡ c.error_count)
        × ((apply_error_delay opts c).close_pending ≡ c.close_pending)
  unfolding apply_error_delay
  apply_error_delay-Same c = elim (Bool-cases (is_positive opts.error_delay)) [
    | inl e ↦ rw e ((refl, refl), refl, refl)
    | inr e ↦ rw e ((refl, refl), refl, refl)
  ]

  -- Which branch is taken does not matter to what is kept.
  abbrev Steady : Conn S → Conn S → Type 0
  Steady c d = Kept c d × (d.state ≡ c.state) × (d.error_count ≡ c.error_count)

  hijack_branches :
      (allowed fine : Bool) (c : Conn S)
      → let r : Conn S × Bool =
          if allowed
          then (if fine
              then (record (flush_conn c).0 { hijacked = true }, true)
              else ((flush_conn c).0, false))
          else (c, false) in
        Steady c r.0
  unfolding flush_conn
  hijack_branches true true c = ((refl, refl, refl, refl), refl, refl)
  hijack_branches true false c = ((refl, refl, refl, refl), refl, refl)
  hijack_branches false fine c = ((refl, refl, refl, refl), refl, refl)

  hijack-Kept : (c : Conn S) → Steady c (hijack c).0
  unfolding hijack flush_conn
  hijack-Kept c =
      hijack_branches (elim c.state [ authorization ↦ not c.hijacked | transaction ↦ false ])
        (flush c.writer).1 c

  after_attempt-Kept : (b : Bool) (c : Conn S) → Steady c (after_attempt iface opts b c)
  unfolding after_attempt
  after_attempt-Kept true c = hijack-Kept c
  after_attempt-Kept false c = ((refl, refl, refl, refl), refl, refl)

  -- A failed attempt leaves the state as it was, is counted unless it is exempt, and is what the
  -- hook sees; a successful one leads to TRANSACTION unless the connection has been hijacked.
  abbrev Judged : Conn S → Outcome (Unit {0}) → Conn S → Type 0
  Judged c (fail e) d =
      (d.state ≡ c.state)
      × (d.hijacked ≡ c.hijacked)
      × (d.error_count ≡ (
          if opts.auth_failures_exempt_from_max_errors then c.error_count else c.error_count + 1))
      × (d.last_err ≡ some e)
      × (d.close_pending ≡ (closes opts e || c.close_pending))
  Judged c (ok _) d =
      (d.state ≡ (if c.hijacked then c.state else transaction))
      × (d.hijacked ≡ c.hijacked)
      × (d.error_count ≡ c.error_count)

  success_branches :
      (hijacked : Bool) (c : Conn S)
      → let d =
          if hijacked
          then c
          else send_ok (codes "Authentication successful") (record c { state = transaction }) in
        Kept c d
        × (d.state ≡ (if hijacked then c.state else transaction))
        × (d.hijacked ≡ c.hijacked)
        × (d.error_count ≡ c.error_count)
  unfolding send_ok write_string
  success_branches true c = ((refl, refl, refl, refl), refl, refl, refl)
  success_branches false c = ((refl, refl, refl, refl), refl, refl, refl)

  failure :
      (e : SessionError) (c : Conn S)
      → let d = session_error opts e (apply_error_delay opts c) in
        Kept c d
        × (d.state ≡ c.state)
        × (d.hijacked ≡ c.hijacked)
        × (d.error_count ≡ c.error_count)
        × (d.last_err ≡ some e)
        × (d.close_pending ≡ (closes opts e || c.close_pending))
  failure e c =
      let ((s1, f1), n1, p1) = apply_error_delay-Same c in
      let ((s2, f2), n2, l2, p2) = session_error-Same opts e (apply_error_delay opts c) in
      let f = f2 ∙ f1 in
      (
        (s2 ∙ s1, ap (λ t. t.1) f, ap (λ t. t.2) f, ap (λ t. t.4) f),
        ap (λ t. t.0) f,
        ap (λ t. t.3) f,
        n2 ∙ n1,
        l2,
        p2 ∙ ap (λ b. closes opts e || b) p1,
      )

  failure_branches :
      (exempt : Bool) (e : SessionError) (c : Conn S)
      → let d = session_error opts e (
          apply_error_delay opts
            (if exempt then c else record c { error_count = c.error_count + 1 })) in
        Kept c d
        × (d.state ≡ c.state)
        × (d.hijacked ≡ c.hijacked)
        × (d.error_count ≡ (if exempt then c.error_count else c.error_count + 1))
        × (d.last_err ≡ some e)
        × (d.close_pending ≡ (closes opts e || c.close_pending))
  failure_branches true e c = failure e c
  failure_branches false e c = failure e (record c { error_count = c.error_count + 1 })

  login_result_lem :
      (o : Outcome (Unit {0})) (c : Conn S)
      → Kept c (login_result iface opts o c) × Judged c o (login_result iface opts o c)
  unfolding login_result send_ok write_string
  login_result_lem (fail e) c =
      let (k, a, b, n, l, p) = failure_branches opts.auth_failures_exempt_from_max_errors e c in
      (k, (a, b, n, l, p))
  login_result_lem (ok _) c = let (k, a, b, n) = success_branches c.hijacked c in (k, (a, b, n))

  -- The state moves to TRANSACTION only by an attempt that succeeds, and the session is the one
  -- that the attempt left.
  pub finish_login-state :
      (r : S × Attempt) (c : Conn S)
      → ((finish_login iface opts r c).session ≡ r.0)
        × ((finish_login iface opts r c).username ≡ c.username)
        × ((finish_login iface opts r c).reader ≡ c.reader)
        × (((finish_login iface opts r c).state ≡ c.state) ⊎ (r.1.result ≡ ok tt))
  unfolding finish_login
  finish_login-state (s, attempt) c =
      let c1 = record c { session = s } in
      let c2 = after_attempt iface opts attempt.calls_hijack c1 in
      let (k, same, _) = after_attempt-Kept attempt.calls_hijack c1 in
      let (k', judged) = login_result_lem attempt.result c2 in
      (
        k'.0 ∙ k.0,
        k'.1 ∙ k.1,
        k'.3 ∙ k.3,
        outcome attempt.result c2 (login_result iface opts attempt.result c2) same judged,
      )
    where
      outcome :
          (o : Outcome (Unit {0})) (a d : Conn S)
          → a.state ≡ c.state
          → Judged a o d
          → (d.state ≡ c.state) ⊎ (o ≡ ok tt)
      outcome (fail e) a d same judged = inl (judged.0 ∙ same)
      outcome (ok _) a d same judged = inr refl
