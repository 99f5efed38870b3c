-- ===== src/Server/Accept/Shutdown.antt =====
-- What ends `Serve` of pop3server/server.go behind `Close`.
use go_pop.Prelude.{
  ℕ, ◌+◌, ◌≤◌, ◌⊎◌, inl, inr, Bool, true, false, if◌then◌else◌, ◌≡◌, refl, arith, ap,
}
use go_pop.Server.Accept.{
  Server, Phase, accepting, waiting, returned, accept_failed, waited, Step, Steps, here, further,
  accepts, fails, waits_out, stops, cancels, closes, ends,
}

-- `Close` has been called, so far as it concerns the loop.
abbrev pub IsClosed : Server → Type 0
IsClosed s = (s.cancelled ≡ true) × (s.listening ≡ false)

-- A step of the loop itself.
abbrev pub is_own : {s t : Server} → Step s t → Bool
is_own (accepts _ p l) = true
is_own (fails _ p) = true
is_own (waits_out _ p) = true
is_own (stops _ p c) = true
is_own (cancels _) = false
is_own (closes _) = false
is_own (ends _ n) = false

abbrev pub own_steps : {s t : Server} → Steps s t → ℕ
own_steps here = 0
own_steps (further earlier step) = (if is_own step then 1 else 0) + own_steps earlier

-- The steps that the loop still makes.
abbrev pub steps_left : Phase → ℕ
steps_left accepting = 1
steps_left waiting = 2
steps_left returned = 0

-- A closed server, after a step that takes `n` of those left.
abbrev Takes : ℕ → Server → Server → Type 0
Takes n s t = IsClosed t × (steps_left t.phase + n ≤ steps_left s.phase)

left_at : (s : Server) (p : Phase) → s.phase ≡ p → steps_left s.phase ≡ steps_left p
left_at s p e = ap steps_left e

fails-Takes : (s : Server) → s.phase ≡ accepting → IsClosed s → Takes 1 s (accept_failed s)
unfolding accept_failed
fails-Takes s p (c, n) = rw c ((refl, n), omega (arith, left_at s accepting p))

Step-Takes :
    (s t : Server) (step : Step s t) → IsClosed s → Takes (if is_own step then 1 else 0) s t
Step-Takes s _ (accepts _ p l) (c, n) = absurd (ground arith)
Step-Takes s _ (fails _ p) h = fails-Takes s p h
Step-Takes s _ (waits_out _ p) h = (h, omega (arith, left_at s waiting p))
Step-Takes s _ (stops _ p c) h = (h, omega (arith, left_at s waiting p))
Step-Takes s _ (cancels _) (c, n) = ((refl, n), omega arith)
Step-Takes s _ (closes _) (c, n) = ((c, refl), omega arith)
Step-Takes s _ (ends _ n) h = (h, omega arith)

-- `Serve` has returned, or the loop can make a step of its own.
abbrev pub GoesOn : Server → Type 0
GoesOn t = (t.phase ≡ returned) ⊎ ((u : Server) × (step : Step t u) × (is_own step ≡ true))

goes_on : (t : Server) → GoesOn t
goes_on t = at t.phase refl
  where
    at : (p : Phase) → t.phase ≡ p → GoesOn t
    at accepting e = inr (accept_failed t, fails t e, refl)
    at waiting e = inr (waited t, waits_out t e, refl)
    at returned e = inl e

own_steps-bound :
    (s t : Server) (trace : Steps s t)
    → IsClosed s
    → IsClosed t × (steps_left t.phase + own_steps trace ≤ steps_left s.phase)
own_steps-bound s _ here h = (h, omega arith)
own_steps-bound s _ (further {s = r} {t = t} earlier step) h =
    let (closed, ih) = own_steps-bound s r earlier h in
    let (closed', one) = Step-Takes r t step closed in (closed', omega arith)

at_most_two : (p : Phase) → steps_left p ≤ 2
at_most_two accepting = omega arith
at_most_two waiting = omega arith
at_most_two returned = omega arith

-- Once `Close` has cancelled the context and closed the listener, in every order of what happens then:
-- the loop makes two steps of its own at most, and unless `Serve` has returned, there is one that it
-- can make. So it returns, and no connection is accepted any more.
pub Close-GoesOn :
    (s t : Server) (trace : Steps s t)
    → IsClosed s
    → (own_steps trace ≤ 2) × GoesOn t × (t.listening ≡ false)
Close-GoesOn s t trace h =
    let (closed, bound) = own_steps-bound s t trace h in
    (omega (arith, at_most_two s.phase), goes_on t, closed.1)
