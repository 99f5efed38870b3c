-- ===== src/Server/Accept/Backoff.antt =====
-- The back-off of the accept loop of pop3server/server.go.
use go_pop.Prelude.{
  ℕ, zero, suc, ◌*◌, ◌<◌, ◌≤◌, ◌^◌, ◌⊎◌, inl, inr, Bool, true, false, [], ◌∷◌, ◌++◌, ltb,
  if◌then◌else◌, ◌≡◌, refl, arith, All, All-append, ap, ◌∙◌,
}
use native.Mathlib.Nat.{one-le-pow}
use go_pop.Server.Accept.{
  Server, waiting, returned, next_backoff, first_backoff, max_backoff, accept_failed, accepted,
  waited, Step, Steps, here, further, accepts, fails, waits_out, stops, cancels, closes, ends,
  new_server,
}

-- A wait between 5 ms and 1 s.
abbrev pub IsWait : ℕ → Type 0
IsWait w = (first_backoff ≤ w) × (w ≤ max_backoff)

pub record IsSound (s : Server) : Type 0 where
  pub backoff : (s.backoff ≡ 0) ⊎ IsWait s.backoff
  pub waits : All IsWait s.waits
  pub returned_cancelled : s.phase ≡ returned → s.cancelled ≡ true

next_backoff-IsWait : (b : ℕ) → (b ≡ 0) ⊎ IsWait b → IsWait (next_backoff b)
unfolding next_backoff
next_backoff-IsWait b h = ground arith

accept_failed-IsSound : (s : Server) → IsSound s → IsSound (accept_failed s)
unfolding accept_failed
accept_failed-IsSound s h = failed s.cancelled refl
  where
    failed :
        (b : Bool)
        → s.cancelled ≡ b
        → IsSound (
            if b then record s { phase = returned } else record s {
              phase = waiting;
              backoff = next_backoff s.backoff;
              waits = s.waits ++ next_backoff s.backoff ∷ [];
            })
    failed true e = record { backoff = h.backoff; waits = h.waits; returned_cancelled = λ _. e }
    failed false e =
        let wait = next_backoff-IsWait s.backoff h.backoff in
        record {
          backoff = inr wait;
          waits = All-append IsWait s.waits (next_backoff s.backoff ∷ []) h.waits (wait, tt);
          returned_cancelled = λ e'. absurd (ground arith);
        }

Step-IsSound : (s t : Server) → Step s t → IsSound s → IsSound t
Step-IsSound s _ (accepts _ p l) h = record {
  backoff = inl refl;
  waits = h.waits;
  returned_cancelled = h.returned_cancelled;
}
Step-IsSound s _ (fails _ p) h = accept_failed-IsSound s h
Step-IsSound s _ (waits_out _ p) h = record {
  backoff = h.backoff;
  waits = h.waits;
  returned_cancelled = λ e. absurd (ground arith);
}
Step-IsSound s _ (stops _ p c) h = record {
  backoff = h.backoff;
  waits = h.waits;
  returned_cancelled = λ _. c;
}
Step-IsSound s _ (cancels _) h = record {
  backoff = h.backoff;
  waits = h.waits;
  returned_cancelled = λ _. refl;
}
Step-IsSound s _ (closes _) h = record {
  backoff = h.backoff;
  waits = h.waits;
  returned_cancelled = h.returned_cancelled;
}
Step-IsSound s _ (ends _ n) h = record {
  backoff = h.backoff;
  waits = h.waits;
  returned_cancelled = h.returned_cancelled;
}

-- In every order of what the loop, the handlers, `Close` and the owner of the listener do: each wait
-- behind a failing `Accept` is between 5 ms and 1 s, so that the loop never spins, and `Serve` has
-- returned only if the context has been cancelled. Closing the listener alone does not end it.
pub Steps-IsSound : (s : Server) → Steps new_server s → IsSound s
Steps-IsSound _ here = record {
  backoff = inl refl;
  waits = tt;
  returned_cancelled = λ e. absurd (ground arith);
}
Steps-IsSound _ (further {s = s} {t = t} earlier step) =
    Step-IsSound s t step (Steps-IsSound s earlier)

-- The loop behind `n` failures in a row.
abbrev pub failures : ℕ → Server → Server
failures zero s = s
failures (suc n) s = waited (accept_failed (failures n s))

-- The delay doubles up to the cap.
abbrev pub delay : ℕ → ℕ
delay n = if ltb max_backoff (first_backoff * 2 ^ n) then max_backoff else first_backoff * 2 ^ n

next_backoff-delay : (n : ℕ) → next_backoff (delay n) ≡ delay (suc n)
unfolding next_backoff
next_backoff-delay n =
    let double : 2 ^ suc n ≡ 2 * 2 ^ n = omega arith in
    let positive : 0 < 2 ^ n = one-le-pow n 2 (omega arith) in ground arith

-- A failure before the context is cancelled.
abbrev IsDelayed : Server → Server → Type 0
IsDelayed s t =
    (t.phase ≡ waiting)
    × (t.cancelled ≡ false)
    × (t.backoff ≡ next_backoff s.backoff)
    × (t.waits ≡ s.waits ++ next_backoff s.backoff ∷ [])

accept_failed-IsDelayed : (s : Server) → s.cancelled ≡ false → IsDelayed s (accept_failed s)
unfolding accept_failed
accept_failed-IsDelayed s e = failed s.cancelled refl e
  where
    failed :
        (b : Bool)
        → s.cancelled ≡ b
        → b ≡ false
        → IsDelayed s (
            if b then record s { phase = returned } else record s {
              phase = waiting;
              backoff = next_backoff s.backoff;
              waits = s.waits ++ next_backoff s.backoff ∷ [];
            })
    failed true e f = absurd (ground arith)
    failed false e f = (refl, e, refl, refl)

failures-backoff :
    (n : ℕ) (s : Server)
    → s.cancelled ≡ false
    → ((failures n (accepted s)).cancelled ≡ false)
      × (next_backoff (failures n (accepted s)).backoff ≡ delay n)
unfolding next_backoff
failures-backoff zero s e = (e, refl)
failures-backoff (suc n) s e =
    let (e', b) = failures-backoff n s e in
    let (_, e'', b', _) = accept_failed-IsDelayed (failures n (accepted s)) e' in
    (e'', ap next_backoff (b' ∙ b) ∙ next_backoff-delay n)

-- Before the server is closed, and behind a connection that has been accepted and `n` failures of
-- `Accept` in a row: one more failure makes the loop wait for 5 ms times 2^n, but for at most a
-- second, and go on. So a connection that is accepted puts the back-off back.
pub failures-delay :
    (n : ℕ) (s : Server)
    → s.cancelled ≡ false
    → let t = failures n (accepted s) in
      ((accept_failed t).phase ≡ waiting) × ((accept_failed t).waits ≡ t.waits ++ delay n ∷ [])
failures-delay n s e =
    let t = failures n (accepted s) in
    let (e', b) = failures-backoff n s e in
    let (p, _, _, w) = accept_failed-IsDelayed t e' in (p, w ∙ ap (λ d. t.waits ++ d ∷ []) b)
