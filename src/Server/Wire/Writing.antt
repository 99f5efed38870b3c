-- ===== src/Server/Wire/Writing.antt =====
-- The buffered writer over a network that takes every write, as dotstuff.go uses it.
use go_pop.Prelude.{
  ◌-◌, Bool, true, false, Bool-cases, inl, inr, List, [], ◌∷◌, ◌++◌, length, take, drop,
  take-append-drop, leb, ◌==◌, if◌then◌else◌, ◌≡◌, refl, ap, sym, ◌∙◌, arith, All, append_assoc,
  append-nil,
}
use go_pop.Text.{Bytes}
use go_pop.DotStuff.Output.{IsReliable}
use mathlib.Core.Path.{subst}
use go_pop.Server.Wire.{
  put_buffered, flush_pending, unless_failed, Writer, net_write, flush, put_empty, put, buffer_size,
}

-- All bytes written, on the network or in the buffer.
abbrev pub contents : Writer → Bytes
contents w = w.sent ++ w.pending

-- No write has failed, and none will.
abbrev pub IsAlive : Writer → Type 0
IsAlive w = (w.failed_once ≡ false) × All (λ b. b ≡ true) w.link

-- A write that succeeds, appends, and leaves the writer alive.
abbrev Appends : Bytes → Writer → Writer × Bool → Type 0
Appends p w r = (r.1 ≡ true) × IsAlive r.0 × (contents r.0 ≡ contents w ++ p)

net_write-IsAlive :
    (p : Bytes) (w : Writer)
    → IsAlive w
    → ((net_write p [] w).1 ≡ true)
      × IsAlive (net_write p [] w).0
      × ((net_write p [] w).0.sent ≡ w.sent ++ p)
      × ((net_write p [] w).0.pending ≡ [])
unfolding net_write
net_write-IsAlive p w (f, l) = go w.link l
  where
    go :
        (link : List Bool)
        → All (λ b. b ≡ true) link
        → let r = net_write p [] (record w { link = link }) in
          (r.1 ≡ true) × IsAlive r.0 × (r.0.sent ≡ w.sent ++ p) × (r.0.pending ≡ [])
    go [] l = (refl, (f, tt), refl, refl)
    go (up ∷ later) (e, l) = ground arith

length-nil : (s : Bytes) → (length s == 0) ≡ true → s ≡ []
length-nil [] h = refl
length-nil (c ∷ s) h = absurd (ground arith)

put_empty-Appends :
    (p : Bytes) (w : Writer) → w.pending ≡ [] → IsAlive w → Appends p w (put_empty p w)
unfolding put_empty
put_empty-Appends p w e alive =
    let (fine, alive', sent, pending) = net_write-IsAlive p w alive in
    elim (Bool-cases (leb (length p) buffer_size)) [
      | inl fits ↦ rw fits (refl, alive, rw e (rw (append-nil w.sent)))
      | inr over ↦ rw over (fine, alive', rw (sent, pending, e) (rw append-nil (rw append-nil)))
    ]

put_buffered-Appends : (p : Bytes) (w : Writer) → IsAlive w → Appends p w (put_buffered p w)
unfolding put_buffered
put_buffered-Appends p w alive =
    let room = buffer_size - length w.pending in
    let q = w.pending ++ take room p in
    let (fine, alive', sent, pending) = net_write-IsAlive q w alive in
    let (fine', alive'', all) =
      put_empty-Appends (drop room p) (net_write q [] w).0 pending alive' in
    elim (Bool-cases (leb (length p) room)) [
      | inl fits ↦ rw fits (refl, alive, sym (append_assoc w.sent w.pending p))
      | inr over ↦ elim (Bool-cases (length w.pending == 0)) [
        | inl empty ↦ rw (over, empty) (put_empty-Appends p w (length-nil w.pending empty) alive)
        | inr some' ↦
            rw (over, some', fine)
              (
                fine',
                alive'',
                all ∙ simp (sent, pending, append-nil, append_assoc, take-append-drop room p),
              )
      ]
    ]

not_failed : (w : Writer) (r : Writer × Bool) → w.failed_once ≡ false → unless_failed w r ≡ r
not_failed w r e = ap (λ b. if b then (w, false) else r) e

put-Appends : (p : Bytes) (w : Writer) → IsAlive w → Appends p w (put p w)
put-Appends p w alive =
    let open' : put p w ≡ put_buffered p w =
      unfold put in not_failed w (put_buffered p w) alive.0 in
    subst (Appends p w) (sym open') (put_buffered-Appends p w alive)

Flushed : Writer → Writer × Bool → Type 0
Flushed w r = (r.1 ≡ true) × IsAlive r.0 × (r.0.sent ≡ contents w) × (r.0.pending ≡ [])

flush_pending-Flushed : (w : Writer) → IsAlive w → Flushed w (flush_pending w)
unfolding flush_pending Flushed
flush_pending-Flushed w alive = elim (Bool-cases (length w.pending == 0)) [
  | inl empty ↦
      let none' = length-nil w.pending empty in
      rw empty (refl, alive, sym (ap (λ t. w.sent ++ t) none' ∙ append-nil w.sent), none')
  | inr some' ↦ rw some' (net_write-IsAlive w.pending w alive)
]

-- A flush of a live writer puts all its contents on the network.
pub flush-IsAlive :
    (w : Writer)
    → IsAlive w
    → ((flush w).1 ≡ true)
      × IsAlive (flush w).0
      × ((flush w).0.sent ≡ contents w)
      × ((flush w).0.pending ≡ [])
unfolding Flushed
flush-IsAlive w alive =
    let open' : flush w ≡ flush_pending w =
      unfold flush in not_failed w (flush_pending w) alive.0 in
    subst (Flushed w) (sym open') (flush_pending-Flushed w alive)

-- On a network that takes every write, the buffered writer is one that dotstuff.go can rely on,
-- with the bytes on the network and in the buffer as its contents.
pub put-IsReliable : IsReliable put contents IsAlive
put-IsReliable = record {
  fine = λ p w g. (put-Appends p w g).0;
  good = λ p w g. (put-Appends p w g).1;
  appends = λ p w g. (put-Appends p w g).2;
}
