-- ===== src/DotStuff/Output.antt =====
-- dotstuff.go over a writer that does not fail: the bytes that `Write` and `Close` produce.
use go_pop.Prelude.{
  ℕ, suc, Bool, true, Bool-cases, inl, inr, List, [], ◌∷◌, ◌++◌, ◌≡◌, refl, ap, ◌∙◌, sym, arith,
  length, append_assoc, append-nil, ◌==◌,
}
use mathlib.Core.List.{flatten}
use go_pop.Text.{Bytes, codes}
use go_pop.DotStuff.{
  Put, DotStuffWriter, pieces, put_all, cr, lf, passed, write, close, new_dot_stuff_writer,
}
use go_pop.DotStuff.Spec.{canonical, completion, stuff, terminator}

-- A writer that takes what it is given: in a good state every write succeeds, appends its bytes,
-- and leaves a good state.
pub record IsReliable {W : Type 0} (put : Put W) (contents : W → Bytes) (Good : W → Type 0)
    : Type 0 where
  pub fine : (p : Bytes) (w : W) → Good w → (put p w).1 ≡ true
  pub good : (p : Bytes) (w : W) → Good w → Good (put p w).0
  pub appends : (p : Bytes) (w : W) → Good w → contents (put p w).0 ≡ contents w ++ p

-- One input byte: what is written for it goes before what is due for the rest.
stuff-pieces :
    (start : Bool) (last b : ℕ) (s : Bytes)
    → flatten (pieces start last b) ++ stuff (b == lf) (canonical (b == lf) b s)
      ≡ stuff start (canonical start last (b ∷ s))
unfolding pieces stuff canonical flatten
stuff-pieces start last b s = ground arith

module _ {W : Type 0} (put : Put W) (contents : W → Bytes) (Good : W → Type 0)
    (law : IsReliable put contents Good) where
  put_all_lem :
      (ps : List Bytes) (w : W)
      → Good w
      → ((put_all put ps w).1 ≡ true)
        × Good (put_all put ps w).0
        × (contents (put_all put ps w).0 ≡ contents w ++ flatten ps)
  unfolding put_all flatten
  put_all_lem [] w g = (refl, g, sym (append-nil (contents w)))
  put_all_lem (p ∷ ps) w g =
      let (f, h, e) = put_all_lem ps (put p w).0 (law.good p w g) in
      rw (law.fine p w g)
        (f, h, e ∙ rw (law.appends p w g) (append_assoc (contents w) p (flatten ps)))

  -- What closing the writer in state `d` adds.
  closing : DotStuffWriter W → Bytes
  closing d = completion d.at_line_start d.last_byte ++ terminator

  close_lem :
      (d : DotStuffWriter W)
      → Good d.w
      → ((close put d).1 ≡ true)
        × Good (close put d).0
        × (contents (close put d).0 ≡ contents d.w ++ closing d)
  unfolding close closing completion flatten
  close_lem d g = elim (Bool-cases d.at_line_start) [
    | inl e ↦ rw e (put_all_lem (terminator ∷ []) d.w g)
    | inr e ↦ elim (Bool-cases (d.last_byte == cr)) [
      | inl f ↦ rw (e, f) (put_all_lem (codes "\n" ∷ terminator ∷ []) d.w g)
      | inr f ↦ rw (e, f) (put_all_lem (codes "\r\n" ∷ terminator ∷ []) d.w g)
    ]
  ]

  -- The writer's promise, from any state.
  abbrev Delivers : Bytes → DotStuffWriter W → Type 0
  Delivers p d =
      ((write put p d).2 ≡ true)
      × ((write put p d).1 ≡ length p)
      × ((close put (write put p d).0).1 ≡ true)
      × Good (close put (write put p d).0).0
      × (contents (close put (write put p d).0).0
          ≡ contents d.w
            ++ (stuff d.at_line_start (canonical d.at_line_start d.last_byte p) ++ terminator))

  stuff-completion :
      (start : Bool) (last : ℕ) → stuff start (canonical start last []) ≡ completion start last
  unfolding stuff canonical
  stuff-completion start last = ground arith

  write-Delivers : (p : Bytes) (d : DotStuffWriter W) → Good d.w → Delivers p d
  unfolding write closing
  write-Delivers [] d g =
      let (f, h, e) = close_lem d g in
      (refl, refl, f, h, e ∙ rw (stuff-completion d.at_line_start d.last_byte))
  write-Delivers (b ∷ p) d g =
      let ps = pieces d.at_line_start d.last_byte b in
      let (f, h, e) = put_all_lem ps d.w g in
      let (i, n, c, h', e') = write-Delivers p (passed d b (put_all put ps d.w).0) h in
      rw f (
        i,
        ap suc n,
        c,
        h',
        e' ∙ rw e (rw (← stuff-pieces d.at_line_start d.last_byte b p) (simp append_assoc)),
      )

  -- Over a writer that takes every byte: `Write` of any message, followed by `Close`, succeeds,
  -- counts every input byte, and puts on the wire the message with CRLF line ends, with every dot
  -- that starts a line doubled, and with the terminating line behind it.
  pub close-write :
      (p : Bytes) (w : W)
      → Good w
      → ((write put p (new_dot_stuff_writer w)).2 ≡ true)
        × ((write put p (new_dot_stuff_writer w)).1 ≡ length p)
        × ((close put (write put p (new_dot_stuff_writer w)).0).1 ≡ true)
        × Good (close put (write put p (new_dot_stuff_writer w)).0).0
        × (contents (close put (write put p (new_dot_stuff_writer w)).0).0
            ≡ contents w ++ (stuff true (canonical true 0 p) ++ terminator))
  close-write p w g = write-Delivers p (new_dot_stuff_writer w) g
