-- ===== src/DotStuff/Contract.antt =====
-- dotstuff.go over any writer, one that fails included.
use go_pop.Prelude.{
  ℕ, ◌+◌, ◌≤◌, Bool, true, false, Bool-cases, inl, inr, List, [], ◌∷◌, ◌++◌, ◌≡◌, ◌↔◌, refl, ap,
  ◌∙◌, sym, arith, length,
}
use mathlib.Core.List.{flatten}
use go_pop.Text.{Bytes}
use go_pop.DotStuff.{Put, DotStuffWriter, pieces, put_all, passed, counted, write, copy}

module _ {W : Type 0} (put : Put W) where
  -- Goes on with `q` where a first `Write` ended, if that did not fail.
  and_then : Bytes → DotStuffWriter W × ℕ × Bool → DotStuffWriter W × ℕ × Bool
  and_then q (d, n, true) = let (d', m, fine) = write put q d in (d', n + m, fine)
  and_then q (d, n, false) = (d, n, false)

  and_then-counted :
      (q : Bytes) (r : DotStuffWriter W × ℕ × Bool)
      → counted (and_then q r) ≡ and_then q (counted r)
  unfolding and_then
  and_then-counted q (d, n, true) = let (d', m, fine) = write put q d in grind arith
  and_then-counted q (d, n, false) = refl

  write_good :
      (b : ℕ) (p : Bytes) (d : DotStuffWriter W)
      → (put_all put (pieces d.at_line_start d.last_byte b) d.w).1 ≡ true
      → write put (b ∷ p) d
        ≡ counted
            (write put p (passed d b (put_all put (pieces d.at_line_start d.last_byte b) d.w).0))
  unfolding write
  write_good b p d e = rw e

  write_bad :
      (b : ℕ) (p q : Bytes) (d : DotStuffWriter W)
      → (put_all put (pieces d.at_line_start d.last_byte b) d.w).1 ≡ false
      → write put (b ∷ (p ++ q)) d ≡ and_then q (write put (b ∷ p) d)
  unfolding write and_then
  write_bad b p q d e = rw e

  write-append :
      (p q : Bytes) (d : DotStuffWriter W) → write put (p ++ q) d ≡ and_then q (write put p d)
  write-append [] q d = unfold write and_then in ground arith
  write-append (b ∷ p) q d =
      let (w', fine) = put_all put (pieces d.at_line_start d.last_byte b) d.w in
      let later = write-append p q (passed d b w') in
      elim (Bool-cases fine) [
        | inl e ↦
            write_good b (p ++ q) d e
            ∙ ap counted later
            ∙ and_then-counted q (write put p (passed d b w'))
            ∙ ap (and_then q) (sym (write_good b p d e))
        | inr e ↦ write_bad b p q d e
      ]

  -- Whatever the writer does, a byte count below the length is returned exactly with an error.
  pub write_count :
      (p : Bytes) (d : DotStuffWriter W)
      → ((write put p d).1 ≤ length p)
        × (((write put p d).2 ≡ true) ↔ ((write put p d).1 ≡ length p))
  unfolding write
  write_count [] d = ground arith
  write_count (b ∷ p) d =
      let (w', fine) = put_all put (pieces d.at_line_start d.last_byte b) d.w in
      ground (arith, write_count p (passed d b w'))

  -- `io.Copy` of a body, however it is cut into chunks, is one `Write` of the whole body, write
  -- errors included: the same state is reached and the same verdict given.
  pub copy-write :
      (cs : List Bytes) (d : DotStuffWriter W)
      → ((copy put cs d).0 ≡ (write put (flatten cs) d).0)
        × ((copy put cs d).1 ≡ (write put (flatten cs) d).2)
  unfolding copy flatten and_then
  copy-write [] d = unfold write in (refl, refl)
  copy-write (c ∷ cs) d =
      let (d', n, fine) = write put c d in
      rw (write-append c (flatten cs) d) (ground (arith, copy-write cs d'))
