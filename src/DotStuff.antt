-- ===== src/DotStuff.antt =====
-- pop3server/dotstuff.go: the byte-stuffing writer over an `io.Writer`.
pub mod Spec
pub mod Output
pub mod Contract
pub mod Receive
use go_pop.Prelude.{ℕ, suc, Bool, true, false, not, ◌&&◌, List, [], ◌∷◌, ◌==◌, if◌then◌else◌}
use go_pop.Text.{Bytes, codes}

abbrev pub cr : ℕ
cr = b'\r'

abbrev pub lf : ℕ
lf = b'\n'

abbrev pub dot : ℕ
dot = b'.'

-- The underlying `io.Writer`: a write moves its state, and reports `false` on an error.
abbrev pub Put : Type 0 → Type 0
Put W = Bytes → W → W × Bool

pub record DotStuffWriter (W : Type 0) : Type 0 where
  pub w : W
  pub at_line_start : Bool
  pub last_byte : ℕ

-- `newDotStuffWriter`.
abbrev pub new_dot_stuff_writer : {W : Type 0} → W → DotStuffWriter W
new_dot_stuff_writer w = record { w = w; at_line_start = true; last_byte = 0 }

-- The writes that one input byte makes, in order.
unfoldable pub pieces : Bool → ℕ → ℕ → List Bytes
pieces start last b =
    if b == lf
    then (if not (last == cr) then (cr ∷ []) ∷ (lf ∷ []) ∷ [] else (lf ∷ []) ∷ [])
    else if b == cr
    then (cr ∷ []) ∷ []
    else if start && b == dot
    then (dot ∷ []) ∷ (b ∷ []) ∷ []
    else (b ∷ []) ∷ []

-- The state behind a byte whose output has all been written.
abbrev pub passed : {W : Type 0} → DotStuffWriter W → ℕ → W → DotStuffWriter W
passed d b w' = record d { w = w'; at_line_start = b == lf; last_byte = b }

-- One more input byte processed before what the rest of the loop returns.
abbrev pub counted : {W : Type 0} → DotStuffWriter W × ℕ × Bool → DotStuffWriter W × ℕ × Bool
counted (d, n, fine) = (d, suc n, fine)

module _ {W : Type 0} (put : Put W) where
  -- Writes in order up to the first error.
  unfoldable pub put_all : List Bytes → W → W × Bool
  put_all [] w = (w, true)
  put_all (p ∷ ps) w =
      let (w', fine) = put p w in let rest = put_all ps w' in if fine then rest else (w', false)

  -- `Write`: the new state, the number of input bytes processed, and `false` on an error.
  unfoldable pub write : Bytes → DotStuffWriter W → DotStuffWriter W × ℕ × Bool
  unfolding put_all pieces
  write [] d = (d, 0, true)
  write (b ∷ p) d =
      let (w', fine) = put_all (pieces d.at_line_start d.last_byte b) d.w in
      let rest = write p (passed d b w') in
      if fine then counted rest else (record d { w = w' }, 0, false)

  -- `Close`.
  unfoldable pub close : DotStuffWriter W → W × Bool
  unfolding put_all
  close d =
      if d.at_line_start
      then put_all (codes ".\r\n" ∷ []) d.w
      else put_all ((if d.last_byte == cr then codes "\n" else codes "\r\n") ∷ codes ".\r\n" ∷ [])
          d.w

  -- `io.Copy(d, body)` on a body that yields these chunks: `false` on a write error.
  unfoldable pub copy : List Bytes → DotStuffWriter W → DotStuffWriter W × Bool
  unfolding write
  copy [] d = (d, true)
  copy (c ∷ cs) d =
      let (d', n, fine) = write c d in let rest = copy cs d' in if fine then rest else (d', false)
