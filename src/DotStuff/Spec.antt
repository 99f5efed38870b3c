-- ===== src/DotStuff/Spec.antt =====
-- What dotstuff.go puts on the wire, described by two passes that know nothing of each other:
-- line endings first, dots second.
use go_pop.Prelude.{ℕ, ◌+◌, Bool, not, ◌&&◌, [], ◌∷◌, ◌++◌, ◌≡◌, arith, length, ◌==◌, if◌then◌else◌}
use go_pop.Text.{Bytes, codes}

-- What completes a last line that has no LF.
unfoldable pub completion : Bool → ℕ → Bytes
completion start prev =
    if start then [] else if prev == b'\r' then b'\n' ∷ [] else b'\r' ∷ b'\n' ∷ []

-- The message in canonical form, every line ended by CRLF. `start`: no line is open.
unfoldable pub canonical : Bool → ℕ → Bytes → Bytes
unfolding completion
canonical start prev [] = completion start prev
canonical start prev (c ∷ s) =
    (if c == b'\n' && not (prev == b'\r') then b'\r' ∷ [] else []) ++ c ∷ canonical (c == b'\n') c s

-- A dot that starts a line is doubled.
unfoldable pub stuff : Bool → Bytes → Bytes
stuff start [] = []
stuff start (c ∷ s) = (if start && c == b'.' then b'.' ∷ [] else []) ++ c ∷ stuff (c == b'\n') s

abbrev pub terminator : Bytes
terminator = codes ".\r\n"

-- LFs with no CR in front.
unfoldable pub bare_lfs : ℕ → Bytes → ℕ
bare_lfs prev [] = 0
bare_lfs prev (c ∷ s) = (if c == b'\n' && not (prev == b'\r') then 1 else 0) + bare_lfs c s

-- What completing the last line adds.
unfoldable pub unended : Bool → ℕ → Bytes → ℕ
unended start prev [] = if start then 0 else if prev == b'\r' then 1 else 2
unended start prev (c ∷ s) = unended (c == b'\n') c s

-- The octets that a receiver reconstructs: those of the message, one for each LF with no CR in
-- front, and those that complete a last line with no LF.
pub length-canonical :
    (s : Bytes) (start : Bool) (prev : ℕ)
    → length (canonical start prev s) ≡ length s + bare_lfs prev s + unended start prev s
unfolding canonical bare_lfs unended
length-canonical [] start prev = ground arith
length-canonical (c ∷ s) start prev = ground (arith, length-canonical s (c == b'\n') c)
