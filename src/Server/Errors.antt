-- ===== src/Server/Errors.antt =====
-- pop3server/errors.go: the errors that sessions return, and their text on the wire.
use go_pop.Prelude.{Bool, [], ◌++◌, if◌then◌else◌}
use go_pop.Text.{Bytes, codes, equal, to_upper}

-- `*Error`.
pub record Error : Type 0 where
  pub code : Bytes
  pub message : Bytes
  pub close : Bool

unfoldable pub wire_message : Error → Bytes
unfolding equal to_upper
wire_message e =
    let msg = if equal e.message [] then codes "internal error" else e.message in
    if equal e.code [] then msg else codes "[" ++ (to_upper e.code ++ (codes "] " ++ msg))

-- An `error` by what the library finds in its chain: an `*Error` (`errors.As`), or else
-- `ErrCloseConnection` (`errors.Is`), or neither. The last two carry their text.
pub data SessionError : Type 0 where
  wire : Error → SessionError
  close_connection : Bytes → SessionError
  plain : Bytes → SessionError

-- A Go result `(value, error)`.
pub data Outcome {ℓ} (A : Type ℓ) : Type ℓ where
  ok : A → Outcome A
  fail : SessionError → Outcome A
