-- ===== src/Base64.antt =====
-- `base64.StdEncoding` of package encoding/base64, as the server decodes and the client encodes.
pub mod RoundTrip
pub mod Digits
use go_pop.Prelude.{
  ℕ, ◌+◌, ◌-◌, ◌*◌, ◌/◌, ◌%◌, Bool, true, false, not, ◌&&◌, ◌||◌, Option, none, some, [], ◌∷◌, ltb,
  leb, ◌==◌, if◌then◌else◌, ◌>>=◌, ◌≡◌, refl,
}
use go_pop.Text.{Bytes, codes}

-- The value of a digit.
unfoldable pub digit_value : ℕ → Option ℕ
digit_value c =
    if leb b'A' c && leb c b'Z'
    then some (c - 65)
    else if leb b'a' c && leb c b'z'
    then some (c - 71)
    else if leb b'0' c && leb c b'9'
    then some (c + 4)
    else if c == b'+'
    then some 62
    else if c == b'/'
    then some 63
    else none

unfoldable pub digit : ℕ → ℕ
digit v =
    if ltb v 26
    then v + 65
    else if ltb v 52
    then v + 71
    else if ltb v 62
    then v - 4
    else if v == 62
    then b'+'
    else b'/'

-- The decoder skips CR and LF.
unfoldable pub skip_crlf : Bytes → Bytes
skip_crlf [] = []
skip_crlf (c ∷ s) = let rest = skip_crlf s in if c == b'\r' || c == b'\n' then rest else c ∷ rest

-- The last four digits, padded: one byte, or two.
unfoldable pub last_quantum : ℕ → ℕ → ℕ → ℕ → Option Bytes
unfolding digit_value
last_quantum a b c d = do
  x ← digit_value a
  y ← digit_value b
  (if not (d == b'=')
      then none
      else if c == b'='
      then some ((x * 4 + y / 16) ∷ [])
      else (digit_value c >>= λ z. some ((x * 4 + y / 16) ∷ (y % 16 * 16 + z / 4) ∷ [])))

unfoldable pub full_quantum : ℕ → ℕ → ℕ → ℕ → Option Bytes → Option Bytes
unfolding digit_value
full_quantum a b c d later = do
  x ← digit_value a
  y ← digit_value b
  z ← digit_value c
  w ← digit_value d
  rest ← later
  some ((x * 4 + y / 16) ∷ (y % 16 * 16 + z / 4) ∷ (z % 4 * 64 + w) ∷ rest)

unfoldable pub decode_quanta : Bytes → Option Bytes
unfolding last_quantum full_quantum
decode_quanta [] = some []
decode_quanta (a ∷ b ∷ c ∷ d ∷ []) =
    if d == b'=' then last_quantum a b c d else full_quantum a b c d (some [])
decode_quanta (a ∷ b ∷ c ∷ d ∷ e ∷ s) = full_quantum a b c d (decode_quanta (e ∷ s))
decode_quanta _ = none

-- `DecodeString`; `none` on an error.
unfoldable pub decode_base64 : Bytes → Option Bytes
unfolding skip_crlf decode_quanta
decode_base64 s = decode_quanta (skip_crlf s)

-- `EncodeToString`.
unfoldable pub encode_base64 : Bytes → Bytes
unfolding digit
encode_base64 [] = []
encode_base64 (a ∷ []) = digit (a / 4) ∷ digit (a % 4 * 16) ∷ b'=' ∷ b'=' ∷ []
encode_base64 (a ∷ b ∷ []) =
    digit (a / 4) ∷ digit (a % 4 * 16 + b / 16) ∷ digit (b % 16 * 4) ∷ b'=' ∷ []
encode_base64 (a ∷ b ∷ c ∷ s) =
    digit (a / 4)
    ∷ digit (a % 4 * 16 + b / 16)
    ∷ digit (b % 16 * 4 + c / 64)
    ∷ digit (c % 64)
    ∷ encode_base64 s

test_decode :
    decode_base64 (codes "AHVzZXIAcGFzcw==")
    ≡ some (0 ∷ 117 ∷ 115 ∷ 101 ∷ 114 ∷ 0 ∷ 112 ∷ 97 ∷ 115 ∷ 115 ∷ [])
unfolding decode_base64
test_decode = refl

test_encode : encode_base64 (codes "any ca") ≡ codes "YW55IGNh"
unfolding encode_base64
test_encode = refl
