-- ===== src/Decimal.antt =====
-- `%d` of package fmt, and reading digits back.
pub mod Laws
pub mod RoundTrip
use go_pop.Prelude.{
  ℕ, zero, suc, ◌+◌, ◌-◌, ◌/◌, ◌%◌, ℤ, pos, negsuc, [], ◌∷◌, ◌++◌, ltb, leb, ◌==◌, ◌&&◌, ◌*◌, ◌^◌,
  Option, none, some, ◌>>=◌, if◌then◌else◌, ◌≡◌, refl,
}
use go_pop.Text.{Bytes, codes}

-- The digits of `n` in front of `out`, with fuel above the number of digits.
unfoldable pub digits : ℕ → ℕ → Bytes → Bytes
digits zero n out = out
digits (suc f) n out =
    let more = digits f (n / 10) ((b'0' + n % 10) ∷ out) in
    if ltb n 10 then (b'0' + n) ∷ out else more

unfoldable pub format : ℕ → Bytes
unfolding digits
format n = digits (suc n) n []

unfoldable pub format_int : ℤ → Bytes
unfolding format
format_int (pos n) = format n
format_int (negsuc n) = b'-' ∷ format (suc n)

-- A run of digits behind the number `n`; `none`: there is another byte.
unfoldable pub read_digits : ℕ → Bytes → Option ℕ
read_digits n [] = some n
read_digits n (c ∷ s) = if leb b'0' c && leb c b'9' then read_digits (c - b'0' + 10 * n) s else none

-- One digit at least.
unfoldable pub read_number : Bytes → Option ℕ
unfolding read_digits
read_number [] = none
read_number (c ∷ s) = read_digits 0 (c ∷ s)

unfoldable pub positive_int64 : ℕ → Option ℤ
positive_int64 n = if ltb n (2 ^ 63) then some (pos n) else none

unfoldable pub negative_int64 : ℕ → Option ℤ
negative_int64 zero = some (pos 0)
negative_int64 (suc n) = if ltb n (2 ^ 63) then some (negsuc n) else none

-- `strconv.ParseInt(s, 10, 64)`, and `strconv.Atoi` where `int` has 64 bits; `none` on an error.
unfoldable pub parse_int64 : Bytes → Option ℤ
unfolding read_number positive_int64 negative_int64
parse_int64 [] = none
parse_int64 (c ∷ s) =
    if c == b'-'
    then (read_number s >>= negative_int64)
    else if c == b'+'
    then (read_number s >>= positive_int64)
    else (read_number (c ∷ s) >>= positive_int64)

test_parse_int64 : parse_int64 (codes "-120") ≡ some (negsuc 119)
unfolding parse_int64
test_parse_int64 = refl

test_format : format_int (negsuc 119) ≡ codes "-120"
unfolding format_int
test_format = refl
