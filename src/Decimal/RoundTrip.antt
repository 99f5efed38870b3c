-- ===== src/Decimal/RoundTrip.antt =====
-- `%d` and `strconv.ParseInt`.
use go_pop.Prelude.{
  ℕ, suc, ◌+◌, ◌-◌, ◌*◌, ◌<◌, ◌^◌, ℤ, pos, negsuc, some, ◌>>=◌, [], ◌∷◌, ◌≡◌, ◌≢◌, refl, ap, ◌∙◌,
  arith, All,
}
use go_pop.Text.{Bytes}
use go_pop.Decimal.{
  format, format_int, read_digits, read_number, positive_int64, negative_int64, parse_int64,
}
use go_pop.Decimal.Laws.{IsDigit, value_from, format_lem}

-- An int64. `negsuc n` is -(n + 1).
abbrev pub IsInt64 : ℤ → Type 0
IsInt64 (pos n) = n < 2 ^ 63
IsInt64 (negsuc n) = n < 2 ^ 63

read_digits_lem : (s : Bytes) (n : ℕ) → All IsDigit s → read_digits n s ≡ some (value_from n s)
unfolding read_digits value_from
read_digits_lem [] n h = refl
read_digits_lem (c ∷ s) n (d, h) = ground (arith, read_digits_lem s (c - b'0' + 10 * n) h)

read_number_lem : (s : Bytes) → All IsDigit s → s ≢ [] → read_number s ≡ some (value_from 0 s)
unfolding read_number
read_number_lem [] h ne = absurd (ne refl)
read_number_lem (c ∷ s) h ne = read_digits_lem (c ∷ s) 0 h

unsigned : (s : Bytes) → All IsDigit s → s ≢ [] → parse_int64 s ≡ (read_number s >>= positive_int64)
unfolding parse_int64
unsigned [] h ne = absurd (ne refl)
unsigned (c ∷ s) (d, h) ne = ground arith

signed : (s : Bytes) → parse_int64 (b'-' ∷ s) ≡ (read_number s >>= negative_int64)
unfolding parse_int64
signed s = refl

format-read : (n : ℕ) → read_number (format n) ≡ some n
format-read n =
    let (all, exact, ne) = format_lem n in read_number_lem (format n) all ne ∙ ap some exact

-- Every int64 that `%d` prints is read back.
pub parse_int64-format_int : (z : ℤ) → IsInt64 z → parse_int64 (format_int z) ≡ some z
unfolding format_int positive_int64 negative_int64
parse_int64-format_int (pos n) h =
    let (all, _, ne) = format_lem n in
    unsigned (format n) all ne ∙ ap (λ o. o >>= positive_int64) (format-read n) ∙ ground arith
parse_int64-format_int (negsuc n) h =
    signed (format (suc n)) ∙ ap (λ o. o >>= negative_int64) (format-read (suc n)) ∙ ground arith
