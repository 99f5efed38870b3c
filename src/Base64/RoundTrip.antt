-- ===== src/Base64/RoundTrip.antt =====
-- Decoding undoes encoding.
use go_pop.Prelude.{
  ℕ, ◌+◌, ◌*◌, ◌/◌, ◌%◌, ◌<◌, false, ◌||◌, Option, some, [], ◌∷◌, ◌==◌, ◌>>=◌, ◌≡◌, refl, ◌∙◌,
  arith, All,
}
use go_pop.Text.{Bytes}
use go_pop.Base64.{
  digit_value, digit, skip_crlf, last_quantum, full_quantum, decode_quanta, decode_base64,
  encode_base64,
}

abbrev pub IsByte : ℕ → Type 0
IsByte c = c < 256

digit_value-digit : (v : ℕ) → v < 64 → digit_value (digit v) ≡ some v
unfolding digit_value digit
digit_value-digit v h = ground arith

digit_plain :
    (v : ℕ)
    → v < 64
    → ((digit v == b'=') ≡ false) × ((digit v == b'\r' || digit v == b'\n') ≡ false)
unfolding digit
digit_plain v h = ground arith

skip_digit : (v : ℕ) (s : Bytes) → v < 64 → skip_crlf (digit v ∷ s) ≡ digit v ∷ skip_crlf s
unfolding skip_crlf
skip_digit v s h = rw ((digit_plain v h).1)

-- One group of three bytes.
three :
    (a b c : ℕ) (later : Option Bytes)
    → a < 256
    → b < 256
    → c < 256
    → full_quantum
        (digit (a / 4))
        (digit (a % 4 * 16 + b / 16))
        (digit (b % 16 * 4 + c / 64))
        (digit (c % 64))
        later
      ≡ (later >>= λ rest. some (a ∷ b ∷ c ∷ rest))
unfolding full_quantum
three a b c later ha hb hc =
    let p : a / 4 * 4 + (a % 4 * 16 + b / 16) / 16 ≡ a = omega arith in
    let q : (a % 4 * 16 + b / 16) % 16 * 16 + (b % 16 * 4 + c / 64) / 4 ≡ b = omega arith in
    let r : (b % 16 * 4 + c / 64) % 4 * 64 + c % 64 ≡ c = omega arith in
    rw (
      digit_value-digit (a / 4) (omega arith),
      digit_value-digit (a % 4 * 16 + b / 16) (omega arith),
      digit_value-digit (b % 16 * 4 + c / 64) (omega arith),
      digit_value-digit (c % 64) (omega arith),
      p,
      q,
      r,
    )

quanta-cons :
    (a b c : ℕ) (s : Bytes)
    → a < 256
    → b < 256
    → c < 256
    → decode_quanta (encode_base64 (a ∷ b ∷ c ∷ s))
      ≡ (decode_quanta (encode_base64 s) >>= λ rest. some (a ∷ b ∷ c ∷ rest))
unfolding decode_quanta encode_base64
quanta-cons a b c [] ha hb hc =
    rw ((digit_plain (c % 64) (omega arith)).0) (three a b c (some []) ha hb hc)
quanta-cons a b c (d ∷ []) ha hb hc = three a b c _ ha hb hc
quanta-cons a b c (d ∷ e ∷ []) ha hb hc = three a b c _ ha hb hc
quanta-cons a b c (d ∷ e ∷ f ∷ s) ha hb hc = three a b c _ ha hb hc

one :
    (a : ℕ) → a < 256 → last_quantum (digit (a / 4)) (digit (a % 4 * 16)) b'=' b'=' ≡ some (a ∷ [])
unfolding last_quantum
one a ha =
    let p : a / 4 * 4 + a % 4 * 16 / 16 ≡ a = omega arith in
    rw (digit_value-digit (a / 4) (omega arith), digit_value-digit (a % 4 * 16) (omega arith), p)

two :
    (a b : ℕ)
    → a < 256
    → b < 256
    → last_quantum (digit (a / 4)) (digit (a % 4 * 16 + b / 16)) (digit (b % 16 * 4)) b'='
      ≡ some (a ∷ b ∷ [])
unfolding last_quantum
two a b ha hb =
    let p : a / 4 * 4 + (a % 4 * 16 + b / 16) / 16 ≡ a = omega arith in
    let q : (a % 4 * 16 + b / 16) % 16 * 16 + b % 16 * 4 / 4 ≡ b = omega arith in
    rw (
      digit_value-digit (a / 4) (omega arith),
      digit_value-digit (a % 4 * 16 + b / 16) (omega arith),
      (digit_plain (b % 16 * 4) (omega arith)).0,
      digit_value-digit (b % 16 * 4) (omega arith),
      p,
      q,
    )

quanta-encode : (s : Bytes) → All IsByte s → decode_quanta (encode_base64 s) ≡ some s
quanta-encode [] h = unfold decode_quanta encode_base64 in refl
quanta-encode (a ∷ []) (ha, h) = unfold decode_quanta encode_base64 in one a ha
quanta-encode (a ∷ b ∷ []) (ha, (hb, h)) = unfold decode_quanta encode_base64 in two a b ha hb
quanta-encode (a ∷ b ∷ c ∷ s) (ha, (hb, (hc, h))) =
    quanta-cons a b c s ha hb hc ∙ rw (quanta-encode s h)

skip-encode : (s : Bytes) → All IsByte s → skip_crlf (encode_base64 s) ≡ encode_base64 s
unfolding encode_base64
skip-encode [] h = unfold skip_crlf in refl
skip-encode (a ∷ []) (ha, h) =
    rw (skip_digit (a / 4) _ (omega arith), skip_digit (a % 4 * 16) _ (omega arith))
      (unfold skip_crlf in refl)
skip-encode (a ∷ b ∷ []) (ha, (hb, h)) =
    rw
      (
        skip_digit (a / 4) _ (omega arith),
        skip_digit (a % 4 * 16 + b / 16) _ (omega arith),
        skip_digit (b % 16 * 4) _ (omega arith),
      )
      (unfold skip_crlf in refl)
skip-encode (a ∷ b ∷ c ∷ s) (ha, (hb, (hc, h))) = rw (
  skip_digit (a / 4) _ (omega arith),
  skip_digit (a % 4 * 16 + b / 16) _ (omega arith),
  skip_digit (b % 16 * 4 + c / 64) _ (omega arith),
  skip_digit (c % 64) _ (omega arith),
  skip-encode s h,
)

-- Every byte string is read back from its encoding.
pub decode-encode : (s : Bytes) → All IsByte s → decode_base64 (encode_base64 s) ≡ some s
unfolding decode_base64
decode-encode s h = rw (skip-encode s h) (quanta-encode s h)
