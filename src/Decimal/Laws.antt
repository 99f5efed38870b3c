-- ===== src/Decimal/Laws.antt =====
-- Printed numbers are digits that spell the number.
use go_pop.Prelude.{
  ℕ, zero, suc, ◌+◌, ◌-◌, ◌*◌, ◌/◌, ◌%◌, ◌≤◌, ◌<◌, Bool-cases, inl, inr, [], ◌∷◌, ltb, ◌≡◌, ◌≢◌, ap,
  ◌∙◌, arith, All,
}
use go_pop.Text.{Bytes}
use go_pop.Decimal.{digits, format}

abbrev pub IsDigit : ℕ → Type 0
IsDigit b = (b ≤ b'9') × (b'0' ≤ b)

-- The number that digits spell behind `n`.
unfoldable pub value_from : ℕ → Bytes → ℕ
value_from so_far [] = so_far
value_from so_far (b ∷ s) = value_from (b - b'0' + 10 * so_far) s

digits_lem :
    (f n : ℕ) (out : Bytes)
    → n < f
    → All IsDigit out
    → All IsDigit (digits f n out)
      × (value_from 0 (digits f n out) ≡ value_from n out)
      × (digits f n out ≢ [])
unfolding digits value_from
digits_lem zero n out h all = elim h [ ]
digits_lem (suc f) n out h all = elim (Bool-cases (ltb n 10)) [
  | inl e ↦
      let small : n < 10 = ground arith in
      let same : b'0' + n - b'0' + 10 * 0 ≡ n = omega arith in
      rw e ((omega arith, all), ap (λ v. value_from v out) same, cc)
  | inr e ↦
      let big : 10 ≤ n = ground arith in
      let (a, v, ne) =
        digits_lem f (n / 10) ((b'0' + n % 10) ∷ out) (omega arith) (omega arith, all) in
      let same : b'0' + n % 10 - b'0' + 10 * (n / 10) ≡ n = omega arith in
      rw e (a, v ∙ ap (λ v. value_from v out) same, ne)
]

pub format_lem : (n : ℕ) → All IsDigit (format n) × (value_from 0 (format n) ≡ n) × (format n ≢ [])
unfolding format value_from
format_lem n = digits_lem (suc n) n [] (omega arith) tt
