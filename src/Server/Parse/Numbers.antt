-- ===== src/Server/Parse/Numbers.antt =====
-- Which numbers `parseInt` accepts, and what it returns.
use go_pop.Prelude.{ℕ, ◌+◌, ◌-◌, ◌*◌, ◌≤◌, ◌↔◌, some, [], ◌∷◌, ◌≡◌, ◌≢◌, arith, All}
use go_pop.Text.{Bytes}
use go_pop.Decimal.{format}
use go_pop.Decimal.Laws.{IsDigit, value_from, format_lem}
use go_pop.Server.Parse.{max_val, parse_digits, parse_int}

-- `s` spells `r` behind the digits of `n`, in 31 bits.
abbrev Spells : ℕ → Bytes → ℕ → Type 0
Spells n s r = (value_from n s ≡ r) × All IsDigit s × (r ≤ max_val)

value_from-grows : (s : Bytes) (n : ℕ) → n ≤ value_from n s
unfolding value_from
value_from-grows [] n = omega arith
value_from-grows (b ∷ s) n = omega (arith, value_from-grows s (b - b'0' + 10 * n))

-- The loop, from a number in range.
parse_digits_lem :
    (r : ℕ) (s : Bytes) (n : ℕ) → n ≤ max_val → (parse_digits n s ≡ some r) ↔ Spells n s r
unfolding parse_digits value_from
parse_digits_lem r [] n within = ground arith
parse_digits_lem r (b ∷ s) n within =
    let next = b - b'0' + 10 * n in
    let bound = value_from-grows s next in let ih = parse_digits_lem r s next in ground arith

-- `parseInt` accepts exactly the texts of one or more digits that spell a number up to 2^31 - 1,
-- and returns that number: nothing wraps around.
pub parse_int_lem :
    (r : ℕ) (s : Bytes)
    → (parse_int s ≡ some r) ↔ ((s ≢ []) × (value_from 0 s ≡ r) × All IsDigit s × (r ≤ max_val))
unfolding parse_int
parse_int_lem r [] = ground arith
parse_int_lem r (b ∷ s) =
    let (sound, complete) = parse_digits_lem r (b ∷ s) 0 (omega arith) in
    ((λ h. let (v, d, m) = sound h in ((λ e. cc), v, d, m)), (λ (_, v, d, m). complete (v, d, m)))

-- Every message number up to 2^31 - 1, printed by `%d`, is read back.
pub parse_int-format : (n : ℕ) → n ≤ max_val → parse_int (format n) ≡ some n
parse_int-format n h =
    let (all, exact, ne) = format_lem n in (parse_int_lem n (format n)).1 (ne, exact, all, h)
