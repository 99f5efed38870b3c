-- ===== src/Base64/Digits.antt =====
-- The bytes of base64 text.
use go_pop.Prelude.{ℕ, ◌+◌, ◌*◌, ◌/◌, ◌%◌, ◌<◌, false, [], ◌∷◌, ◌≡◌, ◌≢◌, refl, arith, All}
use go_pop.Text.{Bytes, is_space, equal, codes}
use go_pop.Text.Fields.{Solid}
use go_pop.Base64.{digit, encode_base64}
use go_pop.Base64.RoundTrip.{IsByte}

digit-solid : (v : ℕ) → v < 64 → is_space (digit v) ≡ false
unfolding digit is_space
digit-solid v h = ground arith

pub encode_base64-Solid : (s : Bytes) → All IsByte s → Solid (encode_base64 s)
unfolding encode_base64
encode_base64-Solid [] h = tt
encode_base64-Solid (a ∷ []) (ha, _) = (
  digit-solid (a / 4) (omega arith),
  (
    digit-solid (a % 4 * 16) (omega arith),
    (unfold is_space in refl, (unfold is_space in refl, tt)),
  ),
)
encode_base64-Solid (a ∷ b ∷ []) (ha, (hb, _)) = (
  digit-solid (a / 4) (omega arith),
  (
    digit-solid (a % 4 * 16 + b / 16) (omega arith),
    (digit-solid (b % 16 * 4) (omega arith), (unfold is_space in refl, tt)),
  ),
)
encode_base64-Solid (a ∷ b ∷ c ∷ s) (ha, (hb, (hc, h))) = (
  digit-solid (a / 4) (omega arith),
  (
    digit-solid (a % 4 * 16 + b / 16) (omega arith),
    (
      digit-solid (b % 16 * 4 + c / 64) (omega arith),
      (digit-solid (c % 64) (omega arith), encode_base64-Solid s h),
    ),
  ),
)

-- A text that encodes something is not the lone "*" that aborts an authentication.
pub encode_base64-long :
    (s : Bytes) → s ≢ [] → (encode_base64 s ≢ []) × (equal (encode_base64 s) (codes "*") ≡ false)
unfolding encode_base64 equal
encode_base64-long [] ne = absurd (ne refl)
encode_base64-long (a ∷ []) ne = ((λ e. cc), refl)
encode_base64-long (a ∷ b ∷ []) ne = ((λ e. cc), refl)
encode_base64-long (a ∷ b ∷ c ∷ s) ne = ((λ e. cc), refl)
