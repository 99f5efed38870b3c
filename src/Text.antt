-- ===== src/Text.antt =====
-- Go strings as byte lists, and what the sources use of package strings: ASCII case mapping,
-- splitting at white space, trimming, joining, comparing.
pub mod Fields
use Prim.Native.Char.{code}
use Prim.Native.String.{String}
use go_pop.Prelude.{
  ℕ, ◌-◌, Bool, true, false, ◌&&◌, ◌||◌, List, [], ◌∷◌, ◌++◌, map, ◌≡◌, ◌↔◌, refl, arith, leb, ◌==◌,
  if◌then◌else◌, Option, none, some, not, is_none,
}

abbrev pub Bytes : Type 0
Bytes = List ℕ

-- The bytes of a literal; every literal of the sources is ASCII.
abbrev pub codes : String → Bytes
codes String.[] = []
codes (String.◌∷◌ c s) = code c ∷ codes s

-- `a == b` on strings, `bytes.Equal`.
unfoldable pub equal : Bytes → Bytes → Bool
equal [] [] = true
equal [] (d ∷ t) = false
equal (c ∷ s) [] = false
equal (c ∷ s) (d ∷ t) = equal s t && c == d

pub equal_iff : (s t : Bytes) → (equal s t ≡ true) ↔ (s ≡ t)
unfolding equal
equal_iff [] [] = ground arith
equal_iff [] (d ∷ t) = ground arith
equal_iff (c ∷ s) [] = ground arith
equal_iff (c ∷ s) (d ∷ t) = let later = equal_iff s t in ground arith

-- `unicode.ToUpper` on an ASCII byte.
unfoldable pub upper : ℕ → ℕ
upper c = if leb b'a' c && leb c b'z' then c - 32 else c

-- `strings.ToUpper`.
unfoldable pub to_upper : Bytes → Bytes
unfolding upper
to_upper = map upper

-- `strings.EqualFold`.
unfoldable pub equal_fold : Bytes → Bytes → Bool
unfolding to_upper equal
equal_fold a b = equal (to_upper a) (to_upper b)

-- `asciiSpace`: tab, newline, vertical tab, form feed, carriage return, space.
unfoldable pub is_space : ℕ → Bool
is_space c = leb 9 c && leb c 13 || c == 32

unfoldable pub trim_left : Bytes → Bytes
unfolding is_space
trim_left [] = []
trim_left (c ∷ s) = if is_space c then trim_left s else c ∷ s

unfoldable pub trim_right : Bytes → Bytes
unfolding is_space
trim_right [] = []
trim_right (c ∷ s) =
    let rest = trim_right s in
    elim rest [ [] ↦ if is_space c then [] else c ∷ [] | d ∷ t ↦ c ∷ d ∷ t ]

-- `strings.TrimSpace`.
unfoldable pub trim_space : Bytes → Bytes
unfolding trim_left trim_right
trim_space s = trim_right (trim_left s)

-- A field read so far is added unless it is empty.
unfoldable pub add_field : Bytes → List Bytes → List Bytes
add_field [] fs = fs
add_field (c ∷ cur) fs = (c ∷ cur) ∷ fs

unfoldable pub fields_from : Bytes → Bytes → List Bytes
unfolding is_space add_field
fields_from cur [] = add_field cur []
fields_from cur (c ∷ s) = elim (is_space c) [
  | true ↦ add_field cur (fields_from [] s)
  | false ↦ fields_from (cur ++ c ∷ []) s
]

-- `strings.Fields`.
unfoldable pub fields : Bytes → List Bytes
unfolding fields_from
fields = fields_from []

-- `strings.Join(parts, " ")`.
unfoldable pub join : List Bytes → Bytes
join [] = []
join (p ∷ []) = p
join (p ∷ q ∷ ps) = p ++ b' ' ∷ join (q ∷ ps)

-- `strings.CutPrefix`: what stands behind the prefix.
unfoldable pub cut_prefix : Bytes → Bytes → Option Bytes
cut_prefix [] s = some s
cut_prefix (p ∷ ps) [] = none
cut_prefix (p ∷ ps) (c ∷ s) = if c == p then cut_prefix ps s else none

-- `strings.HasPrefix(s, prefix)`.
unfoldable pub has_prefix : Bytes → Bytes → Bool
unfolding cut_prefix
has_prefix s prefix = not (is_none (cut_prefix prefix s))

-- `strings.TrimPrefix(s, prefix)`.
unfoldable pub trim_prefix : Bytes → Bytes → Bytes
unfolding cut_prefix
trim_prefix s prefix = elim (cut_prefix prefix s) [ none ↦ s | some rest ↦ rest ]

test_fields : fields (codes " a  bc\td ") ≡ codes "a" ∷ codes "bc" ∷ codes "d" ∷ []
unfolding fields
test_fields = refl

test_trim : trim_space (codes " \tPASS x \r") ≡ codes "PASS x"
unfolding trim_space
test_trim = refl

test_fold : equal_fold (codes "stls") (codes "STLS") ≡ true
unfolding equal_fold
test_fold = refl
