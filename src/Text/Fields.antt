-- ===== src/Text/Fields.antt =====
-- `strings.Fields` and `strings.TrimSpace` on words.
use go_pop.Prelude.{
  ℕ, false, List, [], ◌∷◌, ◌++◌, ◌≡◌, ◌≢◌, refl, ap, sym, ◌∙◌, All, append_assoc, append-nil,
}
use go_pop.Text.{Bytes, is_space, add_field, fields_from, fields, trim_left, trim_right, trim_space}

-- No white space.
abbrev pub Solid : Bytes → Type 0
Solid = All (λ c. is_space c ≡ false)

fields_from-append :
    (w s cur : Bytes) → Solid w → fields_from cur (w ++ s) ≡ fields_from (cur ++ w) s
unfolding fields_from
fields_from-append [] s cur h = ap (λ c. fields_from c s) (sym (append-nil cur))
fields_from-append (c ∷ w) s cur (hc, h) =
    rw (hc, fields_from)
      (fields_from-append w s (cur ++ c ∷ []) h
        ∙ ap (λ u. fields_from u s) (append_assoc cur (c ∷ []) w))

add_field_lem : (w : Bytes) (fs : List Bytes) → w ≢ [] → add_field w fs ≡ w ∷ fs
unfolding add_field
add_field_lem [] fs h = absurd (h refl)
add_field_lem (c ∷ w) fs h = refl

pub fields-word : (w : Bytes) → Solid w → w ≢ [] → fields w ≡ w ∷ []
unfolding fields
fields-word w h ne =
    ap (fields_from []) (sym (append-nil w))
    ∙ fields_from-append w [] [] h
    ∙ (unfold fields_from in add_field_lem w [] ne)

-- Two words with a blank between.
pub fields-two :
    (a b : Bytes) → Solid a → a ≢ [] → Solid b → b ≢ [] → fields (a ++ b' ' ∷ b) ≡ a ∷ b ∷ []
unfolding fields
fields-two a b ha na hb nb =
    fields_from-append a (b' ' ∷ b) [] ha
    ∙ (unfold fields_from is_space in add_field_lem a (fields_from [] b) na)
    ∙ ap (λ fs. a ∷ fs) (unfold fields in fields-word b hb nb)

trim_right-Solid : (w : Bytes) → Solid w → trim_right w ≡ w
unfolding trim_right
trim_right-Solid [] h = refl
trim_right-Solid (c ∷ []) (hc, h) = rw (hc, trim_right) refl
trim_right-Solid (c ∷ d ∷ w) (hc, h) = rw (trim_right-Solid (d ∷ w) h, trim_right) refl

trim_right-append :
    (a : Bytes) (c : ℕ) (w : Bytes) → Solid (c ∷ w) → trim_right (a ++ c ∷ w) ≡ a ++ c ∷ w
unfolding trim_right
trim_right-append [] c w h = trim_right-Solid (c ∷ w) h
trim_right-append (x ∷ []) c w h = rw (trim_right-append [] c w h, trim_right) refl
trim_right-append (x ∷ y ∷ a) c w h = rw (trim_right-append (y ∷ a) c w h, trim_right) refl

-- A text between two bytes that are no white space.
pub trim_space-kept :
    (x : ℕ) (a : Bytes) (w : Bytes)
    → is_space x ≡ false
    → Solid w
    → w ≢ []
    → trim_space (x ∷ (a ++ w)) ≡ x ∷ (a ++ w)
unfolding trim_space trim_left
trim_space-kept x a [] hx h ne = absurd (ne refl)
trim_space-kept x a (c ∷ w) hx h ne = rw hx (trim_right-append (x ∷ a) c w h)

-- A word in front of other text.
pub fields-word-rest : (w s : Bytes) → Solid w → w ≢ [] → fields (w ++ b' ' ∷ s) ≡ w ∷ fields s
unfolding fields
fields-word-rest w s h ne =
    fields_from-append w (b' ' ∷ s) [] h
    ∙ (unfold fields_from is_space in add_field_lem w (fields_from [] s) ne)

-- Two words, with a blank in front of them.
pub trim_space-two :
    (a b : Bytes)
    → Solid a
    → a ≢ []
    → Solid b
    → b ≢ []
    → trim_space (b' ' ∷ (a ++ b' ' ∷ b)) ≡ a ++ b' ' ∷ b
unfolding trim_space trim_left is_space
trim_space-two [] b ha na hb nb = absurd (na refl)
trim_space-two (x ∷ a) b (hx, ha) na hb nb =
    ap trim_space (ap (◌∷◌ x) (sym (append_assoc a (b' ' ∷ []) b)))
    ∙ trim_space-kept x (a ++ b' ' ∷ []) b hx hb nb
    ∙ ap (◌∷◌ x) (append_assoc a (b' ' ∷ []) b)
