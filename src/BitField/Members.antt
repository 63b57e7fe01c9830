-- ===== src/BitField/Members.antt =====
-- The block as a set of message numbers: any sequence of insertions.
use ipk2024_projekt.Base.{
  All, Bool, List, Option, [], arith, false, if◌then◌else◌, none, refl, some, true, ℕ, ◌<◌, ◌==◌,
  ◌^◌, ◌||◌, ◌∷◌, ◌≡◌,
}
use ipk2024_projekt.BitField.{IsBitField, bit_field_contains, bit_field_insert}
use ipk2024_projekt.BitField.Insert.{bit_field_insert_lem}

abbrev pub is_member : ℕ → List ℕ → Bool
is_member j [] = false
is_member j (x ∷ ids) = x == j || is_member j ids

-- The numbers inserted one after the other.
unfoldable pub insert_all : List ℕ → List ℕ → Option (List ℕ)
insert_all field [] = some field
insert_all field (x ∷ ids) = elim (bit_field_insert field x) [
  | none ↦ none
  | some field' ↦ insert_all field' ids
]

-- After any insertions of 16-bit numbers into a block of the right size, none of which faults,
-- exactly the numbers inserted are contained, and those that were contained before.
pub IsBitField-members :
    (field ids : List ℕ)
    → IsBitField field
    → All (λ x. x < 2 ^ 16) ids
    → (field' : List ℕ) × (insert_all field ids ≡ some field')
      × IsBitField field'
      × ((j : ℕ)
          → bit_field_contains field' j
            ≡ (if is_member j ids then some true else bit_field_contains field j))
unfolding insert_all
IsBitField-members field [] f h = (field, refl, f, λ j. refl)
IsBitField-members field (x ∷ ids) f h =
    let (field₁, is, f₁, one) = bit_field_insert_lem field x f h.0 in
    let (field₂, are, f₂, others) = IsBitField-members field₁ ids f₁ h.1 in
    (field₂, rw (is, insert_all) are, f₂, λ j. ground (arith, one j, others j))
