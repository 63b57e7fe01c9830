-- ===== src/BitField/Insert.antt =====
-- What an insertion changes, and what it keeps.
use ipk2024_projekt.Base.{
  ==_iff, All, Bool-cases, List, [], ap, arith, bit_or, get_elem?, get_elem?-lt, if◌then◌else◌, inl,
  inr, length, refl, some, suc, true, zero, ℕ, ◌%◌, ◌/◌, ◌<◌, ◌==◌, ◌^◌, ◌∷◌, ◌≡◌,
}
use ipk2024_projekt.Bytes.{store}
use ipk2024_projekt.BitField.{IsBitField, bit_field_contains, bit_field_insert}
use ipk2024_projekt.BitField.Bits.{bit_or-bit, bit_or-lt}

-- The result of a store inside the block.
record Stored (i v : ℕ) (cells cells' : List ℕ) : Type 0 where
  is : store i v cells ≡ some cells'
  size : length cells' ≡ length cells
  cell : (j : ℕ) → get_elem? cells' j ≡ (if i == j then some v else get_elem? cells j)
  bytes : All (λ x. x < 256) cells → v < 256 → All (λ x. x < 256) cells'

store_lem :
    (i v : ℕ) (cells : List ℕ) → i < length cells → (cells' : List ℕ) × Stored i v cells cells'
store_lem i v [] h = absurd (omega arith)
store_lem zero v (x ∷ cells) h =
    (v ∷ cells, record { is = refl; size = refl; cell = cell_lem; bytes = λ b hv. (hv, b.1) })
  where
    cell_lem :
        (j : ℕ) → get_elem? (v ∷ cells) j ≡ (if 0 == j then some v else get_elem? (x ∷ cells) j)
    cell_lem zero = refl
    cell_lem (suc j) = ground arith
store_lem (suc i) v (x ∷ cells) h =
    let (cells', s) = store_lem i v cells (omega arith) in
    (
      x ∷ cells',
      record {
        is = rw s.is;
        size = ap suc s.size;
        cell = cell_lem cells' s;
        bytes = λ b hv. (b.0, s.bytes b.1 hv);
      },
    )
  where
    cell_lem :
        (cells' : List ℕ)
        → Stored i v cells cells'
        → (j : ℕ)
        → get_elem? (x ∷ cells') j ≡ (if suc i == j then some v else get_elem? (x ∷ cells) j)
    cell_lem cells' s zero = ground arith
    cell_lem cells' s (suc j) = ground (arith, s.cell j)

byte_lt :
    (cells : List ℕ) (i x : ℕ) → All (λ x. x < 256) cells → get_elem? cells i ≡ some x → x < 256
byte_lt [] i x b e = cc
byte_lt (y ∷ cells) zero x b e = ground arith
byte_lt (y ∷ cells) (suc i) x b e = byte_lt cells i x b.1 e

module _ (field field' : List ℕ) (msg_id byte : ℕ) (hb : byte < 256)
    (got : get_elem? field (msg_id / 8) ≡ some byte)
    (s : Stored (msg_id / 8) (bit_or byte (2 ^ (msg_id % 8))) field field') where
  stored-insert : bit_field_insert field msg_id ≡ some field'
  unfolding bit_field_insert
  stored-insert = rw (got, bit_field_insert) s.is

  stored-contains :
      (j : ℕ)
      → bit_field_contains field' j
        ≡ (if msg_id == j then some true else bit_field_contains field j)
  unfolding bit_field_contains
  stored-contains j =
      let bit = bit_or-bit byte (msg_id % 8) hb (omega arith) (j % 8) (omega arith) in
      elim (Bool-cases (msg_id / 8 == j / 8)) [
        | inl same ↦ ground (arith, s.cell (j / 8), bit, ap (get_elem? field) (same_byte same))
        | inr other ↦ ground (arith, s.cell (j / 8))
      ]
    where
      same_byte : (msg_id / 8 == j / 8) ≡ true → msg_id / 8 ≡ j / 8
      same_byte e = (==_iff _ _).0 e

-- On a block of the right size an insertion succeeds and keeps the block well formed; after it the
-- number inserted is contained, and every other number is contained as before.
pub bit_field_insert_lem :
    (field : List ℕ) (msg_id : ℕ)
    → IsBitField field
    → msg_id < 2 ^ 16
    → (field' : List ℕ) × (bit_field_insert field msg_id ≡ some field')
      × IsBitField field'
      × ((j : ℕ)
          → bit_field_contains field' j
            ≡ (if msg_id == j then some true else bit_field_contains field j))
bit_field_insert_lem field msg_id f h =
    let (byte, got) = get_elem?-lt field (msg_id / 8) (omega (arith, f.size)) in
    let hb = byte_lt field (msg_id / 8) byte f.bytes got in
    let v = bit_or byte (2 ^ (msg_id % 8)) in
    let (field', s) = store_lem (msg_id / 8) v field (omega (arith, f.size)) in
    (
      field',
      stored-insert field field' msg_id byte hb got s,
      record {
        size = omega (arith, s.size, f.size);
        bytes = s.bytes f.bytes (bit_or-lt byte (msg_id % 8) hb (omega arith));
      },
      stored-contains field field' msg_id byte hb got s,
    )
