-- ===== src/BitField.antt =====
-- src/bit_field.h and src/bit_field.c: a set of message numbers, one bit for each.
-- The block that `malloc` gives is a list of its bytes, and an access outside of it is a fault.
use ipk2024_projekt.Base.{
  All, Bool, List, Option, bit_or, get_elem?, length, none, ret, some, ℕ, ◌%◌, ◌/◌, ◌<◌, ◌==◌,
  ◌>>=◌, ◌>>◌, ◌^◌, ◌≡◌,
}
use ipk2024_projekt.Error.{Exec, out_of_memory, set_error}
use ipk2024_projekt.Bytes.{store}
pub mod Bits
pub mod Insert
pub mod Members

-- 1 << (16 - 3)
abbrev pub bit_field_size : ℕ
bit_field_size = 8192

-- `malloc` gives a block with whatever it held before, or none.
unfoldable pub bit_field_new : Option (List ℕ) → Exec (Option (List ℕ))
bit_field_new none = do set_error out_of_memory; ret none
bit_field_new (some block) = ret (some block)

unfoldable pub bit_field_insert : List ℕ → ℕ → Option (List ℕ)
bit_field_insert field msg_id = elim (get_elem? field (msg_id / 8)) [
  | none ↦ none
  | some byte ↦ store (msg_id / 8) (bit_or byte (2 ^ (msg_id % 8))) field
]

unfoldable pub bit_field_contains : List ℕ → ℕ → Option Bool
bit_field_contains field msg_id = elim (get_elem? field (msg_id / 8)) [
  | none ↦ none
  | some byte ↦ some (byte / 2 ^ (msg_id % 8) % 2 == 1)
]

-- A block of the size that is asked for, of bytes.
pub record IsBitField (field : List ℕ) : Type 0 where
  pub size : length field ≡ bit_field_size
  pub bytes : All (λ x. x < 256) field
