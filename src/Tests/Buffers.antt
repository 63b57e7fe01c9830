-- ===== src/Tests/Buffers.antt =====
-- Buffers, bit fields and fields.
use ipk2024_projekt.Base.{
  List, [], arith, codes, drop, if◌then◌else◌, length-append, length-replicate, none, pos, refl,
  replicate, some, true, ℕ, ◌++◌, ◌+◌, ◌∷◌, ◌≡◌,
}
use ipk2024_projekt.Error.{no_error}
use ipk2024_projekt.Bytes.{bytes_push_arr, bytes_trim}
use ipk2024_projekt.Bytes.View.{view}
use ipk2024_projekt.Bytes.Push.{bytes_push_arr-fault}
use ipk2024_projekt.Bytes.Trim.{bytes_trim-fault, bytes_trim_lem}
use ipk2024_projekt.BitField.{IsBitField, bit_field_contains}
use ipk2024_projekt.BitField.Members.{IsBitField-members, insert_all, is_member}
use ipk2024_projekt.Payload.{is_valid_id, read, read_loop}
use ipk2024_projekt.Payload.Read.{read_lem, read_result_of, valid_front}
use ipk2024_projekt.Tests.Sample.{bob, empty_field, empty_field-IsBitField, hello}

abbrev zeros : ℕ → List ℕ
zeros n = replicate n 0

bytes_push_arr-fault_example :
    bytes_push_arr (record { cells = zeros 1501; len = 1500; offset = 0 }) (1 ∷ 2 ∷ []) no_error
    ≡ none
bytes_push_arr-fault_example =
    bytes_push_arr-fault (record { cells = zeros 1501; len = 1500; offset = 0 }) 1 (2 ∷ []) no_error
      (length-replicate {A = ℕ} 1501 0) (omega arith) (omega arith)

bytes_trim_lem_example :
    bytes_trim (view [] (replicate 2 b' ' ++ (bob ++ replicate 1 b' ')) (zeros 1495)) b' ' no_error
    ≡ some (
      (view (replicate 2 b' ') bob (0 ∷ drop 1 (replicate 1 b' ' ++ zeros 1495)), 2 + 1),
      no_error,
    )
bytes_trim_lem_example =
    bytes_trim_lem b' ' 2 1 b'B' b'b' bob (codes "Bo") (codes "ob") (zeros 1495) no_error refl refl
      (omega arith) (omega arith)
      (omega (
        arith,
        length-append (replicate 2 b' ') (bob ++ replicate 1 b' '),
        length-append bob (replicate 1 b' '),
        length-replicate {A = ℕ} 2 b' ',
        length-replicate {A = ℕ} 1 b' ',
        length-replicate {A = ℕ} 1495 0,
      ))
      (omega (arith, length-replicate {A = ℕ} 1495 0))

bytes_trim-fault_example : bytes_trim (view [] (replicate 3 b' ') (zeros 1498)) b' ' no_error ≡ none
bytes_trim-fault_example = bytes_trim-fault b' ' 3 (zeros 1498) no_error (omega arith)

IsBitField-members_example :
    (field : List ℕ) × (insert_all empty_field (3 ∷ 65535 ∷ []) ≡ some field)
    × IsBitField field
    × ((j : ℕ)
        → bit_field_contains field j
          ≡ (if is_member j (3 ∷ 65535 ∷ []) then some true else bit_field_contains empty_field j))
IsBitField-members_example =
    IsBitField-members empty_field (3 ∷ 65535 ∷ []) empty_field-IsBitField (omega arith)

read_lem_example :
    read is_valid_id 20 [] (view [] hello (zeros 1489)) no_error
    ≡ some (read_result_of 20 [] (valid_front is_valid_id hello), no_error)
read_lem_example = read_lem is_valid_id 20 [] [] hello (zeros 1489) no_error

-- The identifier ends at the comma.
read-hello :
    read is_valid_id 20 [] (view [] hello (zeros 1489)) no_error
    ≡ some ((pos 5, codes "hello"), no_error)
unfolding is_valid_id read read_loop replicate
read-hello = refl
