-- ===== src/Bytes.antt =====
-- src/bytes.h and src/bytes.c: a slice of bytes inside an array of BYTES_SIZE cells.
-- The array is a list of BYTES_SIZE cells, and an access outside of it is a fault. A function that
-- changes `*bytes` returns the new value.
use ipk2024_projekt.Base.{
  List, Option, [], access, add64, drop, get_elem?, if◌then◌else◌, length, ltb, none, replicate,
  ret, some, sub64, suc, take, zero, ℕ, ◌++◌, ◌+◌, ◌-◌, ◌==◌, ◌>>=◌, ◌>>◌, ◌∷◌,
}
use ipk2024_projekt.Error.{Exec, set_error, stack_overflow}
pub mod View
pub mod Push
pub mod Trim
pub mod Size
pub mod Room

abbrev pub bytes_size : ℕ
bytes_size = 1501

pub record Bytes : Type 0 where
  pub cells : List ℕ
  pub len : ℕ
  pub offset : ℕ

abbrev pub bytes_new : Bytes
bytes_new = record { cells = replicate bytes_size 0; len = 0; offset = 0 }

abbrev pub bytes_clear : Bytes → Bytes
bytes_clear b = record { cells = replicate bytes_size 0; len = 0; offset = 0 }

-- What lies at the pointer that is returned, up to the end of the array.
abbrev pub bytes_get : Bytes → List ℕ
bytes_get b = drop b.offset b.cells

-- `a[i] = v`
abbrev pub store : ℕ → ℕ → List ℕ → Option (List ℕ)
store i v [] = none
store zero v (x ∷ xs) = some (v ∷ xs)
store (suc i) v (x ∷ xs) = elim (store i v xs) [ none ↦ none | some ys ↦ some (x ∷ ys) ]

-- The copy loop, from cell `i` on.
unfoldable pub copy_loop : ℕ → List ℕ → List ℕ → Option (List ℕ)
copy_loop i [] cells = some cells
copy_loop i (x ∷ arr) cells = elim (store i x cells) [
  | none ↦ none
  | some cells' ↦ copy_loop (i + 1) arr cells'
]

-- A size over the limit sets the error, and the loop still runs.
unfoldable pub bytes_push_arr : Bytes → List ℕ → Exec Bytes
bytes_push_arr b arr = do
  let new_len = add64 b.len (length arr)
  if ltb bytes_size new_len then set_error stack_overflow else ret tt
  cells' ← access (copy_loop (add64 b.offset b.len) arr b.cells)
  ret (record b { cells = cells'; len = new_len })

unfoldable pub bytes_push : Bytes → ℕ → Exec Bytes
bytes_push b byte = bytes_push_arr b (byte ∷ [])

-- The bytes of a C string in front of its NUL; a list without one is followed by it.
abbrev pub c_str : List ℕ → List ℕ
c_str [] = []
c_str (x ∷ xs) = if x == 0 then [] else x ∷ c_str xs

abbrev pub strlen : List ℕ → ℕ
strlen str = length (c_str str)

unfoldable pub bytes_push_c_str : Bytes → List ℕ → Exec Bytes
bytes_push_c_str b str = bytes_push_arr b (c_str str)

-- The first loop of `bytes_trim`; the number is `len + offset`, and `data[-1]` is a fault.
unfoldable pub trim_end : ℕ → ℕ → Bytes → ℕ → Option (Bytes × ℕ)
trim_end ch zero b count = none
trim_end ch (suc k) b count = elim (get_elem? b.cells k) [
  | none ↦ none
  | some x ↦
      let rest = trim_end ch k (record b { len = sub64 b.len 1 }) (count + 1) in
      if x == ch then rest else some (b, count)
]

-- The second loop; the number is that of the cells from `offset` on.
unfoldable pub trim_start : ℕ → ℕ → Bytes → ℕ → Option (Bytes × ℕ)
trim_start ch zero b count = none
trim_start ch (suc n) b count = elim (get_elem? b.cells b.offset) [
  | none ↦ none
  | some x ↦
      let b' = record b { offset = b.offset + 1; len = sub64 b.len 1 } in
      let rest = trim_start ch n b' (count + 1) in if x == ch then rest else some (b, count)
]

unfoldable pub bytes_trim : Bytes → ℕ → Exec (Bytes × ℕ)
bytes_trim b ch = do
  (b', count) ← access (trim_end ch (add64 b.len b.offset) b 0)
  cells' ← access (store (add64 b'.offset b'.len) 0 b'.cells)
  access (trim_start ch (bytes_size - b'.offset) (record b' { cells = cells' }) count)

unfoldable pub bytes_skip_first_n : Bytes → ℕ → Bytes
bytes_skip_first_n b n =
    let k = if ltb b.len n then b.len else n in
    record b { offset = add64 b.offset k; len = sub64 b.len k }

-- What `sendto` and `send` are given: `len` bytes from the start of the array.
abbrev pub transmitted : Bytes → List ℕ
transmitted b = take b.len b.cells

-- A new buffer after `recvfrom` or `recv` has stored what came in, BYTES_SIZE bytes at most.
abbrev pub received : List ℕ → Bytes
received packet =
    let kept = take bytes_size packet in
    record { cells = kept ++ replicate (bytes_size - length kept) 0; len = length kept; offset = 0 }
