-- ===== src/Bytes/Push.antt =====
-- What the `bytes_push` family writes, and what it does when the array is full.
use ipk2024_projekt.Base.{
  Bool-cases, List, [], add64, ap, append_assoc, arith, drop, drop-replicate, inl, inr, length,
  length-append, length-replicate, le→ltb, ltb, none, refl, replicate, some, suc, sym, take-append,
  take-ge, zero, ℕ, ◌++◌, ◌+◌, ◌-◌, ◌<◌, ◌∙◌, ◌∷◌, ◌≡◌, ◌≤◌, ◌⊎◌,
}
use ipk2024_projekt.Error.{Error}
use ipk2024_projekt.Bytes.{
  Bytes, bytes_push_arr, bytes_size, copy_loop, received, store, transmitted,
}
use ipk2024_projekt.Bytes.View.{Fills, view}

store-append :
    (front rest : List ℕ) (i x y : ℕ)
    → i ≡ length front
    → store i y (front ++ (x ∷ rest)) ≡ some (front ++ (y ∷ rest))
store-append [] rest i x y e = rw e
store-append (z ∷ front) rest i x y e = rw e (rw (store-append front rest (length front) x y refl))

-- A store behind `front`, in the room that `rest` leaves.
pub store-behind :
    (front rest : List ℕ) (i y : ℕ)
    → i ≡ length front
    → 0 < length rest
    → store i y (front ++ rest) ≡ some (front ++ (y ∷ drop 1 rest))
store-behind front [] i y e h = absurd (omega arith)
store-behind front (x ∷ rest) i y e h = store-append front rest i x y e

store_cases :
    (i y : ℕ) (cells : List ℕ)
    → (store i y cells ≡ none)
      ⊎ ((cells' : List ℕ) × (store i y cells ≡ some cells') × (length cells' ≡ length cells))
store_cases i y [] = inl refl
store_cases zero y (x ∷ cells) = inr (y ∷ cells, refl, refl)
store_cases (suc i) y (x ∷ cells) = elim (store_cases i y cells) [
  | inl e ↦ inl (rw e)
  | inr (cells', e, l) ↦ inr (x ∷ cells', rw e, ap suc l)
]

store-ge : (i y : ℕ) (cells : List ℕ) → length cells ≤ i → store i y cells ≡ none
store-ge i y [] h = refl
store-ge zero y (x ∷ cells) h = absurd (omega arith)
store-ge (suc i) y (x ∷ cells) h = rw (store-ge i y cells (omega arith))

pub copy_loop-append :
    (arr front back : List ℕ) (i : ℕ)
    → i ≡ length front
    → length arr ≤ length back
    → copy_loop i arr (front ++ back) ≡ some (front ++ (arr ++ drop (length arr) back))
unfolding copy_loop
copy_loop-append [] front back i e h = refl
copy_loop-append (x ∷ arr) front [] i e h = absurd (omega arith)
copy_loop-append (x ∷ arr) front (y ∷ back) i e h =
    rw (store-append front back i y x e, copy_loop)
      (ap (copy_loop (i + 1) arr) (sym (append_assoc front (x ∷ []) back))
        ∙ copy_loop-append arr (front ++ (x ∷ [])) back (i + 1)
            (omega (arith, length-append front (x ∷ []))) (omega arith)
        ∙ ap some (append_assoc front (x ∷ []) (arr ++ drop (length arr) back)))

copy_loop-ge :
    (x : ℕ) (arr cells : List ℕ) (i : ℕ)
    → length cells < i + length (x ∷ arr)
    → copy_loop i (x ∷ arr) cells ≡ none
unfolding copy_loop
copy_loop-ge x [] cells i h = rw (store-ge i x cells (omega arith), copy_loop)
copy_loop-ge x (y ∷ arr) cells i h = elim (store_cases i x cells) [
  | inl e ↦ rw (e, copy_loop)
  | inr (cells', e, l) ↦ rw (e, copy_loop) (copy_loop-ge y arr cells' (i + 1) (omega arith))
]

module _ (front slice back arr : List ℕ) (error : Error) where
  -- In the room behind the slice a push extends the slice, and sets no error.
  pub bytes_push_arr-view :
      Fills front slice back
      → length arr ≤ length back
      → bytes_push_arr (view front slice back) arr error
        ≡ some (view front (slice ++ arr) (drop (length arr) back), error)
  unfolding bytes_push_arr
  bytes_push_arr-view fills room =
      rw (le→ltb bytes_size _ small, cells_eq)
        (λ i. some (record { cells = regroup i; len = len_eq i; offset = length front }, error))
    where
      len_eq : add64 (length slice) (length arr) ≡ length (slice ++ arr)
      len_eq = rw length-append (omega arith)

      small : add64 (length slice) (length arr) ≤ bytes_size
      small = omega arith

      cells_eq :
          copy_loop (add64 (length front) (length slice)) arr (front ++ (slice ++ back))
          ≡ some ((front ++ slice) ++ (arr ++ drop (length arr) back))
      cells_eq =
          ap (copy_loop (add64 (length front) (length slice)) arr)
            (sym (append_assoc front slice back))
          ∙ copy_loop-append arr (front ++ slice) back _ (omega (arith, length-append front slice))
              room

      regroup :
          (front ++ slice) ++ (arr ++ drop (length arr) back)
          ≡ front ++ ((slice ++ arr) ++ drop (length arr) back)
      regroup = simp append_assoc

-- A push that does not fit behind the slice writes outside the array, whatever error is set first.
pub bytes_push_arr-fault :
    (b : Bytes) (x : ℕ) (arr : List ℕ) (error : Error)
    → length b.cells ≡ bytes_size
    → b.offset + b.len ≤ bytes_size
    → bytes_size < b.offset + b.len + length (x ∷ arr)
    → bytes_push_arr b (x ∷ arr) error ≡ none
unfolding bytes_push_arr
bytes_push_arr-fault b x arr error cells fits over =
    let loop = copy_loop-ge x arr b.cells (add64 b.offset b.len) (omega arith) in
    elim (Bool-cases (ltb bytes_size (add64 b.len (length (x ∷ arr))))) [
      | inl e ↦ rw (e, loop)
      | inr e ↦ rw (e, loop)
    ]

-- A buffer into which `written` was pushed since it was new.
abbrev pub holding : List ℕ → Bytes
holding written = view [] written (replicate (bytes_size - length written) 0)

pub bytes_push_arr-holding :
    (written arr : List ℕ) (error : Error)
    → length written + length arr ≤ bytes_size
    → bytes_push_arr (holding written) arr error ≡ some (holding (written ++ arr), error)
bytes_push_arr-holding written arr error h =
    bytes_push_arr-view [] written room arr error (omega (arith, room_len))
      (omega (arith, room_len))
    ∙ ap (λ back. some (view [] (written ++ arr) back, error))
        (drop-replicate (length arr) (bytes_size - length written) 0
          ∙ ap (λ n. replicate n 0) sizes)
  where
    room : List ℕ
    room = replicate (bytes_size - length written) 0

    room_len : length room ≡ bytes_size - length written
    room_len = length-replicate (bytes_size - length written) 0

    sizes : bytes_size - length written - length arr ≡ bytes_size - length (written ++ arr)
    sizes = omega (arith, length-append written arr)

-- A buffer that was only pushed to is sent whole, and is received as it was.
pub received-transmitted :
    (written : List ℕ)
    → length written ≤ bytes_size
    → received (transmitted (holding written)) ≡ holding written
received-transmitted written h =
    ap received (take-append written _)
    ∙ ap (λ (kept : List ℕ). holding kept) (take-ge bytes_size written h)
