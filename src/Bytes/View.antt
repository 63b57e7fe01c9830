-- ===== src/Bytes/View.antt =====
-- A `Bytes` value by its parts: the cells in front of the slice, the slice, the cells behind it.
use ipk2024_projekt.Base.{
  Bool-cases, List, [], add64, ap, append_assoc, arith, drop, drop-append, false, inl, inr, length,
  length-append, length-drop, length-take, le→ltb, ltb, ltb→lt, min, refl, replicate, sub64, sym,
  take, take-append-drop, ℕ, ◌++◌, ◌+◌, ◌<◌, ◌^◌, ◌∙◌, ◌≡◌, ◌≤◌,
}
use ipk2024_projekt.Bytes.{Bytes, bytes_get, bytes_new, bytes_size, bytes_skip_first_n}

abbrev pub view : List ℕ → List ℕ → List ℕ → Bytes
view front slice back = record {
  cells = front ++ (slice ++ back);
  len = length slice;
  offset = length front;
}

-- The parts fill the array.
abbrev pub Fills : List ℕ → List ℕ → List ℕ → Type 0
Fills front slice back = length front + length slice + length back ≡ bytes_size

pub bytes_new-view : bytes_new ≡ view [] [] (replicate bytes_size 0)
bytes_new-view = refl

pub bytes_get-view : (front slice back : List ℕ) → bytes_get (view front slice back) ≡ slice ++ back
bytes_get-view front slice back = drop-append front (slice ++ back)

pub bytes_skip_first_n-view :
    (front a slice back : List ℕ)
    → length front + length a + length slice < 2 ^ 64
    → bytes_skip_first_n (view front (a ++ slice) back) (length a) ≡ view (front ++ a) slice back
unfolding bytes_skip_first_n
bytes_skip_first_n-view front a slice back h =
    rw (le→ltb (length (a ++ slice)) (length a) (omega (arith, length-append a slice)))
      (λ i. record { cells = cells_eq i; len = len_eq i; offset = offset_eq i })
  where
    cells_eq : front ++ ((a ++ slice) ++ back) ≡ (front ++ a) ++ (slice ++ back)
    cells_eq = simp append_assoc

    len_eq : sub64 (length (a ++ slice)) (length a) ≡ length slice
    len_eq = rw length-append (omega arith)

    offset_eq : add64 (length front) (length a) ≡ length (front ++ a)
    offset_eq = rw length-append (omega arith)

-- `bytes_skip_first_n` moves the front of the slice, at most all of it, in front of the slice.
pub bytes_skip_first_n_lem :
    (front slice back : List ℕ) (n : ℕ)
    → length front + length slice < 2 ^ 64
    → bytes_skip_first_n (view front slice back) n
      ≡ view (front ++ take n slice) (drop n slice) back
unfolding bytes_skip_first_n
bytes_skip_first_n_lem front slice back n h = elim (Bool-cases (ltb (length slice) n)) [
  | inl e ↦ rw e (λ i. record {
    cells = cells_eq i;
    len = len_all (ltb→lt (length slice) n e) i;
    offset = offset_all (ltb→lt (length slice) n e) i;
  })
  | inr e ↦ rw e (λ i. record { cells = cells_eq i; len = len_some e i; offset = offset_some e i })
]
  where
    cells_eq : front ++ (slice ++ back) ≡ (front ++ take n slice) ++ (drop n slice ++ back)
    cells_eq = ap (λ s. front ++ (s ++ back)) (sym (take-append-drop n slice)) ∙ simp append_assoc

    taken : length (front ++ take n slice) ≡ length front + min n (length slice)
    taken = omega (arith, length-append front (take n slice), length-take n slice)

    len_all : length slice < n → sub64 (length slice) (length slice) ≡ length (drop n slice)
    len_all l = omega (arith, length-drop n slice)

    offset_all :
        length slice < n → add64 (length front) (length slice) ≡ length (front ++ take n slice)
    offset_all l = omega (arith, taken)

    within_slice : ltb (length slice) n ≡ false → n ≤ length slice
    within_slice e = ground arith

    len_some : ltb (length slice) n ≡ false → sub64 (length slice) n ≡ length (drop n slice)
    len_some e = omega (arith, length-drop n slice, within_slice e)

    offset_some :
        ltb (length slice) n ≡ false → add64 (length front) n ≡ length (front ++ take n slice)
    offset_some e = omega (arith, taken, within_slice e)

-- A slice short enough for no size to wrap around.
abbrev pub IsSmall : List ℕ → List ℕ → Type 0
IsSmall front slice = length front + length slice < 2 ^ 64

pub IsSmall-move : (front a rest : List ℕ) → IsSmall front (a ++ rest) → IsSmall (front ++ a) rest
IsSmall-move front a rest h = omega (arith, length-append front a, length-append a rest)
