-- ===== src/Payload/Field.antt =====
-- A valid field as a C string, and what its reader takes of the bytes that it leads.
use ipk2024_projekt.Base.{
  All, Bool, List, [], ap, arith, false, length, le→ltb, pos, refl, some, true, ℕ, ◌++◌, ◌<◌, ◌∙◌,
  ◌∷◌, ◌≡◌, ◌≤◌,
}
use ipk2024_projekt.Error.{Error}
use ipk2024_projekt.Bytes.{c_str}
use ipk2024_projekt.Bytes.View.{view}
use ipk2024_projekt.Payload.{read}
use ipk2024_projekt.Payload.Read.{read_lem, read_result_of, take-length, valid_front}

-- A string of valid bytes holds no NUL, so it is copied whole.
pub c_str-All :
    (validator : ℕ → Bool) (s : List ℕ)
    → validator 0 ≡ false
    → All (λ x. validator x ≡ true) s
    → c_str s ≡ s
c_str-All validator [] h v = refl
c_str-All validator (x ∷ s) h (hx, hs) = ground (arith, c_str-All validator s h hs)

-- The reader of valid bytes stops at the first byte that it refuses.
pub valid_front-stop :
    (validator : ℕ → Bool) (s rest : List ℕ) (x : ℕ)
    → All (λ x. validator x ≡ true) s
    → validator x ≡ false
    → valid_front validator (s ++ (x ∷ rest)) ≡ s
valid_front-stop validator [] rest x v h = rw h
valid_front-stop validator (y ∷ s) rest x (hy, hs) h =
    rw hy (ap (◌∷◌ y) (valid_front-stop validator s rest x hs h))

-- `read` takes a field that ends in an invalid byte whole.
pub read-stop :
    (validator : ℕ → Bool) (limit : ℕ) (dest front s rest back : List ℕ) (x : ℕ) (error : Error)
    → All (λ x. validator x ≡ true) s
    → 0 < length s
    → length s ≤ limit
    → validator x ≡ false
    → read validator limit dest (view front (s ++ (x ∷ rest)) back) error
      ≡ some ((pos (length s), s), error)
read-stop validator limit dest front [] rest back x error v ne fits h = elim ne [ ]
read-stop validator limit dest front (y ∷ s) rest back x error v ne fits h =
    read_lem validator limit dest front (y ∷ s ++ (x ∷ rest)) back error
    ∙ ap (λ l. some (read_result_of limit dest l, error))
        (valid_front-stop validator (y ∷ s) rest x v h)
    ∙ rw (le→ltb limit (length (y ∷ s)) fits)
        (ap (λ l. some ((pos (length (y ∷ s)), y ∷ l), error)) (take-length s))

-- A slice of valid bytes alone is taken whole.
pub valid_front-All :
    (validator : ℕ → Bool) (s : List ℕ)
    → All (λ x. validator x ≡ true) s
    → valid_front validator s ≡ s
valid_front-All validator [] v = refl
valid_front-All validator (x ∷ s) (hx, hs) = rw hx (ap (◌∷◌ x) (valid_front-All validator s hs))

-- `read` takes a field that fills the slice whole.
pub read-whole :
    (validator : ℕ → Bool) (limit : ℕ) (dest front s back : List ℕ) (error : Error)
    → All (λ x. validator x ≡ true) s
    → 0 < length s
    → length s ≤ limit
    → read validator limit dest (view front s back) error ≡ some ((pos (length s), s), error)
read-whole validator limit dest front [] back error v ne fits = elim ne [ ]
read-whole validator limit dest front (y ∷ s) back error v ne fits =
    read_lem validator limit dest front (y ∷ s) back error
    ∙ ap (λ l. some (read_result_of limit dest l, error)) (valid_front-All validator (y ∷ s) v)
    ∙ rw (le→ltb limit (length (y ∷ s)) fits)
        (ap (λ l. some ((pos (length (y ∷ s)), y ∷ l), error)) (take-length s))
