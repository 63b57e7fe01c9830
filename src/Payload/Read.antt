-- ===== src/Payload/Read.antt =====
-- `read` against a reference: the longest front of valid bytes.
use ipk2024_projekt.Base.{
  Bool, Bool-cases, List, [], ap, append_assoc, arith, get_elem?-behind, if◌then◌else◌, inl, inr,
  length, length-append, ltb, negsuc, none, pos, refl, some, suc, sym, take, zero, ℕ, ℤ, ◌++◌, ◌+◌,
  ◌∙◌, ◌∷◌, ◌≡◌, ◌≤◌,
}
use ipk2024_projekt.Error.{Error}
use ipk2024_projekt.Bytes.View.{bytes_get-view, view}
use ipk2024_projekt.Payload.{copied, read, read_loop}

-- The longest front of bytes that pass the validator.
abbrev pub valid_front : (ℕ → Bool) → List ℕ → List ℕ
valid_front validator [] = []
valid_front validator (x ∷ xs) = if validator x then x ∷ valid_front validator xs else []

-- What a read of `front` gives: -1 over the limit, and else its length, with the string in `dest`.
abbrev pub read_result_of : ℕ → List ℕ → List ℕ → ℤ × List ℕ
read_result_of limit dest front =
    if ltb limit (length front)
    then (negsuc 0, dest)
    else (pos (length front), copied (length front) dest front)

read_loop-valid_front :
    (validator : ℕ → Bool) (limit i count : ℕ) (slice front back : List ℕ)
    → i ≡ length front
    → count ≤ limit
    → read_loop validator limit (front ++ (slice ++ back)) (length slice) i count
      ≡ some (
          if ltb limit (count + length (valid_front validator slice))
          then none
          else some (count + length (valid_front validator slice)))
unfolding read_loop
read_loop-valid_front validator limit i count [] front back e h = ground arith
read_loop-valid_front validator limit i count (x ∷ slice) front back e h = ground (
  arith,
  get_elem?-behind front (x ∷ (slice ++ back)) i 0,
  append_assoc front (x ∷ []) (slice ++ back),
  length-append front (x ∷ []),
  read_loop-valid_front validator limit (i + 1) (count + 1) slice (front ++ (x ∷ [])) back,
)

take-valid_front :
    (validator : ℕ → Bool) (slice back : List ℕ)
    → take (length (valid_front validator slice)) (slice ++ back) ≡ valid_front validator slice
take-valid_front validator [] back = refl
take-valid_front validator (x ∷ slice) back = elim (Bool-cases (validator x)) [
  | inl e ↦ rw e (ap (◌∷◌ x) (take-valid_front validator slice back))
  | inr e ↦ rw e
]

copied-eq :
    (n : ℕ) (dest xs ys : List ℕ) → take n xs ≡ take n ys → copied n dest xs ≡ copied n dest ys
copied-eq zero dest xs ys e = refl
copied-eq (suc n) dest xs ys e = e

pub take-length {ℓ} : {A : Type ℓ} (xs : List A) → take (length xs) xs ≡ xs
take-length [] = refl
take-length (x ∷ xs) = ap (◌∷◌ x) (take-length xs)

module _ (validator : ℕ → Bool) (limit : ℕ) (dest front slice back : List ℕ) (error : Error) where
  -- `read` takes the longest front of valid bytes of the slice, and never reads outside of it.
  pub read_lem :
      read validator limit dest (view front slice back) error
      ≡ some (read_result_of limit dest (valid_front validator slice), error)
  unfolding read
  read_lem = ground (arith, bytes_get-view front slice back, found, same)
    where
      valid : List ℕ
      valid = valid_front validator slice

      found :
          read_loop validator limit (slice ++ back) (length slice) 0 0
          ≡ some (if ltb limit (0 + length valid) then none else some (0 + length valid))
      found = read_loop-valid_front validator limit 0 0 slice [] back refl (omega arith)

      same : copied (length valid) dest (slice ++ back) ≡ copied (length valid) dest valid
      same =
          copied-eq (length valid) dest (slice ++ back) valid
            (take-valid_front validator slice back ∙ sym (take-length valid))
