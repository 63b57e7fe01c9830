-- ===== src/Udp/Deserialize.antt =====
-- What the readers of `udp_deserialize` do on a well-formed slice.
use ipk2024_projekt.Base.{
  Bool, List, [], add64, ap, append_assoc, arith, false, get_elem?, get_elem?-append,
  get_elem?-behind, if◌then◌else◌, length, length-append, some, sym, ℕ, ◌%◌, ◌*◌, ◌++◌, ◌+◌, ◌<◌,
  ◌==◌, ◌>>=◌, ◌^◌, ◌∙◌, ◌∷◌, ◌≡◌,
}
use ipk2024_projekt.Error.{Error, Exec}
use ipk2024_projekt.Bytes.{Bytes, bytes_skip_first_n}
use ipk2024_projekt.Bytes.View.{bytes_get-view, bytes_skip_first_n-view, view}
use ipk2024_projekt.Payload.{Payload, read}
use ipk2024_projekt.Payload.Field.{read-stop}
use ipk2024_projekt.Frame.{IsField}
use ipk2024_projekt.Udp.{read_field, read_message_id, read_result}
use ipk2024_projekt.Udp.Wire.{ended}

-- Slices short enough for no size to wrap around.
abbrev pub IsSmall : List ℕ → List ℕ → Type 0
IsSmall front slice = length front + length slice < 2 ^ 64

pub skip_one :
    (front slice back : List ℕ) (x : ℕ)
    → IsSmall front (x ∷ slice)
    → bytes_skip_first_n (view front (x ∷ slice) back) 1 ≡ view (front ++ (x ∷ [])) slice back
skip_one front slice back x h = bytes_skip_first_n-view front (x ∷ []) slice back (omega arith)

pub skip_two :
    (front slice back : List ℕ) (x y : ℕ)
    → IsSmall front (x ∷ y ∷ slice)
    → bytes_skip_first_n (view front (x ∷ y ∷ slice) back) 2
      ≡ view (front ++ (x ∷ y ∷ [])) slice back
skip_two front slice back x y h =
    bytes_skip_first_n-view front (x ∷ y ∷ []) slice back (omega arith)

pub read_message_id-view :
    (front slice back : List ℕ) (x y output : ℕ) (error : Error)
    → read_message_id (view front (x ∷ y ∷ slice) back) output error
      ≡ some ((2, x * 256 + y), error)
unfolding read_message_id
read_message_id-view front slice back x y output error =
    ground (arith, bytes_get-view front (x ∷ y ∷ slice) back)

pub read_result-view :
    (front slice back : List ℕ) (r output : Bool) (error : Error)
    → read_result (view front ((if r then 1 else 0) ∷ slice) back) output error
      ≡ some ((1, r), error)
unfolding read_result
read_result-view front slice back r output error =
    ground (arith, bytes_get-view front ((if r then 1 else 0) ∷ slice) back)

module _ (front s rest back : List ℕ) (small : IsSmall front (ended s rest)) where
  byte_behind :
      get_elem? (front ++ (ended s rest ++ back)) (add64 (length front) (length s % 2 ^ 64))
      ≡ some 0
  byte_behind =
      ap (get_elem? (front ++ (ended s rest ++ back))) index
      ∙ get_elem?-append front (ended s rest ++ back) (length s)
      ∙ ap (λ l. get_elem? l (length s)) (append_assoc s (0 ∷ rest) back)
      ∙ get_elem?-behind s (0 ∷ (rest ++ back)) (length s) 0 (omega arith)
    where
      index : add64 (length front) (length s % 2 ^ 64) ≡ length front + length s
      index = omega (arith, length-append s (0 ∷ rest))

  skip_field :
      bytes_skip_first_n (view front (ended s rest) back) (add64 (length s % 2 ^ 64) 1)
      ≡ view (front ++ ended s []) rest back
  skip_field =
      ap (bytes_skip_first_n (view front (ended s rest) back)) count
      ∙ ap (λ l. bytes_skip_first_n (view front l back) (length (ended s [])))
          (sym (append_assoc s (0 ∷ []) rest))
      ∙ bytes_skip_first_n-view front (ended s []) rest back (omega (arith, one, whole))
    where
      one : length (ended s []) ≡ length s + 1
      one = omega (arith, length-append s (0 ∷ []))

      whole : length (ended s rest) ≡ length s + 1 + length rest
      whole = omega (arith, length-append s (0 ∷ rest))

      count : add64 (length s % 2 ^ 64) 1 ≡ length (ended s [])
      count = omega (arith, one, whole)

-- READ on a field that ends in its NUL: the field is stored, and the slice goes on behind the NUL.
pub read_field-view :
    (validator : ℕ → Bool) (limit : ℕ) (dest front s rest back : List ℕ) (put : List ℕ → Payload)
    (next : Payload → Bytes → Exec Payload) (error : Error)
    → validator 0 ≡ false
    → IsField validator limit s
    → IsSmall front (ended s rest)
    → read_field (read validator limit) dest (view front (ended s rest) back) put next error
      ≡ next (put s) (view (front ++ ended s []) rest back) error
unfolding read_field
read_field-view validator limit dest front s rest back put next error h v small = rw (
  read-stop validator limit dest front s rest back 0 error v.valid v.some_byte v.fits h,
  ◌>>=◌,
  nonzero,
  byte_behind front s rest back small,
  skip_field front s rest back small,
)
  where
    nonzero : (length s % 2 ^ 64 == 0) ≡ false
    nonzero =
        let bound : 0 < length s % 2 ^ 64 =
          omega (arith, v.some_byte, length-append s (0 ∷ rest)) in
        ground arith
