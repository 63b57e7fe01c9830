-- ===== src/Bytes/Size.antt =====
-- No operation changes the size of the array.
use ipk2024_projekt.Base.{
  List, Option, Yields, Yields-bind, Yields-ret, Yields-then, [], access, add64, ap, arith, length,
  length-replicate, length-take, none, refl, some, suc, zero, ℕ, ◌+◌, ◌∷◌, ◌≡◌, ◌≤◌,
}
use ipk2024_projekt.Error.{Error}
use ipk2024_projekt.Bytes.{
  Bytes, bytes_new, bytes_push, bytes_push_arr, bytes_push_c_str, bytes_size, c_str, copy_loop,
  store, transmitted,
}

pub record HasSize (b : Bytes) : Type 0 where
  pub size : length b.cells ≡ bytes_size

store-length :
    (i v : ℕ) (cells cells' : List ℕ) → store i v cells ≡ some cells' → length cells' ≡ length cells
store-length i v [] cells' e = cc
store-length zero v (x ∷ cells) cells' e = ground (arith, e)
store-length (suc i) v (x ∷ cells) cells' e =
    go (λ ys. store-length i v cells ys) (store i v cells) refl e
  where
    go :
        (rec : (ys : List ℕ) → store i v cells ≡ some ys → length ys ≡ length cells)
        (r : Option (List ℕ))
        → store i v cells ≡ r
        → (elim r as (λ _. Option (List ℕ)) [ none ↦ none | some ys ↦ some (x ∷ ys) ]) ≡ some cells'
        → length cells' ≡ suc (length cells)
    go rec none h q = cc
    go rec (some ys) h q = ground (arith, rec ys h, q)

copy_loop-length :
    (i : ℕ) (arr cells cells' : List ℕ)
    → copy_loop i arr cells ≡ some cells'
    → length cells' ≡ length cells
unfolding copy_loop
copy_loop-length i [] cells cells' e = ground (arith, e)
copy_loop-length i (x ∷ arr) cells cells' e =
    go (λ ys. copy_loop-length (i + 1) arr ys cells') (store i x cells) refl e
  where
    go :
        (rec : (ys : List ℕ) → copy_loop (i + 1) arr ys ≡ some cells' → length cells' ≡ length ys)
        (r : Option (List ℕ))
        → store i x cells ≡ r
        → (elim r as (λ _. Option (List ℕ)) [ none ↦ none | some ys ↦ copy_loop (i + 1) arr ys ])
          ≡ some cells'
        → length cells' ≡ length cells
    go rec none h q = cc
    go rec (some ys) h q = omega (arith, rec ys q, store-length i x cells ys h)

pub bytes_new-HasSize : HasSize bytes_new
bytes_new-HasSize = record { size = length-replicate {A = ℕ} bytes_size 0 }

module _ (b : Bytes) (size : HasSize b) where
  pub bytes_push_arr-HasSize : (arr : List ℕ) → Yields HasSize (bytes_push_arr b arr)
  unfolding bytes_push_arr
  bytes_push_arr-HasSize arr = Yields-then _ _ (
      Yields-bind {R = λ cells. length cells ≡ bytes_size} _ _
        (record {
          at =
              λ s t cells e. copied (copy_loop (add64 b.offset b.len) arr b.cells) s t cells refl e;
        })
        (λ cells h. Yields-ret _ (record { size = h })))
    where
      copied :
          (r : Option (List ℕ)) (s t : Error) (cells : List ℕ)
          → copy_loop (add64 b.offset b.len) arr b.cells ≡ r
          → access r s ≡ some (cells, t)
          → length cells ≡ bytes_size
      copied none s t cells h e = cc
      copied (some ys) s t cells h e = omega (
        arith,
        copy_loop-length (add64 b.offset b.len) arr b.cells ys h,
        size.size,
        ap (length {A = ℕ}) (let q : ys ≡ cells = ground (arith, e) in q),
      )

  pub bytes_push-HasSize : (byte : ℕ) → Yields HasSize (bytes_push b byte)
  unfolding bytes_push
  bytes_push-HasSize byte = bytes_push_arr-HasSize (byte ∷ [])

  pub bytes_push_c_str-HasSize : (str : List ℕ) → Yields HasSize (bytes_push_c_str b str)
  unfolding bytes_push_c_str
  bytes_push_c_str-HasSize str = bytes_push_arr-HasSize (c_str str)

-- What is sent of such an array fits it.
pub transmitted-le : (b : Bytes) → HasSize b → length (transmitted b) ≤ bytes_size
transmitted-le b h = omega (arith, length-take b.len b.cells, h.size)
