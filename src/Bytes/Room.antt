-- ===== src/Bytes/Room.antt =====
-- Pushes into a buffer that has room for them.
use ipk2024_projekt.Base.{
  Any, List, Returns, Returns-ret, [], ap, arith, length, length-append, refl, ret, ℕ, ◌++◌, ◌+◌,
  ◌∙◌, ◌∷◌, ◌≡◌, ◌≤◌,
}
use ipk2024_projekt.Error.{Error, Exec, get_error, set_error}
use ipk2024_projekt.Bytes.{
  Bytes, bytes_new, bytes_push, bytes_push_arr, bytes_push_c_str, bytes_size, c_str, strlen,
}
use ipk2024_projekt.Bytes.Push.{bytes_push_arr-holding, holding}

-- The buffer was only pushed to since it was new, and takes `k` bytes more.
pub record HasRoom (k : ℕ) (b : Bytes) : Type 0 where
  pub written : List ℕ
  pub pushed : b ≡ holding written
  pub small : length written + k ≤ bytes_size

pub bytes_new-HasRoom : HasRoom bytes_size bytes_new
bytes_new-HasRoom = record { written = []; pushed = refl; small = omega arith }

pub HasRoom-le : {j k : ℕ} (b : Bytes) → j ≤ k → HasRoom k b → HasRoom j b
HasRoom-le b h r = record { written = r.written; pushed = r.pushed; small = omega (arith, r.small) }

pub length-c_str : (str : List ℕ) → strlen str ≤ length str
length-c_str [] = omega arith
length-c_str (x ∷ str) = ground (arith, length-c_str str)

module _ (k : ℕ) (b : Bytes) where
  pub bytes_push_arr-HasRoom :
      (arr : List ℕ) (n : ℕ)
      → length arr ≤ n
      → HasRoom (n + k) b
      → Returns Any (HasRoom k) (bytes_push_arr b arr)
  bytes_push_arr-HasRoom arr n fits r = record {
    at = λ error h. (
      holding (r.written ++ arr),
      error,
      ap (λ c. bytes_push_arr c arr error) r.pushed
          ∙ bytes_push_arr-holding r.written arr error (omega (arith, r.small)),
      tt,
      record {
        written = r.written ++ arr;
        pushed = refl;
        small = omega (arith, r.small, length-append r.written arr);
      },
    );
  }

  pub bytes_push-HasRoom :
      (byte : ℕ) → HasRoom (1 + k) b → Returns Any (HasRoom k) (bytes_push b byte)
  unfolding bytes_push
  bytes_push-HasRoom byte r = bytes_push_arr-HasRoom (byte ∷ []) 1 (omega arith) r

  pub bytes_push_c_str-HasRoom :
      (str : List ℕ) (n : ℕ)
      → length str ≤ n
      → HasRoom (n + k) b
      → Returns Any (HasRoom k) (bytes_push_c_str b str)
  unfolding bytes_push_c_str
  bytes_push_c_str-HasRoom str n fits r =
      bytes_push_arr-HasRoom (c_str str) n (omega (arith, length-c_str str)) r

-- Code that returns where its buffer has room for `k` bytes.
abbrev pub Fitting : ℕ → (Bytes → Exec Bytes) → Type 0
Fitting k next = (b : Bytes) → HasRoom k b → Returns Any (HasRoom 0) (next b)

pub ret-Fitting : (k : ℕ) → Fitting k ret
ret-Fitting k b r = Returns-ret b (HasRoom-le b (omega arith) r)

pub Returns-get_error : Returns Any Any get_error
Returns-get_error = record { at = λ e h. (e, e, refl, tt, tt) }

pub Returns-set_error : (e : Error) → Returns Any Any (set_error e)
Returns-set_error e = record { at = λ s h. (tt, e, refl, tt, tt) }
