-- ===== src/Base/Machine.antt =====
-- A run of C code over a state of globals, and the machine's `size_t` and `ssize_t`.
use Prim.Native.Nat.{ℕ, ◌+◌, ◌-◌, ◌%◌, ◌^◌}
use mathlib.Core.Option.{Option, none, some}

-- `none` is a fault: an access outside an array, whose effect C does not define.
abbrev pub M : Type 0 → Type 0 → Type 0
M S A = S → Option (A × S)

infixl 5 ◌>>=◌ ◌>>◌
abbrev pub ◌>>=◌ : {S A B : Type 0} → M S A → (A → M S B) → M S B
◌>>=◌ m f s = elim (m s) [ none ↦ none | some (a, t) ↦ f a t ]

abbrev pub ◌>>◌ : {S B : Type 0} → M S (Unit {0}) → M S B → M S B
◌>>◌ m k s = elim (m s) [ none ↦ none | some (a, t) ↦ k t ]

abbrev pub ret : {S A : Type 0} → A → M S A
ret a s = some (a, s)

-- A value that an access yields, or the fault of the access.
abbrev pub access : {S A : Type 0} → Option A → M S A
access none s = none
access (some a) s = some (a, s)

-- The signed results of the program, -1 among them; `negsuc n` is -(n + 1).
pub data ℤ : Type 0 where
  pos : ℕ → ℤ
  negsuc : ℕ → ℤ

-- Conversion of a small signed value to the 64-bit `size_t`.
abbrev pub to_size_t : ℤ → ℕ
to_size_t (pos n) = n % 2 ^ 64
to_size_t (negsuc n) = (2 ^ 64 - 1 - n) % 2 ^ 64

-- `a + b` and `a - b` on `size_t`.
abbrev pub add64 : ℕ → ℕ → ℕ
add64 a b = (a + b) % 2 ^ 64

abbrev pub sub64 : ℕ → ℕ → ℕ
sub64 a b = (a + 2 ^ 64 - b) % 2 ^ 64
