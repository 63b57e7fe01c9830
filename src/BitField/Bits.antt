-- ===== src/BitField/Bits.antt =====
-- One bit of a byte after another was set, from a table over all bytes.
use ipk2024_projekt.Base.{
  ==_iff, Bool, arith, bit_or, false, if◌then◌else◌, ltb, ltb→lt, refl, suc, true, zero, ℕ, ◌%◌,
  ◌&&◌, ◌/◌, ◌<◌, ◌==◌, ◌^◌, ◌≡◌,
}

-- The test passes on each of the first `n` numbers.
passes : (ℕ → Bool) → ℕ → Bool
passes test zero = true
passes test (suc n) = if test n then passes test n else false

passes-at : (test : ℕ → Bool) (n i : ℕ) → passes test n ≡ true → i < n → test i ≡ true
unfolding passes
passes-at test zero i all bound = absurd (omega arith)
passes-at test (suc n) i all bound = ground (arith, passes-at test n i)

abbrev bit_of : ℕ → ℕ → ℕ
bit_of byte o = byte / 2 ^ o % 2

abbrev agrees : ℕ → ℕ → ℕ → Bool
agrees byte o p = bit_of (bit_or byte (2 ^ o)) p == (if o == p then 1 else bit_of byte p)

abbrev small : ℕ → ℕ → Bool
small byte o = ltb (bit_or byte (2 ^ o)) 256

table : passes (λ byte. passes (λ o. small byte o && passes (λ p. agrees byte o p) 8) 8) 256 ≡ true
unfolding passes
table = refl

and_left : (a b : Bool) → (a && b) ≡ true → a ≡ true
and_left a b h = ground arith

and_right : (a b : Bool) → (a && b) ≡ true → b ≡ true
and_right a b h = ground arith

module _ (byte o : ℕ) (hb : byte < 256) (ho : o < 8) where
  row : (small byte o && passes (λ p. agrees byte o p) 8) ≡ true
  row =
      passes-at (λ o. small byte o && passes (λ p. agrees byte o p) 8) 8 o
        (passes-at (λ byte. passes (λ o. small byte o && passes (λ p. agrees byte o p) 8) 8) 256
          byte table hb)
        ho

  -- A byte stays a byte when a bit is set.
  pub bit_or-lt : bit_or byte (2 ^ o) < 256
  bit_or-lt = ltb→lt _ 256 (and_left _ _ row)

  -- The bit that is set reads 1, and the others as before.
  pub bit_or-bit :
      (p : ℕ) → p < 8 → bit_or byte (2 ^ o) / 2 ^ p % 2 ≡ (if o == p then 1 else byte / 2 ^ p % 2)
  bit_or-bit p hp = (==_iff _ _).0 (passes-at (λ p. agrees byte o p) 8 p (and_right _ _ row) hp)
