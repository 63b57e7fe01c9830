-- ===== src/Args/Number.antt =====
-- Numbers on the command line, against decimal numerals.
use ipk2024_projekt.Base.{
  Bool, List, [], arith, if◌then◌else◌, ltb, negsuc, pos, true, within, ℕ, ℤ, ◌&&◌, ◌*◌, ◌+◌, ◌-◌,
  ◌<◌, ◌^◌, ◌∷◌, ◌≡◌, ◌≤◌,
}
use ipk2024_projekt.Args.{parse_16bit_number, parse_digits}

-- The number that the digits denote, read on from `num`.
abbrev value_from : ℕ → List ℕ → ℕ
value_from num [] = num
value_from num (ch ∷ str) = value_from (num * 10 + (ch - b'0')) str

abbrev pub value : List ℕ → ℕ
value str = value_from 0 str

abbrev pub is_numeral : List ℕ → Bool
is_numeral [] = true
is_numeral (ch ∷ str) = within b'0' b'9' ch && is_numeral str

value_from-ge : (num : ℕ) (str : List ℕ) → num ≤ value_from num str
value_from-ge num [] = omega arith
value_from-ge num (ch ∷ str) = omega (arith, value_from-ge (num * 10 + (ch - b'0')) str)

abbrev number_of : ℕ → List ℕ → ℤ
number_of num str =
    if is_numeral str && ltb (value_from num str) (2 ^ 16)
    then pos (value_from num str)
    else negsuc 0

parse_digits_lem :
    (num : ℕ) (str : List ℕ) → num < 2 ^ 16 → parse_digits num str ≡ number_of num str
unfolding parse_digits
parse_digits_lem num [] h = ground arith
parse_digits_lem num (ch ∷ str) h = ground (
  arith,
  parse_digits_lem (num * 10 + (ch - b'0')) str,
  value_from-ge (num * 10 + (ch - b'0')) str,
)

-- parse_16bit_number returns the number of a text of digits alone if it is below 2 ^ 16, which is
-- 0 for the empty text, and -1 for any other text.
pub parse_16bit_number_lem :
    (str : List ℕ)
    → parse_16bit_number str
      ≡ (if is_numeral str && ltb (value str) (2 ^ 16) then pos (value str) else negsuc 0)
unfolding parse_16bit_number
parse_16bit_number_lem str = parse_digits_lem 0 str (omega arith)
