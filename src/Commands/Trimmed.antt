-- ===== src/Commands/Trimmed.antt =====
-- `command_parse` up to the point where the blanks at the ends are gone.
use ipk2024_projekt.Base.{
  All, All-append, Bool, List, [], ap, arith, drop, false, length, length-append, length-replicate,
  refl, replicate, some, suc, true, zero, ℕ, ◌++◌, ◌+◌, ◌-◌, ◌<◌, ◌==◌, ◌∙◌, ◌∷◌, ◌≡◌, ◌≢◌,
}
use ipk2024_projekt.Error.{Error}
use ipk2024_projekt.Bytes.{
  bytes_new, bytes_push_arr, bytes_push_c_str, bytes_size, bytes_trim, c_str,
}
use ipk2024_projekt.Bytes.View.{view}
use ipk2024_projekt.Bytes.Push.{bytes_push_arr-holding, holding}
use ipk2024_projekt.Bytes.Trim.{bytes_trim_lem}
use ipk2024_projekt.Trie.{Trie}
use ipk2024_projekt.Commands.{command_parse, has_nul, parse_trimmed}
use ipk2024_projekt.Commands.Request.{last_ok}

abbrev pub NoNul : List ℕ → Type 0
NoNul = All (λ x. (x == 0) ≡ false)

abbrev pub blanks : ℕ → List ℕ
blanks n = replicate n b' '

abbrev pub first_blank : List ℕ → Bool
first_blank [] = true
first_blank (x ∷ xs) = x == b' '

-- What trimming leaves: no NUL, and no blank at the ends.
pub record IsCore (core : List ℕ) : Type 0 where
  pub no_nul : NoNul core
  pub first : first_blank core ≡ false
  pub last : last_ok core ≡ true

pub c_str-NoNul : (s rest : List ℕ) → NoNul s → c_str (s ++ (0 ∷ rest)) ≡ s
c_str-NoNul [] rest h = refl
c_str-NoNul (x ∷ s) rest (hx, hs) = rw hx (ap (◌∷◌ x) (c_str-NoNul s rest hs))

pub has_nul-append : (s rest : List ℕ) → has_nul (s ++ (0 ∷ rest)) ≡ true
has_nul-append [] rest = refl
has_nul-append (x ∷ s) rest = ground (arith, has_nul-append s rest)

pub NoNul-blanks : (n : ℕ) → NoNul (blanks n)
unfolding replicate
NoNul-blanks zero = tt
NoNul-blanks (suc n) = (refl, NoNul-blanks n)

-- The last byte, and those in front of it.
last_byte :
    (core : List ℕ)
    → last_ok core ≡ true
    → (mid : List ℕ) × (y : ℕ) × (core ≡ mid ++ (y ∷ [])) × (y ≢ b' ')
last_byte [] h = cc
last_byte (x ∷ []) h = ([], x, refl, λ e. ground arith)
last_byte (x ∷ (y ∷ xs)) h =
    let (mid, z, e, ne) = last_byte (y ∷ xs) h in (x ∷ mid, z, ap (◌∷◌ x) e, ne)

first_byte :
    (core : List ℕ)
    → first_blank core ≡ false
    → (x : ℕ) × (tail : List ℕ) × (core ≡ x ∷ tail) × (x ≢ b' ')
first_byte [] h = cc
first_byte (x ∷ xs) h = (x, xs, refl, λ e. ground arith)

-- The bytes of a line between its blanks.
abbrev pub padded : ℕ → ℕ → List ℕ → List ℕ
padded i j core = blanks i ++ (core ++ blanks j)

pub length-padded : (i j : ℕ) (core : List ℕ) → length (padded i j core) ≡ i + (length core + j)
length-padded i j core = omega (
  arith,
  length-append (blanks i) (core ++ blanks j),
  length-append core (blanks j),
  length-replicate {A = ℕ} i b' ',
  length-replicate {A = ℕ} j b' ',
)

module _ (i j : ℕ) (core : List ℕ) (ok : IsCore core)
    (small : i + (length core + j) < bytes_size) where
  -- What lies behind the slice once it is trimmed.
  abbrev pub behind : List ℕ
  behind = 0 ∷ drop 1 (blanks j ++ replicate (bytes_size - length (padded i j core)) 0)

  pushed :
      (rest : List ℕ) (error : Error)
      → bytes_push_c_str bytes_new (padded i j core ++ (0 ∷ rest)) error
        ≡ some (holding (padded i j core), error)
  unfolding bytes_push_c_str
  pushed rest error =
      ap (λ s. bytes_push_arr bytes_new s error) (c_str-NoNul (padded i j core) rest nul)
      ∙ bytes_push_arr-holding [] (padded i j core) error (omega (arith, length-padded i j core))
    where
      nul : NoNul (padded i j core)
      nul =
          All-append (λ x. (x == 0) ≡ false) (blanks i) (core ++ blanks j) (NoNul-blanks i)
            (All-append (λ x. (x == 0) ≡ false) core (blanks j) ok.no_nul (NoNul-blanks j))

  trimmed :
      (error : Error)
      → bytes_trim (holding (padded i j core)) b' ' error
        ≡ some ((view (blanks i) core behind, i + j), error)
  trimmed error =
      let (x, tail, ex, nx) = first_byte core ok.first in
      let (mid, y, ey, ny) = last_byte core ok.last in
      bytes_trim_lem b' ' i j x y core mid tail
        (replicate (bytes_size - length (padded i j core)) 0) error ey ex ny nx
        (omega (
          arith,
          length-padded i j core,
          length-replicate {A = ℕ} (bytes_size - length (padded i j core)) 0,
        ))
        (omega (
          arith,
          length-padded i j core,
          length-replicate {A = ℕ} (bytes_size - length (padded i j core)) 0,
        ))

  pub command_parse-padded :
      (trie : Trie) (rest : List ℕ) (error : Error)
      → command_parse trie (padded i j core ++ (0 ∷ rest)) error
        ≡ parse_trimmed trie (view (blanks i) core behind) error
  unfolding command_parse
  command_parse-padded trie rest error =
      ground (arith, has_nul-append (padded i j core) rest, pushed rest error, trimmed error)
