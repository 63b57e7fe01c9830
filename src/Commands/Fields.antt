-- ===== src/Commands/Fields.antt =====
-- What the macros of `command_parse` do on a well-formed slice.
use ipk2024_projekt.Base.{
  Bool, List, [], ap, append-nil, arith, false, length, length-append, refl, some, sym, ℕ, ◌++◌,
  ◌∙◌, ◌∷◌, ◌≡◌,
}
use ipk2024_projekt.Error.{Error, Exec}
use ipk2024_projekt.Bytes.{Bytes, bytes_skip_first_n}
use ipk2024_projekt.Bytes.View.{IsSmall, bytes_get-view, bytes_skip_first_n-view, view}
use ipk2024_projekt.Payload.{read}
use ipk2024_projekt.Payload.Field.{read-stop, read-whole}
use ipk2024_projekt.Frame.{IsField}
use ipk2024_projekt.Commands.{Command, check_rest, read_argument, skip_space}

-- The check at the end on an empty slice.
pub check_rest-view :
    (cmd : Command) (front back : List ℕ) (error : Error)
    → check_rest cmd (view front [] back) error ≡ some (cmd, error)
unfolding check_rest
check_rest-view cmd front back error = refl

-- SKIP_SPACE goes behind a blank.
pub skip_space-view :
    (cmd : Command) (front rest back : List ℕ) (next : Command → Bytes → Exec Command)
    (error : Error)
    → IsSmall front (b' ' ∷ rest)
    → skip_space cmd (view front (b' ' ∷ rest) back) next error
      ≡ next cmd (view (front ++ (b' ' ∷ [])) rest back) error
unfolding skip_space
skip_space-view cmd front rest back next error small = ground (
  arith,
  bytes_get-view front (b' ' ∷ rest) back,
  bytes_skip_first_n-view front (b' ' ∷ []) rest back (omega arith),
)

module _ (validator : ℕ → Bool) (limit : ℕ) (dest front : List ℕ) (put : List ℕ → Command)
    (next : Command → Bytes → Exec Command) (error : Error) where
  -- READ stores the field in front of an invalid byte, and goes behind it.
  pub read_argument-view :
      (s rest back : List ℕ) (x : ℕ)
      → validator x ≡ false
      → IsField validator limit s
      → IsSmall front (s ++ (x ∷ rest))
      → read_argument (read validator limit) dest (view front (s ++ (x ∷ rest)) back) put next error
        ≡ next (put s) (view (front ++ s) (x ∷ rest) back) error
  unfolding read_argument
  read_argument-view [] rest back x h v small = absurd (omega (arith, v.some_byte))
  read_argument-view (y ∷ s) rest back x h v small = ground (
    arith,
    read-stop validator limit dest front (y ∷ s) rest back x error v.valid v.some_byte v.fits h,
    bytes_skip_first_n-view front (y ∷ s) (x ∷ rest) back
        (omega (arith, length-append (y ∷ s) (x ∷ rest))),
  )

  -- READ of a field that fills the slice leaves nothing.
  pub read_argument-end :
      (s back : List ℕ)
      → IsField validator limit s
      → IsSmall front s
      → read_argument (read validator limit) dest (view front s back) put next error
        ≡ next (put s) (view (front ++ s) [] back) error
  unfolding read_argument
  read_argument-end [] back v small = absurd (omega (arith, v.some_byte))
  read_argument-end (y ∷ s) back v small = ground (
    arith,
    read-whole validator limit dest front (y ∷ s) back error v.valid v.some_byte v.fits,
    skip_all,
  )
    where
      skip_all :
          bytes_skip_first_n (view front (y ∷ s) back) (length (y ∷ s))
          ≡ view (front ++ (y ∷ s)) [] back
      skip_all =
          ap (λ l. bytes_skip_first_n (view front l back) (length (y ∷ s)))
            (sym (append-nil (y ∷ s)))
          ∙ bytes_skip_first_n-view front (y ∷ s) [] back (omega arith)
