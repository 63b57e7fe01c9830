-- ===== src/Tcp/Deserialize.antt =====
-- What the macros of `tcp_deserialize` do on a well-formed slice.
use ipk2024_projekt.Base.{
  ==_self, Bool, List, [], append_assoc, arith, false, length, length-append, refl, some, true, ℕ,
  ◌++◌, ◌∙◌, ◌∷◌, ◌≡◌,
}
use ipk2024_projekt.Error.{Error, Exec}
use ipk2024_projekt.Bytes.{Bytes, bytes_skip_first_n, c_str}
use ipk2024_projekt.Bytes.View.{IsSmall, bytes_get-view, bytes_skip_first_n-view, view}
use ipk2024_projekt.Payload.{Payload, PayloadType, read}
use ipk2024_projekt.Payload.Field.{read-stop}
use ipk2024_projekt.Frame.{IsField}
use ipk2024_projekt.Tcp.{agrees, finish, line_end, read_field, skip_str, starts_with}
use ipk2024_projekt.Tcp.Line.{crlf}

-- The bytes that told the kind of the line are skipped.
pub skip_start :
    (start rest back : List ℕ)
    → IsSmall [] (start ++ rest)
    → bytes_skip_first_n (view [] (start ++ rest) back) (length start) ≡ view start rest back
skip_start start rest back h =
    bytes_skip_first_n-view [] start rest back (omega (arith, length-append start rest))

agrees_self : (str rest : List ℕ) → agrees (str ++ rest) str ≡ some true
agrees_self [] rest = refl
agrees_self (x ∷ str) rest = rw (==_self x) (agrees_self str rest)

-- SKIP_STR goes behind the string that the slice begins with.
pub skip_str-view :
    (str front rest back : List ℕ) (p : Payload) (next : Payload → Bytes → Exec Payload)
    (error : Error)
    → c_str str ≡ str
    → IsSmall front (str ++ rest)
    → skip_str str p (view front (str ++ rest) back) next error
      ≡ next p (view (front ++ str) rest back) error
unfolding skip_str starts_with
skip_str-view str front rest back p next error e small = ground (
  arith,
  e,
  length-append str rest,
  bytes_get-view front (str ++ rest) back,
  append_assoc str rest back,
  agrees_self str (rest ++ back),
  bytes_skip_first_n-view front str rest back (omega (arith, length-append str rest)),
)

-- READ stores the field that the slice begins with, and goes behind it.
pub read_field-view :
    (validator : ℕ → Bool) (limit : ℕ) (dest front s rest back : List ℕ) (x : ℕ)
    (put : List ℕ → Payload) (next : Payload → Bytes → Exec Payload) (error : Error)
    → validator x ≡ false
    → IsField validator limit s
    → IsSmall front (s ++ (x ∷ rest))
    → read_field (read validator limit) dest (view front (s ++ (x ∷ rest)) back) put next error
      ≡ next (put s) (view (front ++ s) (x ∷ rest) back) error
unfolding read_field
read_field-view validator limit dest front [] rest back x put next error h v small =
    absurd (omega (arith, v.some_byte))
read_field-view validator limit dest front (y ∷ s) rest back x put next error h v small = ground (
  arith,
  read-stop validator limit dest front (y ∷ s) rest back x error v.valid v.some_byte v.fits h,
  bytes_skip_first_n-view front (y ∷ s) (x ∷ rest) back
      (omega (arith, length-append (y ∷ s) (x ∷ rest))),
)

-- The line's end, with nothing behind it.
pub line_end-view :
    (type : PayloadType) (p : Payload) (front back : List ℕ) (error : Error)
    → IsSmall front crlf
    → line_end type p (view front crlf back) error ≡ some (record p { type = type }, error)
unfolding line_end
line_end-view type p front back error small =
    skip_str-view crlf front [] back p (finish type) error refl small ∙ unfold finish in refl
