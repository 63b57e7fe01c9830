-- ===== src/Input/Line.antt =====
-- What a line of stdin leaves in a new buffer, by its length.
pub mod Total
use ipk2024_projekt.Base.{
  All, Bool, List, M, Option, [], ap, append-nil, append_assoc, arith, false, if◌then◌else◌, length,
  length-append, length-replicate, le→leb, lt→leb, negsuc, none, pos, refl, replicate, ret, some, ℕ,
  ℤ, ◌++◌, ◌+◌, ◌-◌, ◌<◌, ◌==◌, ◌>>=◌, ◌∙◌, ◌∷◌, ◌≡◌, ◌≤◌,
}
use ipk2024_projekt.Error.{Error, Exec, get_error, invalid_input, is_set, no_error}
use ipk2024_projekt.Bytes.{Bytes, bytes_new, bytes_push, bytes_size}
use ipk2024_projekt.Bytes.Push.{bytes_push_arr-fault, bytes_push_arr-holding, holding}
use ipk2024_projekt.Input.{line_loop, read_line_stdin}

abbrev pub IsLine : List ℕ → Type 0
IsLine = All (λ ch. (ch == b'\n') ≡ false)

abbrev pub newline : ℕ
newline = b'\n'

abbrev resume : {S A B : Type 0} → (A → M S B) → Option (A × S) → Option (B × S)
resume f none = none
resume f (some (a, t)) = f a t

-- The first step of a `do` block, when its result is known.
run-bind :
    {S A B : Type 0} (m : M S A) (f : A → M S B) (s : S) (result : Option (A × S))
    → m s ≡ result
    → (m >>= f) s ≡ resume f result
run-bind m f s result e = ap (resume f) e

bytes_push-holding :
    (written : List ℕ) (x : ℕ) (error : Error)
    → length written < bytes_size
    → bytes_push (holding written) x error ≡ some (holding (written ++ (x ∷ [])), error)
unfolding bytes_push
bytes_push-holding written x error h = bytes_push_arr-holding written (x ∷ []) error (omega arith)

line_loop-fits :
    (written line more : List ℕ) (count n : ℕ) (error : Error)
    → IsLine line
    → count ≡ length written
    → n ≡ count + length line
    → n ≤ bytes_size
    → line_loop (line ++ more) count (holding written) error
      ≡ line_loop more n (holding (written ++ line)) error
unfolding line_loop
line_loop-fits written [] more count n error all c e h =
    rw append-nil (ap (λ k. line_loop more k (holding written) error) (omega arith))
line_loop-fits written (ch ∷ line) more count n error (plain, all) c e h =
    rw (plain, lt→leb bytes_size count (omega arith))
      (run-bind (bytes_push (holding written) ch) (line_loop (line ++ more) (count + 1)) error
          (some (holding (written ++ (ch ∷ [])), error))
          (bytes_push-holding written ch error (omega arith))
        ∙ line_loop-fits (written ++ (ch ∷ [])) line more (count + 1) n error all
            (omega (arith, length-append written (ch ∷ []))) (omega arith) h
        ∙ ap (λ s. line_loop more n (holding s) error) (append_assoc written (ch ∷ []) line))

line_loop-over :
    (written line rest : List ℕ) (count n : ℕ) (error : Error)
    → IsLine line
    → bytes_size ≤ count
    → n ≡ count + length line
    → 0 < length line
    → line_loop (line ++ (newline ∷ rest)) count (holding written) error
      ≡ some ((false, n, holding written, rest), invalid_input)
unfolding line_loop
line_loop-over written [] rest count n error all c e h = absurd (omega arith)
line_loop-over written (ch ∷ []) rest count n error (plain, all) c e h =
    rw (plain, le→leb bytes_size count c)
      (ap (λ k. some ((false, k, holding written, rest), invalid_input)) (omega arith))
line_loop-over written (ch ∷ (x ∷ line)) rest count n error (plain, all) c e h =
    rw (plain, le→leb bytes_size count c)
      (line_loop-over written (x ∷ line) rest (count + 1) n invalid_input all (omega arith)
        (omega arith) (omega arith))

-- What follows the loop.
abbrev after_loop : Bool × ℕ × Bytes × List ℕ → Exec (ℤ × Bytes × List ℕ)
after_loop (ended, count, b', rest) = if ended then ret (negsuc 0, b', rest) else do
  error ← get_error
  b'' ← if is_set error then ret b' else bytes_push b' 0
  ret (pos count, b'', rest)

after_line :
    (input rest written : List ℕ) (count : ℕ) (error : Error)
    → line_loop input 0 (holding []) no_error ≡ some ((false, count, holding written, rest), error)
    → read_line_stdin false input bytes_new no_error
      ≡ after_loop (false, count, holding written, rest) error
unfolding read_line_stdin
after_line input rest written count error e =
    run-bind (line_loop input 0 (holding [])) after_loop no_error
      (some ((false, count, holding written, rest), error)) e

whole_line :
    (line rest : List ℕ)
    → IsLine line
    → length line ≤ bytes_size
    → line_loop (line ++ (newline ∷ rest)) 0 (holding []) no_error
      ≡ some ((false, length line, holding line, rest), no_error)
unfolding line_loop
whole_line line rest all h =
    line_loop-fits [] line (newline ∷ rest) 0 (length line) no_error all refl (omega arith) h

pub read_line_stdin-line :
    (line rest : List ℕ)
    → IsLine line
    → length line < bytes_size
    → read_line_stdin false (line ++ (newline ∷ rest)) bytes_new no_error
      ≡ some ((pos (length line), holding (line ++ (0 ∷ [])), rest), no_error)
read_line_stdin-line line rest all h =
    after_line (line ++ (newline ∷ rest)) rest line (length line) no_error
      (whole_line line rest all (omega arith))
    ∙ run-bind (bytes_push (holding line) 0) (λ b. ret (pos (length line), b, rest)) no_error
        (some (holding (line ++ (0 ∷ [])), no_error)) (bytes_push-holding line 0 no_error h)

-- With no error set, a line as long as the buffer makes readLineStdin write its NUL outside the
-- array.
pub read_line_stdin-fault :
    (line rest : List ℕ)
    → IsLine line
    → length line ≡ bytes_size
    → read_line_stdin false (line ++ (newline ∷ rest)) bytes_new no_error ≡ none
unfolding bytes_push
read_line_stdin-fault line rest all h =
    after_line (line ++ (newline ∷ rest)) rest line (length line) no_error
      (whole_line line rest all (omega arith))
    ∙ no_room
  where
    cells : length (holding line).cells ≡ bytes_size
    cells = omega (
      arith,
      length-append line (replicate (bytes_size - length line) 0),
      length-replicate {A = ℕ} (bytes_size - length line) 0,
    )

    no_room : after_loop (false, length line, holding line, rest) no_error ≡ none
    no_room =
        run-bind (bytes_push (holding line) 0) (λ b. ret (pos (length line), b, rest)) no_error none
          (bytes_push_arr-fault (holding line) 0 [] no_error cells (omega arith) (omega arith))

-- A line longer than the buffer fills it and sets the error; the rest of the line is counted and
-- passed over.
pub read_line_stdin-over :
    (front back rest : List ℕ)
    → IsLine front
    → IsLine back
    → length front ≡ bytes_size
    → 0 < length back
    → read_line_stdin false (front ++ (back ++ (newline ∷ rest))) bytes_new no_error
      ≡ some ((pos (length front + length back), holding front, rest), invalid_input)
read_line_stdin-over front back rest hf hb full some_left =
    after_line (front ++ (back ++ (newline ∷ rest))) rest front (length front + length back)
      invalid_input
      (line_loop-fits [] front (back ++ (newline ∷ rest)) 0 (length front) no_error hf refl
          (omega arith) (omega arith)
        ∙ line_loop-over front back rest (length front) (length front + length back) no_error hb
            (omega arith) refl some_left)
