-- ===== src/Input/Line/Total.antt =====
-- What `readLineStdin` returns whatever error is set before it.
use ipk2024_projekt.Base.{
  Bool-cases, List, [], ap, append-nil, append_assoc, arith, false, inl, inr, length, negsuc, pos,
  refl, replicate, some, suc, sym, true, ℕ, ◌++◌, ◌+◌, ◌-◌, ◌<◌, ◌∙◌, ◌∷◌, ◌≡◌, ◌≤◌,
}
use ipk2024_projekt.Error.{Error, is_set}
use ipk2024_projekt.Bytes.{Bytes, bytes_get, bytes_new, bytes_size}
use ipk2024_projekt.Bytes.Push.{holding}
use ipk2024_projekt.Input.{line_loop, read_line_stdin}
use ipk2024_projekt.Input.Line.{
  IsLine, after_loop, bytes_push-holding, line_loop-fits, newline, run-bind,
}

-- The buffer behind a line has a NUL there, stored or left from when it was new.
holding-nul :
    (line : List ℕ)
    → length line < bytes_size
    → (tail : List ℕ) × (bytes_get (holding line) ≡ line ++ (0 ∷ tail))
unfolding replicate
holding-nul line h = (
  replicate (bytes_size - (length line + 1)) 0,
  ap (λ n. line ++ replicate n 0)
      (let e : bytes_size - length line ≡ suc (bytes_size - (length line + 1)) = omega arith in e),
)

pub read_line_stdin-short :
    (line rest : List ℕ) (error : Error)
    → IsLine line
    → length line < bytes_size
    → (b : Bytes) × (tail : List ℕ) × (read_line_stdin false
          (line ++ (newline ∷ rest))
          bytes_new
          error
        ≡ some ((pos (length line), b, rest), error))
      × (bytes_get b ≡ line ++ (0 ∷ tail))
unfolding read_line_stdin line_loop
read_line_stdin-short line rest error all h = elim (Bool-cases (is_set error)) [
  | inl set ↦
      let (tail, e) = holding-nul line h in (holding line, tail, ran ∙ ground (arith, set), e)
  | inr clear ↦ (
    holding (line ++ (0 ∷ [])),
    replicate (bytes_size - length (line ++ (0 ∷ []))) 0,
    ran ∙ ground (arith, clear, bytes_push-holding line 0 error h),
    append_assoc line (0 ∷ []) (replicate (bytes_size - length (line ++ (0 ∷ []))) 0),
  )
]
  where
    ran :
        read_line_stdin false (line ++ (newline ∷ rest)) bytes_new error
        ≡ after_loop (false, length line, holding line, rest) error
    ran =
        run-bind (line_loop (line ++ (newline ∷ rest)) 0 (holding [])) after_loop error
          (some ((false, length line, holding line, rest), error))
          (line_loop-fits [] line (newline ∷ rest) 0 (length line) error all refl (omega arith)
            (omega arith))

-- A last line without a newline.
pub read_line_stdin-last :
    (line : List ℕ) (error : Error)
    → IsLine line
    → length line ≤ bytes_size
    → read_line_stdin false line bytes_new error ≡ some ((negsuc 0, holding line, []), error)
unfolding read_line_stdin line_loop
read_line_stdin-last line error all h =
    run-bind (line_loop line 0 (holding [])) after_loop error
      (some ((true, length line, holding line, []), error))
      (ap (λ l. line_loop l 0 (holding []) error) (sym (append-nil line))
        ∙ line_loop-fits [] line [] 0 (length line) error all refl (omega arith) h)
