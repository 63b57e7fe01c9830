-- ===== src/Tests/Stdin.antt =====
-- Lines of stdin, short ones and ones at the size of the buffer.
use ipk2024_projekt.Base.{
  [], false, length-replicate, none, refl, replicate, suc, zero, ℕ, ◌++◌, ◌∷◌, ◌≡◌,
}
use ipk2024_projekt.Error.{no_error}
use ipk2024_projekt.Bytes.{bytes_new, bytes_size}
use ipk2024_projekt.Input.Line.{IsLine, newline, read_line_stdin-fault}
use ipk2024_projekt.Input.{read_line_stdin}

replicate-IsLine : (n : ℕ) → IsLine (replicate n b'a')
unfolding replicate
replicate-IsLine zero = tt
replicate-IsLine (suc n) = (refl, replicate-IsLine n)

read_line_stdin-fault_example :
    read_line_stdin false (replicate bytes_size b'a' ++ (newline ∷ [])) bytes_new no_error ≡ none
read_line_stdin-fault_example =
    read_line_stdin-fault (replicate bytes_size b'a') [] (replicate-IsLine bytes_size)
      (length-replicate {A = ℕ} bytes_size b'a')
