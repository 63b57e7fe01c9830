-- ===== src/Input.antt =====
-- src/input.c: a line of stdin. The bytes that are still to come on stdin are a list; behind them
-- is its end. The count is an `int`, which holds lines shorter than 2 ^ 31.
pub mod Line
use ipk2024_projekt.Base.{
  Bool, List, [], false, if◌then◌else◌, leb, negsuc, pos, ret, true, ℕ, ℤ, ◌+◌, ◌==◌, ◌>>=◌, ◌>>◌,
  ◌∷◌,
}
use ipk2024_projekt.Error.{Exec, get_error, invalid_input, is_set, set_error}
use ipk2024_projekt.Bytes.{Bytes, bytes_push, bytes_size}

-- The loop. The result says whether stdin ended, and holds the count, the buffer and what is left.
unfoldable pub line_loop : List ℕ → ℕ → Bytes → Exec (Bool × ℕ × Bytes × List ℕ)
line_loop [] count b = ret (true, count, b, [])
line_loop (ch ∷ input) count b = if ch == b'\n' then ret (false, count, b, input) else do
  b' ← if leb bytes_size count then (do set_error invalid_input; ret b) else bytes_push b ch
  line_loop input (count + 1) b'

-- `at_end` is `feof(stdin)`, and EOF is -1.
unfoldable pub read_line_stdin : Bool → List ℕ → Bytes → Exec (ℤ × Bytes × List ℕ)
read_line_stdin at_end input b = if at_end then ret (negsuc 0, b, input) else do
  (ended, count, b', rest) ← line_loop input 0 b
  if ended then ret (negsuc 0, b', rest) else do
    error ← get_error
    b'' ← if is_set error then ret b' else bytes_push b' 0
    ret (pos count, b'', rest)
