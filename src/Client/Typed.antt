-- ===== src/Client/Typed.antt =====
-- What the client does with a line that the user types.
use ipk2024_projekt.Base.{
  All-append, List, [], ap, append_assoc, arith, false, length, length-replicate, none, pos, refl,
  replicate, some, suc, zero, ℕ, ◌++◌, ◌+◌, ◌-◌, ◌<◌, ◌==◌, ◌∙◌, ◌∷◌, ◌≡◌,
}
use ipk2024_projekt.Error.{invalid_input, no_error}
use ipk2024_projekt.Bytes.{bytes_get, bytes_new, bytes_size}
use ipk2024_projekt.Bytes.Push.{holding}
use ipk2024_projekt.Input.{read_line_stdin}
use ipk2024_projekt.Input.Line.{IsLine, newline, read_line_stdin-line, read_line_stdin-over}
use ipk2024_projekt.Commands.{command_parse, has_nul}
use ipk2024_projekt.Commands.Setup.{command_trie}
use ipk2024_projekt.Commands.Request.{IsRequest, Request, command_of, text_of}
use ipk2024_projekt.Commands.Trimmed.{NoNul, blanks, first_blank, length-padded, padded}
use ipk2024_projekt.Commands.Text.{Printable, Printable-IsLine, text_of-IsCore, text_of-Printable}
use ipk2024_projekt.Commands.RoundTrip.{command_parse-text_of}
use ipk2024_projekt.Commands.Unknown.{command_parse-blank}
use ipk2024_projekt.World.{World}
use ipk2024_projekt.Client.Handler.{client_handle_command, client_handle_input, handle_line}

-- The user typed `line` and a newline, and no error is set.
pub record HasTyped (line rest : List ℕ) (w : World) : Type 0 where
  pub clear : w.error ≡ no_error
  pub open_stdin : w.stdin_ended ≡ false
  pub typed_line : w.stdin ≡ line ++ (newline ∷ rest)
  pub trie : w.command_trie ≡ command_trie

IsLine-blanks : (n : ℕ) → IsLine (blanks n)
unfolding replicate
IsLine-blanks zero = tt
IsLine-blanks (suc n) = (refl, IsLine-blanks n)

padded-IsLine : (i j : ℕ) (core : List ℕ) → IsLine core → IsLine (padded i j core)
padded-IsLine i j core h =
    All-append (λ ch. (ch == b'\n') ≡ false) (blanks i) (core ++ blanks j) (IsLine-blanks i)
      (All-append (λ ch. (ch == b'\n') ≡ false) core (blanks j) h (IsLine-blanks j))

-- A line that is read goes to `handle_line` with a NUL behind it.
line_read :
    (line rest : List ℕ) (w : World)
    → HasTyped line rest w
    → IsLine line
    → 0 < length line
    → length line < bytes_size
    → client_handle_input w ≡ handle_line (holding (line ++ (0 ∷ []))) (record w { stdin = rest })
unfolding client_handle_input
line_read [] rest w t l ne h = absurd (omega arith)
line_read (x ∷ line) rest w t l ne h = ground (arith, t, read_line_stdin-line (x ∷ line) rest l h)

-- What `command_parse` is given: the line, its NUL, and what lies behind.
abbrev handed : List ℕ → List ℕ
handed line = bytes_get (holding (line ++ (0 ∷ [])))

handed_eq :
    (line : List ℕ)
    → handed line ≡ line ++ (0 ∷ replicate (bytes_size - length (line ++ (0 ∷ []))) 0)
handed_eq line = append_assoc line (0 ∷ []) (replicate (bytes_size - length (line ++ (0 ∷ []))) 0)

-- With no error set, a request that the user types, with any blanks around it that a buffer holds,
-- has the effect of its command, and what follows the newline is left on stdin. The trie is the
-- one that command_setup makes.
pub client_handle_input-text_of :
    (i j : ℕ) (r : Request) (rest : List ℕ) (w : World)
    → IsRequest r
    → i + (length (text_of r) + j) < bytes_size
    → HasTyped (padded i j (text_of r)) rest w
    → client_handle_input w
      ≡ client_handle_command (command_of r).type (command_of r) (record w { stdin = rest })
unfolding handle_line
client_handle_input-text_of i j r rest w v small t =
    line_read line rest w t (padded-IsLine i j (text_of r) (Printable-IsLine (text_of r) printable))
      (omega
        (arith, length-padded i j (text_of r), nonempty (text_of r) (text_of-IsCore r v).first))
      (omega (arith, length-padded i j (text_of r)))
    ∙ ground (arith, t.trie, t.clear, parsed)
  where
    line : List ℕ
    line = padded i j (text_of r)

    printable : Printable (text_of r)
    printable = text_of-Printable r v

    nonempty : (s : List ℕ) → first_blank s ≡ false → 0 < length s
    nonempty [] h = cc
    nonempty (x ∷ s) h = omega arith

    parsed :
        command_parse command_trie (handed (padded i j (text_of r))) no_error
        ≡ some (command_of r, no_error)
    parsed =
        ap (λ s. command_parse command_trie s no_error) (handed_eq (padded i j (text_of r)))
        ∙ command_parse-text_of i j r _ no_error v small

-- With no error set, a line of blanks alone that a buffer holds makes the client read outside an
-- array.
client_handle_input-blank :
    (n : ℕ) (rest : List ℕ) (w : World)
    → 0 < n
    → n < bytes_size
    → HasTyped (blanks n) rest w
    → client_handle_input w ≡ none
unfolding handle_line
client_handle_input-blank n rest w some_blank small t =
    line_read (blanks n) rest w t (IsLine-blanks n) (omega (arith, length-replicate {A = ℕ} n b' '))
      (omega (arith, length-replicate {A = ℕ} n b' '))
    ∙ ground (arith, t.trie, t.clear, parsed)
  where
    parsed : command_parse command_trie (handed (blanks n)) no_error ≡ none
    parsed =
        ap (λ s. command_parse command_trie s no_error) (handed_eq (blanks n))
        ∙ command_parse-blank n command_trie _ no_error (omega arith)

not_has_nul : (s : List ℕ) → NoNul s → has_nul (s ++ []) ≡ false
not_has_nul [] h = refl
not_has_nul (x ∷ s) (hx, hs) = rw hx (not_has_nul s hs)

full-has_nul :
    (front : List ℕ)
    → NoNul front
    → length front ≡ bytes_size
    → has_nul (bytes_get (holding front)) ≡ false
unfolding replicate
full-has_nul front nf full =
    ap (λ n. has_nul (front ++ replicate n 0))
      (let e : bytes_size - length front ≡ 0 = omega arith in e)
    ∙ not_has_nul front nf

-- With no error set, a line longer than the buffer, with no NUL in what the buffer takes of it,
-- makes command_parse read behind the array.
pub client_handle_input-over :
    (front back rest : List ℕ) (w : World)
    → IsLine front
    → IsLine back
    → NoNul front
    → length front ≡ bytes_size
    → 0 < length back
    → HasTyped (front ++ back) rest w
    → client_handle_input w ≡ none
unfolding client_handle_input handle_line command_parse
client_handle_input-over front [] rest w lf lb nf full more t = absurd (omega arith)
client_handle_input-over front (x ∷ back) rest w lf lb nf full more t =
    ground (arith, t, read, full-has_nul front nf full)
  where
    read :
        read_line_stdin false ((front ++ (x ∷ back)) ++ (newline ∷ rest)) bytes_new no_error
        ≡ some ((pos (suc (length front + length back)), holding front, rest), invalid_input)
    read =
        ap (λ s. read_line_stdin false s bytes_new no_error)
          (append_assoc front (x ∷ back) (newline ∷ rest))
        ∙ read_line_stdin-over front (x ∷ back) rest lf lb full more
        ∙ ap (λ n. some ((pos n, holding front, rest), invalid_input)) (omega arith)
