-- ===== src/Commands/Unknown.antt =====
-- Lines that look like commands and are none, and lines without any text.
use ipk2024_projekt.Base.{
  List, [], ap, append_assoc, arith, false, length, length-replicate, none, refl, replicate, some,
  true, ℕ, ◌++◌, ◌+◌, ◌-◌, ◌<◌, ◌==◌, ◌∙◌, ◌∷◌, ◌≡◌, ◌≢◌, ◌≤◌,
}
use ipk2024_projekt.Error.{Error}
use ipk2024_projekt.Bytes.{bytes_push_c_str, bytes_size}
use ipk2024_projekt.Bytes.Push.{bytes_push_arr-holding}
use ipk2024_projekt.Bytes.Trim.{bytes_trim-fault}
use ipk2024_projekt.Frame.{IsMessageContent}
use ipk2024_projekt.Trie.{Trie}
use ipk2024_projekt.Commands.{CommandType, command_parse, no_command, zero_command}
use ipk2024_projekt.Commands.Setup.{command_trie, name_of}
use ipk2024_projekt.Commands.Request.{last_ok}
use ipk2024_projekt.Commands.Named.{parse_trimmed-slashed, slashed}
use ipk2024_projekt.Commands.Trimmed.{
  IsCore, NoNul-blanks, behind, blanks, c_str-NoNul, command_parse-padded, has_nul-append, padded,
}
use ipk2024_projekt.Commands.Text.{All-behind, text_NoNul}
use ipk2024_projekt.Commands.RoundTrip.{parse_message}

-- A line that begins with a slash and the name of a command, and goes on with a byte other than a
-- blank, is no command: if it is valid as a message and the buffer holds it with the blanks around
-- it, all of it, the slash included, is taken for a message.
pub command_parse-glued :
    (i j ch : ℕ) (type : CommandType) (more rest : List ℕ) (error : Error)
    → type ≢ no_command
    → (ch == b' ') ≡ false
    → IsMessageContent (slashed type (ch ∷ more))
    → last_ok (slashed type (ch ∷ more)) ≡ true
    → i + (length (slashed type (ch ∷ more)) + j) < bytes_size
    → command_parse command_trie (padded i j (slashed type (ch ∷ more)) ++ (0 ∷ rest)) error
      ≡ some (record zero_command { message = slashed type (ch ∷ more) }, error)
command_parse-glued i j ch type more rest error named not_blank v l small =
    command_parse-padded i j core core-IsCore small command_trie rest error
    ∙ parse_trimmed-slashed type named (blanks i) back error core (more ++ back) ch
        (ap (◌∷◌ b'/') (append_assoc (name_of type) (ch ∷ more) back)) (omega arith)
    ∙ rw (not_blank, not_nul)
        (parse_message (blanks i) core back error v
          (omega (arith, length-replicate {A = ℕ} i b' ')))
  where
    core : List ℕ
    core = slashed type (ch ∷ more)

    core-IsCore : IsCore (slashed type (ch ∷ more))
    core-IsCore = record {
      no_nul = text_NoNul (slashed type (ch ∷ more)) v;
      first = refl;
      last = l;
    }

    back : List ℕ
    back = behind i j (slashed type (ch ∷ more)) core-IsCore small

    not_nul : (ch == 0) ≡ false
    not_nul = (All-behind (name_of type) (ch ∷ more) (text_NoNul (slashed type (ch ∷ more)) v).1).0

-- A line of blanks alone, or an empty one, makes `command_parse` read outside its array.
pub command_parse-blank :
    (n : ℕ) (trie : Trie) (rest : List ℕ) (error : Error)
    → n ≤ bytes_size
    → command_parse trie (blanks n ++ (0 ∷ rest)) error ≡ none
unfolding command_parse bytes_push_c_str
command_parse-blank n trie rest error h = ground (
  arith,
  has_nul-append (blanks n) rest,
  c_str-NoNul (blanks n) rest (NoNul-blanks n),
  bytes_push_arr-holding [] (blanks n) error (omega (arith, length-replicate {A = ℕ} n b' ')),
  bytes_trim-fault b' ' n (replicate (bytes_size - length (blanks n)) 0) error h,
)
