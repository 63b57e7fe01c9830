-- ===== src/Commands/Named.antt =====
-- How `command_parse` tells a command from a message, once the blanks at the ends are gone.
use ipk2024_projekt.Base.{
  List, arith, get_elem?, if◌then◌else◌, length, refl, some, ℕ, ◌++◌, ◌+◌, ◌<◌, ◌==◌, ◌∷◌, ◌≡◌, ◌≢◌,
}
use ipk2024_projekt.Error.{Error, Exec}
use ipk2024_projekt.Bytes.{Bytes, bytes_skip_first_n}
use ipk2024_projekt.Bytes.View.{bytes_get-view, view}
use ipk2024_projekt.Commands.{
  Command, CommandType, auth_command, clear_command, command_prefix_length, exit_command,
  help_command, join_command, no_command, of_value, parse_arguments, parse_trimmed, rename_command,
  to_value, zero_command,
}
use ipk2024_projekt.Commands.Setup.{command_trie, match-name_of, name_of}

-- The slash and the name, and what follows them.
abbrev pub slashed : CommandType → List ℕ → List ℕ
slashed type rest = b'/' ∷ (name_of type ++ rest)

abbrev pub typed : CommandType → Command
typed t = record zero_command { type = t }

-- The byte behind the name stands where the parser looks for it.
ending-name :
    (type : CommandType) (ch : ℕ) (more : List ℕ)
    → type ≢ no_command
    → get_elem? (slashed type (ch ∷ more)) (command_prefix_length type) ≡ some ch
ending-name no_command ch more named = absurd (named refl)
ending-name auth_command ch more named = refl
ending-name join_command ch more named = refl
ending-name rename_command ch more named = refl
ending-name help_command ch more named = refl
ending-name clear_command ch more named = refl
ending-name exit_command ch more named = refl

of_value-to_value : (type : CommandType) → of_value (to_value type) ≡ type
of_value-to_value no_command = refl
of_value-to_value auth_command = refl
of_value-to_value join_command = refl
of_value-to_value rename_command = refl
of_value-to_value help_command = refl
of_value-to_value clear_command = refl
of_value-to_value exit_command = refl

-- The byte `ch` behind the name decides: a blank or the end makes the line a command.
abbrev pub chosen : ℕ → CommandType → Bytes → Exec Command
chosen ch type buffer =
    if ch == b' '
    then parse_arguments type (typed type)
        (bytes_skip_first_n buffer (command_prefix_length type + 1))
    else if ch == 0
    then parse_arguments type (typed type) (bytes_skip_first_n buffer (command_prefix_length type))
    else parse_arguments no_command zero_command buffer

module _ (type : CommandType) (named : type ≢ no_command) (front back : List ℕ)
    (error : Error) where
  pub parse_trimmed-slashed :
      (slice more : List ℕ) (ch : ℕ)
      → slice ++ back ≡ slashed type (ch ∷ more)
      → 0 < length slice
      → parse_trimmed command_trie (view front slice back) error
        ≡ chosen ch type (view front slice back) error
  unfolding parse_trimmed
  parse_trimmed-slashed slice more ch e ne = ground (
    arith,
    bytes_get-view front slice back,
    ending-name type ch more named,
    match-name_of type (ch ∷ more) named (omega arith),
    of_value-to_value type,
  )
