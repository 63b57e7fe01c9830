-- ===== src/Tests/Typed.antt =====
-- What the user types, and the commands that it gives.
use ipk2024_projekt.Base.{
  List, [], arith, codes, length-replicate, none, refl, replicate, some, suc, zero, ℕ, ◌++◌, ◌∷◌,
  ◌≡◌,
}
use ipk2024_projekt.Error.{no_error}
use ipk2024_projekt.Bytes.{bytes_size}
use ipk2024_projekt.Payload.{is_valid_message_content}
use ipk2024_projekt.Frame.{IsMessageContent}
use ipk2024_projekt.World.{World}
use ipk2024_projekt.Input.Line.{IsLine, newline}
use ipk2024_projekt.Commands.{command_parse, help_command, zero_command}
use ipk2024_projekt.Commands.Setup.{command_trie}
use ipk2024_projekt.Commands.Named.{slashed}
use ipk2024_projekt.Commands.Request.{command_of, text_of}
use ipk2024_projekt.Commands.RoundTrip.{command_parse-text_of}
use ipk2024_projekt.Commands.Trimmed.{NoNul, padded}
use ipk2024_projekt.Commands.Unknown.{command_parse-glued}
use ipk2024_projekt.Client.Handler.{client_handle_command, client_handle_input}
use ipk2024_projekt.Client.Typed.{HasTyped, client_handle_input-over, client_handle_input-text_of}
use ipk2024_projekt.Tests.Sample.{login_request, login_request-IsRequest, session}

command_parse-text_of_example :
    command_parse command_trie
      (padded 2 3 (text_of login_request) ++ (0 ∷ codes "/join x"))
      no_error
    ≡ some (command_of login_request, no_error)
command_parse-text_of_example =
    command_parse-text_of 2 3 login_request (codes "/join x") no_error login_request-IsRequest
      (omega arith)

glued-IsMessageContent : IsMessageContent (slashed help_command (codes "me"))
unfolding is_valid_message_content
glued-IsMessageContent = record {
  valid = ground arith;
  some_byte = omega arith;
  fits = omega arith;
}

-- `/helpme` is said, not obeyed.
command_parse-glued_example :
    command_parse command_trie (padded 1 0 (slashed help_command (codes "me")) ++ (0 ∷ [])) no_error
    ≡ some (record zero_command { message = codes "/helpme" }, no_error)
command_parse-glued_example =
    command_parse-glued 1 0 b'm' help_command (codes "e") [] no_error (λ e. cc) refl
      glued-IsMessageContent refl (omega arith)

-- The user typed this line.
abbrev typing : List ℕ → World
typing line = record session { stdin = line ++ (newline ∷ codes "next") }

typing-HasTyped : (line : List ℕ) → HasTyped line (codes "next") (typing line)
typing-HasTyped line = record { clear = refl; open_stdin = refl; typed_line = refl; trie = refl }

client_handle_input-text_of_example :
    client_handle_input (typing (padded 1 1 (text_of login_request)))
    ≡ client_handle_command
        (command_of login_request).type
        (command_of login_request)
        (record session { stdin = codes "next" })
client_handle_input-text_of_example =
    client_handle_input-text_of 1 1 login_request (codes "next")
      (typing (padded 1 1 (text_of login_request))) login_request-IsRequest (omega arith)
      (typing-HasTyped (padded 1 1 (text_of login_request)))

long-IsLine : (n : ℕ) → IsLine (replicate n b'a')
unfolding replicate
long-IsLine zero = tt
long-IsLine (suc n) = (refl, long-IsLine n)

long-NoNul : (n : ℕ) → NoNul (replicate n b'a')
unfolding replicate
long-NoNul zero = tt
long-NoNul (suc n) = (refl, long-NoNul n)

client_handle_input-over_example :
    client_handle_input (typing (replicate bytes_size b'a' ++ codes "b")) ≡ none
client_handle_input-over_example =
    client_handle_input-over (replicate bytes_size b'a') (codes "b") (codes "next")
      (typing (replicate bytes_size b'a' ++ codes "b")) (long-IsLine bytes_size) (refl, tt)
      (long-NoNul bytes_size) (length-replicate {A = ℕ} bytes_size b'a') (omega arith)
      (typing-HasTyped (replicate bytes_size b'a' ++ codes "b"))
