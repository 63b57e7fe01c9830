-- ===== src/Commands/Request.antt =====
-- What a user may type, and the line for it.
use ipk2024_projekt.Base.{Bool, List, [], false, not, true, ℕ, ◌&&◌, ◌++◌, ◌==◌, ◌∷◌, ◌≡◌}
use ipk2024_projekt.Frame.{IsChannelId, IsDisplayName, IsMessageContent, IsSecret, IsUsername}
use ipk2024_projekt.Commands.{
  Command, CommandType, auth_command, clear_command, exit_command, help_command, join_command,
  no_command, rename_command, zero_command,
}
use ipk2024_projekt.Commands.Setup.{name_of}

pub data Request : Type 0 where
  say : List ℕ → Request
  authenticate : List ℕ → List ℕ → List ℕ → Request
  enter : List ℕ → Request
  rename : List ℕ → Request
  help clear leave : Request

abbrev pub type_of : Request → CommandType
type_of (say t) = no_command
type_of (authenticate u s d) = auth_command
type_of (enter c) = join_command
type_of (rename d) = rename_command
type_of help = help_command
type_of clear = clear_command
type_of leave = exit_command

-- A blank, and what follows it.
abbrev pub argument : List ℕ → List ℕ
argument s = b' ' ∷ s

-- What stands behind the name of the command.
abbrev pub arguments_of : Request → List ℕ
arguments_of (say t) = []
arguments_of (authenticate u s d) = argument (u ++ argument (s ++ argument d))
arguments_of (enter c) = argument c
arguments_of (rename d) = argument d
arguments_of _ = []

abbrev pub text_of : Request → List ℕ
text_of (say t) = t
text_of r = b'/' ∷ (name_of (type_of r) ++ arguments_of r)

abbrev pub command_of : Request → Command
command_of (say t) = record zero_command { message = t }
command_of (authenticate u s d) = record zero_command {
  type = auth_command;
  auth = record { display_name = d; username = u; secret = s };
}
command_of (enter c) = record zero_command { type = join_command; join = record { channel_id = c } }
command_of (rename d) = record zero_command {
  type = rename_command;
  rename = record { display_name = d };
}
command_of help = record zero_command { type = help_command }
command_of clear = record zero_command { type = clear_command }
command_of leave = record zero_command { type = exit_command }

-- The byte is neither the blank nor the slash.
abbrev pub starts_text : ℕ → Bool
starts_text x = not (x == b' ') && not (x == b'/')

abbrev pub first_ok : List ℕ → Bool
first_ok [] = false
first_ok (x ∷ xs) = starts_text x

abbrev pub last_ok : List ℕ → Bool
last_ok [] = false
last_ok (x ∷ []) = not (x == b' ')
last_ok (x ∷ (y ∷ xs)) = last_ok (y ∷ xs)

-- The arguments are fields of the protocol; a message begins with no slash, and has no blank at its
-- ends.
abbrev pub IsRequest : Request → Type 0
IsRequest (say t) = IsMessageContent t × (first_ok t ≡ true) × (last_ok t ≡ true)
IsRequest (authenticate u s d) = IsUsername u × IsSecret s × IsDisplayName d
IsRequest (enter c) = IsChannelId c
IsRequest (rename d) = IsDisplayName d
IsRequest _ = Unit {0}
