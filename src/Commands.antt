-- ===== src/Commands.antt =====
-- src/commands.h and src/commands.c: what a line of user input is parsed into.
pub mod Setup
pub mod Depth
pub mod Safe
pub mod Request
pub mod Fields
pub mod Named
pub mod Trimmed
pub mod Text
pub mod RoundTrip
pub mod Unknown
use ipk2024_projekt.Base.{
  Bool, List, M, [], access, codes, drop, false, get_elem?, if◌then◌else◌, ltb, negsuc, none, not,
  pos, ret, some, suc, zero, ℕ, ℤ, ◌++◌, ◌+◌, ◌-◌, ◌==◌, ◌>>=◌, ◌>>◌, ◌||◌, ◌∷◌,
}
use ipk2024_projekt.Error.{Exec, invalid_input, is_set, set_error}
use ipk2024_projekt.Bytes.{
  Bytes, bytes_get, bytes_new, bytes_push_c_str, bytes_skip_first_n, bytes_trim,
}
use ipk2024_projekt.Payload.{
  read, read_channel_id, read_display_name, read_message_content, read_secret, read_username,
}
use ipk2024_projekt.Trie.{Memory, Trie, trie_insert, trie_match_prefix, trie_new}

pub data CommandType : Type 0 where
  no_command auth_command join_command rename_command : CommandType
  help_command clear_command exit_command : CommandType

pub record CommandAuthData : Type 0 where
  pub display_name : List ℕ
  pub username : List ℕ
  pub secret : List ℕ

pub record CommandJoinData : Type 0 where
  pub channel_id : List ℕ

pub record CommandRenameData : Type 0 where
  pub display_name : List ℕ

-- The members of the union are fields of the record.
pub record Command : Type 0 where
  pub type : CommandType
  pub message : List ℕ
  pub auth : CommandAuthData
  pub join : CommandJoinData
  pub rename : CommandRenameData

-- The values of the enumeration; those of the commands are stored in the trie.
abbrev pub to_value : CommandType → ℕ
to_value no_command = 0
to_value auth_command = 1
to_value join_command = 2
to_value rename_command = 3
to_value help_command = 4
to_value clear_command = 5
to_value exit_command = 6

abbrev pub of_value : ℕ → CommandType
of_value v =
    if v == 1
    then auth_command
    else if v == 2
    then join_command
    else if v == 3
    then rename_command
    else if v == 4
    then help_command
    else if v == 5
    then clear_command
    else if v == 6
    then exit_command
    else no_command

unfoldable pub command_char_to_index : ℕ → ℤ
command_char_to_index ch = if ltb ch b'a' || ltb b'z' ch then negsuc 0 else pos (ch - b'a')

abbrev pub commands : List (List ℕ × CommandType)
commands =
    (codes "auth", auth_command)
    ∷ (codes "join", join_command)
    ∷ (codes "rename", rename_command)
    ∷ (codes "help", help_command)
    ∷ (codes "clear", clear_command)
    ∷ (codes "exit", exit_command)
    ∷ []

-- The loop of `command_setup`, which goes on after an error.
unfoldable pub insert_commands : List (List ℕ × CommandType) → Trie → M Memory Trie
insert_commands [] trie = ret trie
insert_commands ((name, type) ∷ rest) trie = do
  trie' ← trie_insert command_char_to_index trie (name ++ (0 ∷ [])) (pos (to_value type))
  insert_commands rest trie'

unfoldable pub command_setup : M Memory Trie
command_setup = do
  trie ← trie_new
  λ m. if is_set m.error then some (trie, m) else insert_commands commands trie m

abbrev pub command_prefix_length : CommandType → ℕ
command_prefix_length no_command = 0
command_prefix_length auth_command = 5
command_prefix_length join_command = 5
command_prefix_length help_command = 5
command_prefix_length exit_command = 5
command_prefix_length clear_command = 6
command_prefix_length rename_command = 7

-- `Command cmd = {0}`
abbrev pub zero_command : Command
zero_command = record {
  type = no_command;
  message = [];
  auth = record { display_name = []; username = []; secret = [] };
  join = record { channel_id = [] };
  rename = record { display_name = [] };
}

-- `set_error(Error_InvalidInput); return cmd`
abbrev pub reject : Command → Exec Command
reject cmd = do set_error invalid_input; ret cmd

-- READ: `put` stores the string in its member.
unfoldable pub read_argument :
    (List ℕ → Bytes → Exec (ℤ × List ℕ))
    → List ℕ
    → Bytes
    → (List ℕ → Command)
    → (Command → Bytes → Exec Command)
    → Exec Command
read_argument reader dest buffer put next = do
  (read, dest') ← reader dest buffer
  elim read [
    | negsuc _ ↦ reject (put dest')
    | pos zero ↦ reject (put dest')
    | pos (suc n) ↦ next (put dest') (bytes_skip_first_n buffer (suc n))
  ]

-- SKIP_SPACE
unfoldable pub skip_space : Command → Bytes → (Command → Bytes → Exec Command) → Exec Command
skip_space cmd buffer next = do
  ch ← access (get_elem? (bytes_get buffer) 0)
  if not (ch == b' ') then reject cmd else next cmd (bytes_skip_first_n buffer 1)

-- The check behind the switch.
unfoldable pub check_rest : Command → Bytes → Exec Command
check_rest cmd buffer = do
  if not (buffer.len == 0) then set_error invalid_input else ret tt
  ret cmd

unfoldable pub parse_auth : Command → Bytes → Exec Command
parse_auth cmd b =
    read_argument read_username cmd.auth.username b
      (λ s. record cmd { auth = record (cmd.auth) { username = s } })
      λ cmd b. skip_space cmd b λ cmd b.
        read_argument read_secret cmd.auth.secret b
          (λ s. record cmd { auth = record (cmd.auth) { secret = s } })
          λ cmd b. skip_space cmd b λ cmd b.
            read_argument read_display_name cmd.auth.display_name b
              (λ s. record cmd { auth = record (cmd.auth) { display_name = s } }) check_rest

-- The switch on the command's type.
unfoldable pub parse_arguments : CommandType → Command → Bytes → Exec Command
parse_arguments no_command cmd b =
    read_argument read_message_content cmd.message b (λ s. record cmd { message = s }) check_rest
parse_arguments auth_command cmd b = parse_auth cmd b
parse_arguments join_command cmd b =
    read_argument read_channel_id cmd.join.channel_id b
      (λ s. record cmd { join = record { channel_id = s } }) check_rest
parse_arguments rename_command cmd b =
    read_argument read_display_name cmd.rename.display_name b
      (λ s. record cmd { rename = record { display_name = s } }) check_rest
parse_arguments _ cmd b = check_rest cmd b

-- `maybe_command <= 0 ? CommandType_None : maybe_command`
abbrev pub command_type : ℤ → CommandType
command_type (negsuc _) = no_command
command_type (pos v) = of_value v

-- What follows the trimming. `typed` is `cmd` with its type stored.
unfoldable pub parse_trimmed : Trie → Bytes → Exec Command
parse_trimmed trie buffer = if buffer.len == 0 then reject zero_command else do
  let slice = bytes_get buffer
  first ← access (get_elem? slice 0)
  maybe_command ←
      if first == b'/'
      then access (trie_match_prefix command_char_to_index trie (drop 1 slice))
      else ret (negsuc 0)
  let type' = command_type maybe_command
  let cmd_offset = command_prefix_length type'
  let typed = record zero_command { type = type' }
  ending ← access (get_elem? slice cmd_offset)
  if ending == b' '
      then parse_arguments type' typed (bytes_skip_first_n buffer (cmd_offset + 1))
      else if ending == 0
      then parse_arguments type' typed (bytes_skip_first_n buffer cmd_offset)
      else parse_arguments no_command zero_command buffer

-- Whether `strlen` finds an end in the bytes that can be read at its argument.
abbrev pub has_nul : List ℕ → Bool
has_nul [] = false
has_nul (x ∷ xs) = x == 0 || has_nul xs

unfoldable pub command_parse : Trie → List ℕ → Exec Command
command_parse trie str = if not (has_nul str) then access none else do
  pushed ← bytes_push_c_str bytes_new str
  (trimmed, count) ← bytes_trim pushed b' '
  parse_trimmed trie trimmed
