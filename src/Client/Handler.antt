-- ===== src/Client/Handler.antt =====
-- src/client.c: the handler of the user's input, and that of the signal.
use ipk2024_projekt.Base.{
  List, M, if◌then◌else◌, negsuc, none, not, pos, ret, some, suc, true, zero, ℕ, ◌&&◌, ◌>>=◌, ◌>>◌,
}
use ipk2024_projekt.Payload.{auth, bye, join, message, zero_data}
use ipk2024_projekt.World.{
  World, authenticating, clear_screen, end_state, gets, help_message, input_notice, is_not_auth,
  is_open, is_start, modify, own_message, run_exec, set_state, usage_notice, write,
}
use ipk2024_projekt.Commands.{
  Command, CommandAuthData, CommandJoinData, CommandType, auth_command, clear_command,
  command_parse, exit_command, help_command, join_command, no_command, rename_command,
}
use ipk2024_projekt.Error.{error_clear, get_error, is_set}
use ipk2024_projekt.Bytes.{Bytes, bytes_get, bytes_new}
use ipk2024_projekt.Input.{read_line_stdin}
use ipk2024_projekt.Client.{client_send}

-- The case of a chat message.
unfoldable pub handle_message : List ℕ → M World (Unit {0})
handle_message text = do
  state ← gets (λ w. w.state)
  name ← gets (λ w. w.display_name)
  if not (is_open state) then write usage_notice else do
    client_send message (
        some (record zero_data {
          message_data = record { display_name = name; message_content = text };
        }))
    shown ← gets (λ w. w.display_name)
    write (own_message shown text)

unfoldable pub handle_auth : CommandAuthData → M World (Unit {0})
handle_auth d = do
  state ← gets (λ w. w.state)
  if not (is_start state) && not (is_not_auth state) then write usage_notice else do
    modify (λ w. record w { display_name = d.display_name })
    client_send auth (
        some (record zero_data {
          auth_data = record {
            username = d.username;
            display_name = d.display_name;
            secret = d.secret;
          };
        }))
    set_state authenticating

unfoldable pub handle_join : CommandJoinData → M World (Unit {0})
handle_join d = do
  state ← gets (λ w. w.state)
  name ← gets (λ w. w.display_name)
  if not (is_open state)
      then write usage_notice
      else client_send join (
          some (record zero_data {
            join_data = record { channel_id = d.channel_id; display_name = name };
          }))

-- The switch on the command's type.
unfoldable pub client_handle_command : CommandType → Command → M World (Unit {0})
client_handle_command no_command cmd = handle_message cmd.message
client_handle_command auth_command cmd = handle_auth cmd.auth
client_handle_command join_command cmd = handle_join cmd.join
client_handle_command rename_command cmd =
    modify (λ w. record w { display_name = cmd.rename.display_name })
client_handle_command help_command cmd = write help_message
client_handle_command clear_command cmd = write clear_screen
client_handle_command exit_command cmd = do set_state end_state; client_send bye none

-- What follows the reading of a line that is not empty.
unfoldable pub handle_line : Bytes → M World (Unit {0})
handle_line buffer = do
  trie ← gets (λ w. w.command_trie)
  cmd ← run_exec (command_parse trie (bytes_get buffer))
  error ← run_exec get_error
  if is_set error
      then (do write input_notice; run_exec error_clear)
      else client_handle_command cmd.type cmd

unfoldable pub client_handle_input : M World (Unit {0})
client_handle_input = do
  ended ← gets (λ w. w.stdin_ended)
  input ← gets (λ w. w.stdin)
  (result, buffer, rest) ← run_exec (read_line_stdin ended input bytes_new)
  modify (λ w. record w { stdin = rest })
  elim result [
    | negsuc _ ↦ do
      modify (λ w. record w { stdin_ended = true })
      client_send bye none
      set_state end_state
    | pos zero ↦ ret tt
    | pos (suc n) ↦ handle_line buffer
  ]

unfoldable pub handle_sigint : M World (Unit {0})
handle_sigint = do
  state ← gets (λ w. w.state)
  if not (is_start state) then client_send bye none else ret tt
  set_state end_state
