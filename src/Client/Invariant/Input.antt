-- ===== src/Client/Invariant/Input.antt =====
-- The invariant through the handler of the user's input, and that of the signal.
use ipk2024_projekt.Base.{
  Keeps, Keeps-bind, Keeps-if, Keeps-ret, Keeps-then, List, M, if◌then◌else◌, negsuc, none, not,
  pos, refl, ret, some, subst, suc, sym, true, zero, ℕ, ℤ, ◌&&◌, ◌>>=◌, ◌>>◌,
}
use ipk2024_projekt.Error.{error_clear, get_error, is_set}
use ipk2024_projekt.Bytes.{Bytes, bytes_get, bytes_new}
use ipk2024_projekt.Input.{read_line_stdin}
use ipk2024_projekt.Payload.{PayloadData, auth, bye, join, message, zero_data}
use ipk2024_projekt.Commands.{
  Command, CommandAuthData, CommandJoinData, CommandType, auth_command, clear_command,
  command_parse, exit_command, help_command, join_command, no_command, rename_command,
}
use ipk2024_projekt.World.{
  Output, World, authenticating, clear_screen, end_state, help_message, input_notice, is_not_auth,
  is_open, is_start, modify, own_message, run_exec, set_state, usage_notice, write,
}
use ipk2024_projekt.World.Keeps.{Keeps-gets, Keeps-run_exec}
use ipk2024_projekt.Client.Diagram.{CanBe, Cause, Way, auth-Way, typed}
use ipk2024_projekt.Client.{client_send}
use ipk2024_projekt.Client.Handler.{
  client_handle_command, client_handle_input, handle_auth, handle_join, handle_line, handle_message,
  handle_sigint,
}
use ipk2024_projekt.Client.Invariant.{
  Inv, Inv-blind, Keeps-unseen, client_send-Inv, set_state-Inv, to_end,
}

-- What follows the parsing of a line.
abbrev pub after_parse : Command → M World (Unit {0})
after_parse cmd = do
  error ← run_exec get_error
  if is_set error
      then (do write input_notice; run_exec error_clear)
      else client_handle_command cmd.type cmd

module _ {cause : Cause} {origin : World} where
  write-Inv : (o : Output) → Keeps (Inv cause origin) (write o)
  write-Inv o = Keeps-unseen _ (λ w. (refl, refl, refl, refl, refl, refl))

  set_name-Inv :
      (name : List ℕ) → Keeps (Inv cause origin) (modify (λ w. record w { display_name = name }))
  set_name-Inv name = Keeps-unseen _ (λ w. (refl, refl, refl, refl, refl, refl))

  handle_message-Inv : (text : List ℕ) → Keeps (Inv cause origin) (handle_message text)
  unfolding handle_message
  handle_message-Inv text =
      Keeps-gets (λ w. w.state) _
        λ state w h q.
          Keeps-gets (λ w. w.display_name) _
            λ name v k r.
              Keeps-if (not (is_open state)) _ _ (λ e. write-Inv usage_notice)
                λ e.
                  Keeps-then (client_send message (some (chat_data name))) _
                    (client_send-Inv message _)
                    (Keeps-gets (λ w. w.display_name) (λ shown. write (own_message shown text))
                      λ shown u j t. write-Inv (own_message shown text))
    where
      chat_data : List ℕ → PayloadData
      chat_data name = record zero_data {
        message_data = record { display_name = name; message_content = text };
      }

  handle_auth-Inv :
      (d : CommandAuthData)
      → CanBe cause (typed auth_command)
      → Keeps (Inv cause origin) (handle_auth d)
  unfolding handle_auth
  handle_auth-Inv d may =
      Keeps-gets (λ w. w.state) _
        λ state w h q.
          Keeps-if (not (is_start state) && not (is_not_auth state)) _ _
            (λ e. write-Inv usage_notice)
            λ counts.
              Keeps-then (modify (λ w. record w { display_name = d.display_name })) _
                (set_name-Inv d.display_name)
                (Keeps-then (client_send auth (some auth_data)) (set_state authenticating)
                  (client_send-Inv auth _)
                  (set_state-Inv authenticating (λ v k.
                    auth-Way state may counts
                      (subst (λ s. Way cause origin.state s) (sym q) h.path))))
    where
      auth_data : PayloadData
      auth_data = record zero_data {
        auth_data = record {
          username = d.username;
          display_name = d.display_name;
          secret = d.secret;
        };
      }

  handle_join-Inv : (d : CommandJoinData) → Keeps (Inv cause origin) (handle_join d)
  unfolding handle_join
  handle_join-Inv d =
      Keeps-gets (λ w. w.state) _
        λ state w h q.
          Keeps-gets (λ w. w.display_name) _
            λ name v k r.
              Keeps-if (not (is_open state)) _
                (client_send join (
                  some (record zero_data {
                    join_data = record { channel_id = d.channel_id; display_name = name };
                  })))
                (λ e. write-Inv usage_notice) (λ e. client_send-Inv join _)

  client_handle_command-Inv :
      (type : CommandType) (cmd : Command)
      → CanBe cause (typed type)
      → Keeps (Inv cause origin) (client_handle_command type cmd)
  unfolding client_handle_command
  client_handle_command-Inv no_command cmd may = handle_message-Inv cmd.message
  client_handle_command-Inv auth_command cmd may = handle_auth-Inv cmd.auth may
  client_handle_command-Inv join_command cmd may = handle_join-Inv cmd.join
  client_handle_command-Inv rename_command cmd may = set_name-Inv cmd.rename.display_name
  client_handle_command-Inv help_command cmd may = write-Inv help_message
  client_handle_command-Inv clear_command cmd may = write-Inv clear_screen
  client_handle_command-Inv exit_command cmd may =
      Keeps-then (set_state end_state) (client_send bye none) to_end (client_send-Inv bye none)

  pub after_parse-Inv :
      (cmd : Command) → CanBe cause (typed cmd.type) → Keeps (Inv cause origin) (after_parse cmd)
  after_parse-Inv cmd may =
      Keeps-bind (run_exec get_error) _ (Keeps-run_exec Inv-blind get_error) λ error.
        Keeps-if (is_set error) _ _
          (λ e.
            Keeps-then (write input_notice) (run_exec error_clear) (write-Inv input_notice)
              (Keeps-run_exec Inv-blind error_clear))
          (λ e. client_handle_command-Inv cmd.type cmd may)

  handle_line-Inv :
      (b : Bytes) → ((k : Cause) → CanBe cause k) → Keeps (Inv cause origin) (handle_line b)
  unfolding handle_line
  handle_line-Inv b all =
      Keeps-gets (λ w. w.command_trie) _
        λ trie w h q.
          Keeps-bind (run_exec (command_parse trie (bytes_get b))) after_parse
            (Keeps-run_exec Inv-blind (command_parse trie (bytes_get b)))
            λ cmd. after_parse-Inv cmd (all (typed cmd.type))

  -- What the end of stdin does.
  pub at_end-Inv : Keeps (Inv cause origin) (
      modify (λ w. record w { stdin_ended = true })
      >> (client_send bye none >> set_state end_state))
  at_end-Inv =
      Keeps-then (modify (λ w. record w { stdin_ended = true })) _
        (Keeps-unseen _ (λ w. (refl, refl, refl, refl, refl, refl)))
        (Keeps-then (client_send bye none) (set_state end_state) (client_send-Inv bye none) to_end)

  pub client_handle_input-Inv :
      ((k : Cause) → CanBe cause k) → Keeps (Inv cause origin) client_handle_input
  unfolding client_handle_input
  client_handle_input-Inv all =
      Keeps-gets (λ w. w.stdin_ended) _
        λ ended w h q.
          Keeps-gets (λ w. w.stdin) _
            λ input v k r.
              Keeps-bind (run_exec (read_line_stdin ended input bytes_new)) _
                (Keeps-run_exec Inv-blind (read_line_stdin ended input bytes_new))
                λ (result, buffer, rest).
                  Keeps-then (modify (λ w. record w { stdin = rest })) _ (set_stdin-Inv rest)
                    (by_result buffer result)
    where
      set_stdin-Inv :
          (rest : List ℕ) → Keeps (Inv cause origin) (modify (λ w. record w { stdin = rest }))
      set_stdin-Inv rest = Keeps-unseen _ (λ w. (refl, refl, refl, refl, refl, refl))

      by_result :
          (buffer : Bytes) (result : ℤ)
          → Keeps (Inv cause origin) (elim result as (λ _. M World (Unit {0})) [
            | negsuc _ ↦
                modify (λ w. record w { stdin_ended = true })
                >> (client_send bye none >> set_state end_state)
            | pos zero ↦ ret tt
            | pos (suc n) ↦ handle_line buffer
          ])
      by_result buffer (negsuc n) = at_end-Inv
      by_result buffer (pos zero) = Keeps-ret tt
      by_result buffer (pos (suc n)) = handle_line-Inv buffer all

  pub handle_sigint-Inv : Keeps (Inv cause origin) handle_sigint
  unfolding handle_sigint
  handle_sigint-Inv =
      Keeps-gets (λ w. w.state) _
        λ state w h q.
          Keeps-then (if not (is_start state) then client_send bye none else ret tt)
            (set_state end_state)
            (Keeps-if (not (is_start state)) _ _ (λ e. client_send-Inv bye none)
              (λ e. Keeps-ret tt))
            to_end
