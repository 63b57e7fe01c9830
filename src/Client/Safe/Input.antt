-- ===== src/Client/Safe/Input.antt =====
-- Where the handler of the user's input returns.
use ipk2024_projekt.Base.{
  Any, List, Returns, Returns-bind, Returns-from, Returns-if, Returns-ret, Returns-then, ap, arith,
  length, negsuc, none, not, pos, refl, ret, subst, suc, sym, true, zero, ℕ, ℤ, ◌&&◌, ◌++◌, ◌+◌,
  ◌<◌, ◌>>◌, ◌∙◌, ◌∷◌, ◌≡◌, ◌≤◌,
}
use ipk2024_projekt.Error.{get_error, is_set}
use ipk2024_projekt.Bytes.{Bytes, bytes_get, bytes_new, bytes_size}
use ipk2024_projekt.Payload.{
  auth, bye, display_name_len, join, message, message_content_len, zero_data,
}
use ipk2024_projekt.World.{
  authenticating, clear_screen, end_state, help_message, input_notice, is_not_auth, is_open,
  is_start, modify, own_message, run_exec, set_state, usage_notice, write,
}
use ipk2024_projekt.World.Total.{Returns-gets, Returns-modify}
use ipk2024_projekt.Input.{read_line_stdin}
use ipk2024_projekt.Trie.{Trie}
use ipk2024_projekt.Commands.{
  Command, CommandType, auth_command, clear_command, command_parse, exit_command, help_command,
  join_command, no_command, rename_command,
}
use ipk2024_projekt.Commands.Setup.{command_trie}
use ipk2024_projekt.Commands.Trimmed.{length-padded, padded}
use ipk2024_projekt.Commands.Safe.{IsFitCommand}
use ipk2024_projekt.Commands.Safe.Parse.{command_parse-Returns}
use ipk2024_projekt.Client.{client_send}
use ipk2024_projekt.Client.Lines.{IsTyped}
use ipk2024_projekt.Client.Handler.{
  client_handle_command, client_handle_input, handle_auth, handle_join, handle_line, handle_message,
}
use ipk2024_projekt.Client.Safe.{
  IsFit, Returns-unseen, client_send-Returns, client_send_bye-Returns, error_clear-Returns,
  exec-Returns, get_error-Returns, set_state-Returns,
}
use ipk2024_projekt.Client.Safe.Line.{HoldsText, IsBrought, brought_rest, read_line_stdin-Returns}
use ipk2024_projekt.Client.Safe.Receive.{write-Returns}

-- A name within its limit, and lines that are left.
renamed :
    (name : List ℕ)
    → length name ≤ display_name_len
    → Returns IsFit Any (modify (λ w. record w { display_name = name }))
renamed name small =
    Returns-modify (λ w. record w { display_name = name })
      λ w h. record {
        field = h.field;
        payload = h.payload;
        name = small;
        stray_id = h.stray_id;
        trie = h.trie;
        commands = h.commands;
        typed = h.typed;
      }

left_over :
    (rest : List ℕ) → IsTyped rest → Returns IsFit Any (modify (λ w. record w { stdin = rest }))
left_over rest t =
    Returns-modify (λ w. record w { stdin = rest })
      λ w h. record {
        field = h.field;
        payload = h.payload;
        name = h.name;
        stray_id = h.stray_id;
        trie = h.trie;
        commands = h.commands;
        typed = t;
      }

handle_message-Returns :
    (text : List ℕ) → length text ≤ message_content_len → Returns IsFit Any (handle_message text)
unfolding handle_message
handle_message-Returns text fits =
    Returns-gets (λ w. w.state) _
      λ state w h q.
        Returns-gets (λ w. w.display_name) _
          λ name v k r.
            Returns-if (not (is_open state)) _ _ (λ e. write-Returns usage_notice)
              λ e.
                Returns-then (client_send message _) _
                  (client_send-Returns message
                    (record zero_data {
                      message_data = record { display_name = name; message_content = text };
                    })
                    (subst (λ s. length s ≤ display_name_len) (sym r) k.name, fits))
                  (Returns-gets (λ w. w.display_name) _
                    λ shown u l s. write-Returns (own_message shown text))

handle_auth-Returns : (cmd : Command) → IsFitCommand cmd → Returns IsFit Any (handle_auth cmd.auth)
unfolding handle_auth
handle_auth-Returns cmd fit =
    Returns-gets (λ w. w.state) _
      λ state w h q.
        Returns-if (not (is_start state) && not (is_not_auth state)) _ _
          (λ e. write-Returns usage_notice)
          λ e.
            Returns-then (modify (λ w. record w { display_name = cmd.auth.display_name })) _
              (renamed (cmd.auth.display_name) fit.auth_name)
              (Returns-then (client_send auth _) _
                (client_send-Returns auth
                  (record zero_data {
                    auth_data = record {
                      username = cmd.auth.username;
                      display_name = cmd.auth.display_name;
                      secret = cmd.auth.secret;
                    };
                  })
                  (fit.username, fit.auth_name, fit.secret))
                (set_state-Returns authenticating))

handle_join-Returns : (cmd : Command) → IsFitCommand cmd → Returns IsFit Any (handle_join cmd.join)
unfolding handle_join
handle_join-Returns cmd fit =
    Returns-gets (λ w. w.state) _
      λ state w h q.
        Returns-gets (λ w. w.display_name) _
          λ name v k r.
            Returns-if (not (is_open state)) _ _ (λ e. write-Returns usage_notice)
              (λ e.
                client_send-Returns join
                  (record zero_data {
                    join_data = record { channel_id = cmd.join.channel_id; display_name = name };
                  })
                  (fit.channel_id, subst (λ s. length s ≤ display_name_len) (sym r) k.name))

-- A command whose strings are within the limits.
client_handle_command-Returns :
    (type : CommandType) (cmd : Command)
    → IsFitCommand cmd
    → Returns IsFit Any (client_handle_command type cmd)
unfolding client_handle_command
client_handle_command-Returns no_command cmd fit = handle_message-Returns cmd.message fit.message
client_handle_command-Returns auth_command cmd fit = handle_auth-Returns cmd fit
client_handle_command-Returns join_command cmd fit = handle_join-Returns cmd fit
client_handle_command-Returns rename_command cmd fit =
    renamed (cmd.rename.display_name) fit.new_name
client_handle_command-Returns help_command cmd fit = write-Returns help_message
client_handle_command-Returns clear_command cmd fit = write-Returns clear_screen
client_handle_command-Returns exit_command cmd fit =
    Returns-then (set_state end_state) (client_send bye none) (set_state-Returns end_state)
      client_send_bye-Returns

handle_line-Returns : (b : Bytes) → HoldsText b → Returns IsFit Any (handle_line b)
unfolding handle_line
handle_line-Returns b (line, tail, shown, t) =
    Returns-gets (λ w. w.command_trie) _
      λ trie w h q.
        Returns-bind {R = IsFitCommand} (run_exec (command_parse trie (bytes_get b))) _
          (exec-Returns (command_parse trie (bytes_get b)) (parsed trie (q ∙ h.commands)))
          λ cmd fit. Returns-from (run_exec get_error) _ get_error-Returns λ error.
            Returns-if (is_set error) _ _
              (λ e.
                Returns-then (write input_notice) _ (write-Returns input_notice)
                  error_clear-Returns)
              (λ e. client_handle_command-Returns cmd.type cmd fit)
  where
    text : bytes_get b ≡ padded t.before t.behind t.core ++ (0 ∷ tail)
    text = shown ∙ ap (λ l. l ++ (0 ∷ tail)) t.parts

    small : t.before + (length t.core + t.behind) < bytes_size
    small = omega (arith, t.fits, length-padded t.before t.behind t.core, ap length t.parts)

    parsed :
        (trie : Trie)
        → trie ≡ command_trie
        → Returns Any IsFitCommand (command_parse trie (bytes_get b))
    parsed trie e =
        subst (λ u. Returns Any IsFitCommand (command_parse u (bytes_get b))) (sym e)
          (subst (λ s. Returns Any IsFitCommand (command_parse command_trie s)) (sym text)
            (command_parse-Returns t.before t.behind t.core tail t.trimmed small))

pub client_handle_input-Returns : Returns IsFit Any client_handle_input
unfolding client_handle_input
client_handle_input-Returns =
    Returns-gets (λ w. w.stdin_ended) _
      λ ended w h q.
        Returns-gets (λ w. w.stdin) _
          λ input v k r.
            Returns-bind (run_exec (read_line_stdin ended input bytes_new)) _
              (exec-Returns (read_line_stdin ended input bytes_new)
                (read_line_stdin-Returns ended input (subst IsTyped (sym r) k.typed)))
              λ read brought.
                Returns-then (modify (λ w. record w { stdin = read.2 })) _
                  (left_over (read.2) (brought_rest read.0 read.1 read.2 brought))
                  (after read.0 read.1 read.2 brought)
  where
    after :
        (result : ℤ) (b : Bytes) (rest : List ℕ)
        → IsBrought (result, b, rest)
        → Returns IsFit Any (elim result [
          | negsuc _ ↦
              (modify (λ w. record w { stdin_ended = true }))
              >> (client_send bye none >> set_state end_state)
          | pos zero ↦ ret tt
          | pos (suc n) ↦ handle_line b
        ])
    after (negsuc n) b rest h =
        Returns-then (modify (λ w. record w { stdin_ended = true })) _
          (Returns-unseen _ (λ w. refl))
          (Returns-then (client_send bye none) _ client_send_bye-Returns
            (set_state-Returns end_state))
    after (pos zero) b rest h = Returns-ret tt tt
    after (pos (suc n)) b rest (t, holds) = handle_line-Returns b holds
