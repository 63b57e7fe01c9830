-- ===== src/Commands/Safe/Arguments.antt =====
-- Where the arguments of a command are read.
use ipk2024_projekt.Base.{arith}
use ipk2024_projekt.Payload.{
  channel_id_len, display_name_len, is_valid_display_name, is_valid_id, is_valid_message_content,
  message_content_len, read_channel_id, read_display_name, read_message_content, read_secret,
  read_username, secret_len, username_len,
}
use ipk2024_projekt.Commands.{
  CommandType, auth_command, check_rest, clear_command, exit_command, help_command, join_command,
  no_command, parse_arguments, parse_auth, rename_command, zero_command,
}
use ipk2024_projekt.Commands.Safe.{
  Goes, IsFitCommand, Reads, check_rest-Goes, read-Reads, read_argument-Returns, skip_space-Returns,
}

read_username-Reads : Reads username_len read_username
unfolding read_username
read_username-Reads = read-Reads is_valid_id username_len

read_secret-Reads : Reads secret_len read_secret
unfolding read_secret
read_secret-Reads = read-Reads is_valid_id secret_len

read_channel_id-Reads : Reads channel_id_len read_channel_id
unfolding read_channel_id
read_channel_id-Reads = read-Reads is_valid_id channel_id_len

read_display_name-Reads : Reads display_name_len read_display_name
unfolding read_display_name
read_display_name-Reads = read-Reads is_valid_display_name display_name_len

read_message_content-Reads : Reads message_content_len read_message_content
unfolding read_message_content
read_message_content-Reads = read-Reads is_valid_message_content message_content_len

parse_auth-Goes : Goes parse_auth
unfolding parse_auth
parse_auth-Goes cmd b h s =
    read_argument-Returns read_username username_len cmd.auth.username b
      (λ t. record cmd { auth = record (cmd.auth) { username = t } }) _ read_username-Reads
      h.username
      (λ t q. record {
        message = h.message;
        username = q;
        secret = h.secret;
        auth_name = h.auth_name;
        channel_id = h.channel_id;
        new_name = h.new_name;
      })
      s
      λ cmd b h s. skip_space-Returns cmd b _ h s λ cmd b h s.
        read_argument-Returns read_secret secret_len cmd.auth.secret b
          (λ t. record cmd { auth = record (cmd.auth) { secret = t } }) _ read_secret-Reads h.secret
          (λ t q. record {
            message = h.message;
            username = h.username;
            secret = q;
            auth_name = h.auth_name;
            channel_id = h.channel_id;
            new_name = h.new_name;
          })
          s
          λ cmd b h s. skip_space-Returns cmd b _ h s λ cmd b h s.
            read_argument-Returns read_display_name display_name_len cmd.auth.display_name b
              (λ t. record cmd { auth = record (cmd.auth) { display_name = t } }) check_rest
              read_display_name-Reads h.auth_name
              (λ t q. record {
                message = h.message;
                username = h.username;
                secret = h.secret;
                auth_name = q;
                channel_id = h.channel_id;
                new_name = h.new_name;
              })
              s check_rest-Goes

pub parse_arguments-Goes : (type : CommandType) → Goes (parse_arguments type)
unfolding parse_arguments
parse_arguments-Goes no_command cmd b h s =
    read_argument-Returns read_message_content message_content_len cmd.message b
      (λ t. record cmd { message = t }) check_rest read_message_content-Reads h.message
      (λ t q. record {
        message = q;
        username = h.username;
        secret = h.secret;
        auth_name = h.auth_name;
        channel_id = h.channel_id;
        new_name = h.new_name;
      })
      s check_rest-Goes
parse_arguments-Goes auth_command cmd b h s = parse_auth-Goes cmd b h s
parse_arguments-Goes join_command cmd b h s =
    read_argument-Returns read_channel_id channel_id_len cmd.join.channel_id b
      (λ t. record cmd { join = record { channel_id = t } }) check_rest read_channel_id-Reads
      h.channel_id
      (λ t q. record {
        message = h.message;
        username = h.username;
        secret = h.secret;
        auth_name = h.auth_name;
        channel_id = q;
        new_name = h.new_name;
      })
      s check_rest-Goes
parse_arguments-Goes rename_command cmd b h s =
    read_argument-Returns read_display_name display_name_len cmd.rename.display_name b
      (λ t. record cmd { rename = record { display_name = t } }) check_rest read_display_name-Reads
      h.new_name
      (λ t q. record {
        message = h.message;
        username = h.username;
        secret = h.secret;
        auth_name = h.auth_name;
        channel_id = h.channel_id;
        new_name = q;
      })
      s check_rest-Goes
parse_arguments-Goes help_command cmd b h s = check_rest-Goes cmd b h s
parse_arguments-Goes clear_command cmd b h s = check_rest-Goes cmd b h s
parse_arguments-Goes exit_command cmd b h s = check_rest-Goes cmd b h s

pub zero_command-IsFitCommand :
    (type : CommandType) → IsFitCommand (record zero_command { type = type })
zero_command-IsFitCommand type = record {
  message = omega arith;
  username = omega arith;
  secret = omega arith;
  auth_name = omega arith;
  channel_id = omega arith;
  new_name = omega arith;
}
