-- ===== src/Tests/Sample.antt =====
-- Messages and worlds for the runs.
use ipk2024_projekt.Base.{
  All, List, [], arith, codes, false, length-replicate, none, replicate, some, suc, true, zero, ℕ,
  ◌++◌, ◌<◌, ◌∷◌,
}
use ipk2024_projekt.Error.{no_error}
use ipk2024_projekt.Payload.{
  is_valid_display_name, is_valid_id, is_valid_message_content, zero_payload,
}
use ipk2024_projekt.Frame.{IsChannelId, IsDisplayName, IsMessageContent, joining, payload_of}
use ipk2024_projekt.World.{Address, World, open_state, poll_ready, start, udp}
use ipk2024_projekt.Trie.{null}
use ipk2024_projekt.Input.Line.{newline}
use ipk2024_projekt.Commands.Request.{IsRequest, Request, authenticate, text_of}
use ipk2024_projekt.Commands.Trimmed.{padded}
use ipk2024_projekt.Commands.Setup.{command_trie}
use ipk2024_projekt.BitField.{IsBitField, bit_field_size}

abbrev pub bob : List ℕ
bob = codes "Bob"

abbrev pub room : List ℕ
room = codes "room-1"

abbrev pub hello : List ℕ
hello = codes "hello, world"

pub bob-IsDisplayName : IsDisplayName bob
unfolding is_valid_display_name
bob-IsDisplayName = record { valid = ground arith; some_byte = omega arith; fits = omega arith }

pub room-IsChannelId : IsChannelId room
unfolding is_valid_id
room-IsChannelId = record { valid = ground arith; some_byte = omega arith; fits = omega arith }

pub hello-IsMessageContent : IsMessageContent hello
unfolding is_valid_message_content
hello-IsMessageContent = record {
  valid = ground arith;
  some_byte = omega arith;
  fits = omega arith;
}

abbrev pub server : Address
server = record { sin_addr = 42; sin_port = 4567 }

-- The server answers from another port.
abbrev pub answering : Address
answering = record { sin_addr = 42; sin_port = 50000 }

abbrev pub stranger : Address
stranger = record { sin_addr = 43; sin_port = 4567 }

abbrev pub empty_field : List ℕ
empty_field = replicate bit_field_size 0

zeros-bytes : (n : ℕ) → All (λ x. x < 256) (replicate n 0)
unfolding replicate
zeros-bytes zero = tt
zeros-bytes (suc n) = (omega arith, zeros-bytes n)

pub empty_field-IsBitField : IsBitField empty_field
empty_field-IsBitField = record {
  size = length-replicate bit_field_size 0;
  bytes = zeros-bytes bit_field_size;
}

-- An open session in UDP mode with nothing unconfirmed.
abbrev pub session : World
session = record {
  error = no_error;
  state = open_state;
  args = record {
    mode = udp;
    host = codes "localhost";
    port = 4567;
    udp_timeout = 250;
    udp_retransmissions = 3;
    help = false;
  };
  address = server;
  received_id = empty_field;
  display_name = bob;
  current = record {
    payload = payload_of 1 (joining room bob);
    confirmed = true;
    executed = false;
    retry_count = 0;
    timestamp = 1000;
  };
  next_message_id = 2;
  tcp_trie = null;
  command_trie = command_trie;
  stdin = [];
  stdin_ended = false;
  network = record {
    socket_given = true;
    non_blocking = true;
    resolved = some server;
    connecting = true;
    poll_answer = poll_ready;
    epolls_created = true;
    stdin_added = true;
    socket_added = true;
    socket_added_stdin = true;
  };
  denials = [];
  blocks = 0;
  has_field = true;
  has_connection = true;
  has_address = true;
  old_block = empty_field;
  uninit = zero_payload;
  now = 1500;
  send_fails = [];
  outbox = [];
  written = [];
}

-- The same session while the last message is not confirmed, after one retry.
abbrev pub waiting : World
waiting = record session {
  current = record {
    payload = payload_of 1 (joining room bob);
    confirmed = false;
    executed = false;
    retry_count = 1;
    timestamp = 1000;
  };
}

-- `/auth xuser00 secret Bob`
abbrev pub login_request : Request
login_request = authenticate (codes "xuser00") (codes "secret") bob

pub login_request-IsRequest : IsRequest login_request
unfolding is_valid_id is_valid_display_name
login_request-IsRequest = (
  record { valid = ground arith; some_byte = omega arith; fits = omega arith },
  record { valid = ground arith; some_byte = omega arith; fits = omega arith },
  bob-IsDisplayName,
)

-- The client before the login, with the line of the request on stdin.
abbrev pub at_login : World
at_login = record session {
  state = start;
  stdin = padded 1 0 (text_of login_request) ++ (newline ∷ codes "hi");
}

-- A network in which no name is known, and one in which an epoll call fails.
abbrev pub nameless : World
nameless = record session { network = record (session.network) { resolved = none } }

abbrev pub unpolled : World
unpolled = record session { network = record (session.network) { socket_added = false } }
