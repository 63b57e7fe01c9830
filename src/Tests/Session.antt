-- ===== src/Tests/Session.antt =====
-- The client's handlers in a session.
use ipk2024_projekt.Base.{
  [], ap, arith, false, if◌then◌else◌, refl, replicate, some, sym, true, ◌++◌, ◌==◌, ◌∷◌, ◌≡◌,
}
use ipk2024_projekt.Error.{invalid_payload, no_error}
use ipk2024_projekt.Bytes.{bytes_skip_first_n, received}
use ipk2024_projekt.Payload.{other, zero_payload}
use ipk2024_projekt.Frame.{IsValidFrame, confirming, failing, joining, leaving, payload_of, saying}
use ipk2024_projekt.World.{World, chat, end_state, error_state, udp}
use ipk2024_projekt.BitField.{bit_field_contains}
use ipk2024_projekt.Connection.{packet}
use ipk2024_projekt.Udp.{deserialize_data, read_message_id, udp_deserialize}
use ipk2024_projekt.Udp.Wire.{datagram}
use ipk2024_projekt.Client.{client_handle_socket}
use ipk2024_projekt.Client.Retry.{client_gives_up, timeouts}
use ipk2024_projekt.Client.Loop.{event_loop}
use ipk2024_projekt.Client.Receive.{
  FromServer, answered, confirm_received, unconfirmed_drops, wrong_address_ignored,
}
use ipk2024_projekt.Client.Once.{IsReady, message_once}
use ipk2024_projekt.Client.Stale.{malformed_text, stale_error}
use ipk2024_projekt.Tests.Sample.{
  answering, bob, bob-IsDisplayName, empty_field, empty_field-IsBitField, hello,
  hello-IsMessageContent, room, room-IsChannelId, server, session, stranger, waiting,
}

from_server : (w : World) → w.args.mode ≡ udp → w.address ≡ server → FromServer answering w
from_server w m a = record { in_udp = m; same_host = ap (λ s. s.sin_addr) (sym a) }

session-IsReady : IsReady answering session
session-IsReady = record {
  server = from_server session refl refl;
  clear = refl;
  no_fails = refl;
  confirmed = refl;
}

joining_valid : IsValidFrame (joining room bob)
joining_valid = (room-IsChannelId, bob-IsDisplayName)

client_gives_up_example :
    (w' : World) × (event_loop (timeouts (1600 ∷ 1850 ∷ 2100 ∷ [])) waiting ≡ some (true, w'))
    × (w'.state ≡ end_state)
    × (w'.outbox ≡ replicate 2 (server, datagram 1 (joining room bob)) ++ [])
client_gives_up_example =
    client_gives_up 2 1 (1600 ∷ 1850 ∷ 2100 ∷ []) (joining room bob) waiting
      (record {
        in_udp = refl;
        socket = record { no_fails = refl; clear = refl };
        valid = joining_valid;
        payload_is = refl;
        unconfirmed = refl;
      })
      refl (omega arith)

wrong_address_ignored_example :
    client_handle_socket (packet stranger (datagram 1 confirming)) waiting ≡ some (tt, waiting)
wrong_address_ignored_example =
    wrong_address_ignored stranger (datagram 1 confirming) waiting refl refl (omega arith)

confirm_received_example :
    client_handle_socket (packet answering (datagram 1 confirming)) waiting
    ≡ some (
      tt,
      record (answered answering waiting) {
        current =
            if 1 == waiting.current.payload.id
            then record (waiting.current) { confirmed = true; retry_count = 0 }
            else waiting.current;
      },
    )
confirm_received_example =
    confirm_received answering 1 waiting (from_server waiting refl refl) refl (omega arith)

unconfirmed_drops_example :
    client_handle_socket (packet answering (datagram 9 leaving)) waiting
    ≡ some (tt, answered answering waiting)
unconfirmed_drops_example =
    unconfirmed_drops answering 9 leaving waiting (from_server waiting refl refl) refl (omega arith)
      tt (ground arith) refl

number_5_new : bit_field_contains empty_field 5 ≡ some false
unfolding bit_field_contains replicate
number_5_new = refl

message_once_example :
    (w₁ : World) × (w₂ : World) × (client_handle_socket
        (packet answering (datagram 5 (saying bob hello)))
        session
      ≡ some (tt, w₁))
    × (client_handle_socket (packet answering (datagram 5 (saying bob hello))) w₁ ≡ some (tt, w₂))
    × (w₁.written ≡ chat bob hello ∷ [])
    × (w₂.written ≡ chat bob hello ∷ [])
    × (w₂.outbox ≡ (w₁.address, datagram 5 confirming) ∷ (w₁.address, datagram 5 confirming) ∷ [])
message_once_example =
    message_once answering 5 bob hello session session-IsReady (omega arith)
      (bob-IsDisplayName, hello-IsMessageContent) empty_field-IsBitField number_5_new

-- A packet of the unknown type 7.
unknown_type :
    udp_deserialize (received (7 ∷ 0 ∷ 1 ∷ [])) no_error
    ≡ some (record zero_payload { type = other 7; id = 1 }, invalid_payload)
unfolding udp_deserialize deserialize_data read_message_id bytes_skip_first_n replicate
unknown_type = refl

stale_error_example :
    (w₁ : World) × (w₂ : World) × (client_handle_socket (packet answering (7 ∷ 0 ∷ 1 ∷ [])) waiting
      ≡ some (tt, w₁))
    × (client_handle_socket (packet answering (datagram 1 confirming)) w₁ ≡ some (tt, w₂))
    × (w₂.state ≡ error_state)
    × (w₂.current.confirmed ≡ false)
    × (w₂.current.payload ≡ payload_of 2 (failing bob malformed_text))
stale_error_example =
    stale_error answering (7 ∷ 0 ∷ 1 ∷ []) (record zero_payload { type = other 7; id = 1 }) waiting
      (from_server waiting refl refl) (record { no_fails = refl; clear = refl }) bob-IsDisplayName
      (omega arith) refl refl unknown_type
