-- ===== src/Client/Stale.antt =====
-- A malformed packet that comes while the client waits for a confirmation: the error that it sets
-- stays set, and is found when the next packet is handled.
use ipk2024_projekt.Base.{List, arith, codes, false, refl, some, ℕ, ◌<◌, ◌^◌, ◌∷◌, ◌≡◌}
use ipk2024_projekt.Error.{invalid_payload, no_error}
use ipk2024_projekt.Bytes.{received}
use ipk2024_projekt.Payload.{Payload, is_confirm, is_valid_message_content}
use ipk2024_projekt.Frame.{IsDisplayName, IsMessageContent, confirming, failing, payload_of}
use ipk2024_projekt.World.{Address, World, error_state, malformed_notice, udp}
use ipk2024_projekt.Connection.{connection_receive, packet, udp_receive}
use ipk2024_projekt.Connection.Send.{IsClear}
use ipk2024_projekt.Udp.{udp_deserialize}
use ipk2024_projekt.Udp.Wire.{datagram}
use ipk2024_projekt.Client.Receive.{FromServer, answered, connection_receive-udp}
use ipk2024_projekt.Client.Send.{awaiting, client_send-udp}
use ipk2024_projekt.Client.{client_handle_socket, handle_received, send_malformed}

abbrev pub malformed_text : List ℕ
malformed_text = codes "Received malformed payload"

malformed_text-IsMessageContent : IsMessageContent malformed_text
unfolding is_valid_message_content
malformed_text-IsMessageContent = record {
  valid = ground arith;
  some_byte = omega arith;
  fits = omega arith;
}

-- The ERR goes out under the next number, and the state is Error.
pub send_malformed-udp :
    (w : World)
    → w.args.mode ≡ udp
    → IsClear w
    → IsDisplayName w.display_name
    → send_malformed w
      ≡ some
          (tt, record (awaiting (failing w.display_name malformed_text) w) { state = error_state })
unfolding send_malformed
send_malformed-udp w m c v = ground (
  arith,
  client_send-udp (failing w.display_name malformed_text) w m c
      (v, malformed_text-IsMessageContent),
)

module _ (sender : Address) (bytes : List ℕ) (p : Payload) (w : World)
    (server : FromServer sender w) (clear : w.error ≡ no_error)
    (unconfirmed : w.current.confirmed ≡ false) (not_confirm : is_confirm p.type ≡ false)
    (malformed : udp_deserialize (received bytes) no_error ≡ some (p, invalid_payload)) where
  abbrev stale : World
  stale = record (answered sender w) { error = invalid_payload }

  -- The packet is dropped, and the error stays.
  error_stays : client_handle_socket (packet sender bytes) w ≡ some (tt, stale)
  unfolding client_handle_socket connection_receive udp_receive
  error_stays = ground (arith, server.in_udp, server.same_host, clear, malformed, not_confirm)

-- A malformed packet of the server that is no CONFIRM arrives while the client waits in UDP mode,
-- with no error set, a valid display name and a socket that takes what is sent, and then the
-- CONFIRM of the last payload, which is well formed. The client takes it for malformed: it does
-- not note the confirmation, makes an ERR its last payload and goes to the Error state.
pub stale_error :
    (sender : Address) (bytes : List ℕ) (p : Payload) (w : World)
    → FromServer sender w
    → IsClear w
    → IsDisplayName w.display_name
    → w.current.payload.id < 2 ^ 16
    → w.current.confirmed ≡ false
    → is_confirm p.type ≡ false
    → udp_deserialize (received bytes) no_error ≡ some (p, invalid_payload)
    → (w₁ : World) × (w₂ : World) × (client_handle_socket (packet sender bytes) w ≡ some (tt, w₁))
      × (client_handle_socket (packet sender (datagram w.current.payload.id confirming)) w₁
          ≡ some (tt, w₂))
      × (w₂.state ≡ error_state)
      × (w₂.current.confirmed ≡ false)
      × (w₂.current.payload ≡ payload_of w.next_message_id (failing w.display_name malformed_text))
unfolding client_handle_socket handle_received
stale_error sender bytes p w server c name small un ne bad =
    let w₁ = record (answered sender w) { error = invalid_payload } in
    let cleared = record (answered sender w₁) {
      error = no_error;
      written = malformed_notice ∷ w.written;
    } in
    let w₂ = record (awaiting (failing w.display_name malformed_text) cleared) {
      state = error_state;
    } in
    let server₁ : FromServer sender w₁ = record {
      in_udp = server.in_udp;
      same_host = server.same_host;
    } in
    let id = w.current.payload.id in
    let got = connection_receive-udp sender id confirming w₁ server₁ small tt in
    let answer =
      send_malformed-udp cleared server.in_udp (record { no_fails = c.no_fails; clear = refl })
        name in
    (
      w₁,
      w₂,
      error_stays sender bytes p w server c.clear un ne bad,
      ground (arith, got, answer),
      refl,
      refl,
      refl,
    )
