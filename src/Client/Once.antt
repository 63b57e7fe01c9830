-- ===== src/Client/Once.antt =====
-- A message that the server sends again is confirmed again and handled once.
use ipk2024_projekt.Base.{List, [], arith, false, refl, some, true, ℕ, ◌<◌, ◌^◌, ◌∙◌, ◌∷◌, ◌≡◌}
use ipk2024_projekt.Error.{no_error}
use ipk2024_projekt.Payload.{Payload, confirm, is_confirm}
use ipk2024_projekt.Frame.{Frame, IsValidFrame, confirming, payload_of, saying, type_of}
use ipk2024_projekt.World.{Address, World, chat}
use ipk2024_projekt.Connection.{connection_send, packet, tcp_send, udp_send}
use ipk2024_projekt.Connection.Send.{connection_send-udp, sent}
use ipk2024_projekt.Udp.{serialize_data, udp_serialize}
use ipk2024_projekt.Udp.Wire.{datagram}
use ipk2024_projekt.BitField.{IsBitField, bit_field_contains, bit_field_insert}
use ipk2024_projekt.BitField.Insert.{bit_field_insert_lem}
use ipk2024_projekt.Client.Receive.{FromServer, answered, connection_receive-udp}
use ipk2024_projekt.Client.{client_handle_socket, handle_payload, handle_received, note_received}

-- The client has nothing unconfirmed, and the socket takes what it sends.
pub record IsReady (sender : Address) (w : World) : Type 0 where
  pub server : FromServer sender w
  pub clear : w.error ≡ no_error
  pub no_fails : w.send_fails ≡ []
  pub confirmed : w.current.confirmed ≡ true

-- The answer to every message but a CONFIRM.
abbrev pub confirmed_to : Address → ℕ → World → World
confirmed_to sender id w = sent (datagram id confirming) (answered sender w)

-- A CONFIRM carries no data, so what the union holds is not sent.
confirm-body :
    (p : Payload) (id : ℕ) (w : World)
    → connection_send (record p { type = confirm; id = id }) w
      ≡ connection_send (payload_of id confirming) w
unfolding connection_send udp_send tcp_send udp_serialize serialize_data
confirm-body p id w = refl

module _ (sender : Address) (id : ℕ) (f : Frame) (w : World) (r : IsReady sender w)
    (small : id < 2 ^ 16) (v : IsValidFrame f) (ne : is_confirm (type_of f) ≡ false) where
  handled :
      client_handle_socket (packet sender (datagram id f)) w
      ≡ handle_received (payload_of id f) (confirmed_to sender id w)
  unfolding client_handle_socket
  handled = ground (
    arith,
    ne,
    r.confirmed,
    r.clear,
    connection_receive-udp sender id f w r.server small v,
    confirm-body w.uninit id (answered sender w),
    connection_send-udp id confirming (answered sender w) r.server.in_udp
        (record { no_fails = r.no_fails; clear = r.clear }) tt,
  )

  -- A message whose number was received before is only confirmed.
  pub duplicate_confirmed :
      bit_field_contains w.received_id id ≡ some true
      → client_handle_socket (packet sender (datagram id f)) w ≡ some (tt, confirmed_to sender id w)
  unfolding handle_received note_received
  duplicate_confirmed known = handled ∙ ground (arith, ne, known, r.clear, r.server.in_udp)

  -- A message whose number is new is confirmed, its number is noted, and it is handled.
  pub fresh_handled :
      (field : List ℕ)
      → bit_field_contains w.received_id id ≡ some false
      → bit_field_insert w.received_id id ≡ some field
      → client_handle_socket (packet sender (datagram id f)) w
        ≡ handle_payload
            (type_of f)
            (payload_of id f)
            (record (confirmed_to sender id w) { received_id = field })
  unfolding handle_received note_received
  fresh_handled field new inserted =
      handled ∙ ground (arith, ne, new, inserted, r.clear, r.server.in_udp)

-- In UDP mode, with no error set, a socket that takes what is sent and nothing unconfirmed, a
-- valid MSG datagram of the server that arrives twice, under a number that is new, is written
-- once and confirmed twice.
pub message_once :
    (sender : Address) (id : ℕ) (d c : List ℕ) (w : World)
    → IsReady sender w
    → id < 2 ^ 16
    → IsValidFrame (saying d c)
    → IsBitField w.received_id
    → bit_field_contains w.received_id id ≡ some false
    → (w₁ : World) × (w₂ : World) × (client_handle_socket
          (packet sender (datagram id (saying d c)))
          w
        ≡ some (tt, w₁))
      × (client_handle_socket (packet sender (datagram id (saying d c))) w₁ ≡ some (tt, w₂))
      × (w₁.written ≡ chat d c ∷ w.written)
      × (w₂.written ≡ chat d c ∷ w.written)
      × (w₂.outbox
          ≡ (w₁.address, datagram id confirming) ∷ (w₁.address, datagram id confirming) ∷ w.outbox)
unfolding handle_payload
message_once sender id d c w r small v field new =
    let (field', inserted, ok, after) = bit_field_insert_lem w.received_id id field small in
    let w₁ = record (confirmed_to sender id w) {
      received_id = field';
      written = chat d c ∷ w.written;
    } in
    let server₁ : FromServer sender w₁ = record {
      in_udp = r.server.in_udp;
      same_host = r.server.same_host;
    } in
    let r₁ : IsReady sender w₁ = record {
      server = server₁;
      clear = r.clear;
      no_fails = r.no_fails;
      confirmed = r.confirmed;
    } in
    let known : bit_field_contains field' id ≡ some true = ground (arith, after id) in
    (
      w₁,
      confirmed_to sender id w₁,
      fresh_handled sender id (saying d c) w r small v refl field' new inserted,
      duplicate_confirmed sender id (saying d c) w₁ r₁ small v refl known,
      refl,
      refl,
      refl,
    )
