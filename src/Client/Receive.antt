-- ===== src/Client/Receive.antt =====
-- What the client does with a packet of the server in UDP mode.
use ipk2024_projekt.Base.{
  List, [], ap, arith, false, if◌then◌else◌, length, refl, replicate, some, take-ge, true, ℕ, ◌-◌,
  ◌<◌, ◌==◌, ◌^◌, ◌∙◌, ◌≡◌, ◌≢◌,
}
use ipk2024_projekt.Error.{Error, no_error}
use ipk2024_projekt.Bytes.{bytes_size, received}
use ipk2024_projekt.Bytes.View.{view}
use ipk2024_projekt.Payload.{is_confirm}
use ipk2024_projekt.Frame.{Frame, IsValidFrame, confirming, payload_of, type_of}
use ipk2024_projekt.World.{Address, World, udp}
use ipk2024_projekt.Connection.{connection_receive, packet, udp_receive}
use ipk2024_projekt.Udp.{udp_deserialize}
use ipk2024_projekt.Udp.Wire.{datagram}
use ipk2024_projekt.Udp.RoundTrip.{length-datagram, udp_deserialize-datagram}
use ipk2024_projekt.Client.{
  client_handle_socket, handle_confirm, handle_payload, handle_received, note_received,
}

-- The client is in UDP mode, and the sender is the server, from whatever port.
pub record FromServer (sender : Address) (w : World) : Type 0 where
  pub in_udp : w.args.mode ≡ udp
  pub same_host : sender.sin_addr ≡ w.address.sin_addr

-- The port of the last packet is the one to send to.
abbrev pub answered : Address → World → World
answered sender w = record w { address = record (w.address) { sin_port = sender.sin_port } }

received-datagram :
    (id : ℕ) (f : Frame) (error : Error)
    → id < 2 ^ 16
    → IsValidFrame f
    → udp_deserialize (received (datagram id f)) error ≡ some (payload_of id f, error)
received-datagram id f error h v =
    ap (λ kept. udp_deserialize (view [] kept (replicate (bytes_size - length kept) 0)) error)
      (take-ge bytes_size (datagram id f) (omega (arith, length-datagram id f v)))
    ∙ udp_deserialize-datagram id f _ error h v (omega (arith, length-datagram id f v))

pub connection_receive-udp :
    (sender : Address) (id : ℕ) (f : Frame) (w : World)
    → FromServer sender w
    → id < 2 ^ 16
    → IsValidFrame f
    → connection_receive (packet sender (datagram id f)) w
      ≡ some (payload_of id f, answered sender w)
unfolding connection_receive udp_receive
connection_receive-udp sender id f w s h v =
    ground (arith, s.same_host, received-datagram id f w.error h v)

-- In UDP mode, with no error set, a packet from another host changes nothing.
pub wrong_address_ignored :
    (sender : Address) (bytes : List ℕ) (w : World)
    → w.args.mode ≡ udp
    → w.error ≡ no_error
    → sender.sin_addr ≢ w.address.sin_addr
    → client_handle_socket (packet sender bytes) w ≡ some (tt, w)
unfolding client_handle_socket connection_receive udp_receive
wrong_address_ignored sender bytes w m e h = ground arith

-- In UDP mode, with no error set, a CONFIRM of the server confirms the last payload exactly if it
-- carries its number, and then resets the retry count; nothing else changes but the port.
pub confirm_received :
    (sender : Address) (id : ℕ) (w : World)
    → FromServer sender w
    → w.error ≡ no_error
    → id < 2 ^ 16
    → client_handle_socket (packet sender (datagram id confirming)) w
      ≡ some (
        tt,
        record (answered sender w) {
          current =
              if id == w.current.payload.id
              then record (w.current) { confirmed = true; retry_count = 0 }
              else w.current;
        },
      )
unfolding client_handle_socket handle_received handle_confirm handle_payload note_received
confirm_received sender id w s clear h =
    ground (arith, connection_receive-udp sender id confirming w s h tt)

-- In UDP mode, with no error set, while the last payload is not confirmed, any valid message of
-- the server other than a CONFIRM is dropped: no answer is sent, nothing is written, and nothing
-- changes but the port.
pub unconfirmed_drops :
    (sender : Address) (id : ℕ) (f : Frame) (w : World)
    → FromServer sender w
    → w.error ≡ no_error
    → id < 2 ^ 16
    → IsValidFrame f
    → f ≢ confirming
    → w.current.confirmed ≡ false
    → client_handle_socket (packet sender (datagram id f)) w ≡ some (tt, answered sender w)
unfolding client_handle_socket
unconfirmed_drops sender id f w s clear h v ne un =
    ground (arith, connection_receive-udp sender id f w s h v, not_confirm f ne)
  where
    not_confirm : (f : Frame) → f ≢ confirming → is_confirm (type_of f) ≡ false
    not_confirm confirming ne = absurd (ne refl)
    not_confirm _ ne = refl
