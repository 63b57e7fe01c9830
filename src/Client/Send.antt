-- ===== src/Client/Send.antt =====
-- `client_send` on a valid message.
use ipk2024_projekt.Base.{arith, false, some, ◌%◌, ◌+◌, ◌^◌, ◌∷◌, ◌≡◌}
use ipk2024_projekt.Payload.{payload_new}
use ipk2024_projekt.Frame.{Frame, IsValidFrame, data_of, payload_of, type_of}
use ipk2024_projekt.World.{World, udp}
use ipk2024_projekt.Connection.Send.{IsClear, connection_send-udp}
use ipk2024_projekt.Udp.Wire.{datagram}
use ipk2024_projekt.Client.{client_send, send_new}

-- The message went out under the next number, and now awaits its confirmation.
abbrev pub awaiting : Frame → World → World
awaiting f w = record w {
  next_message_id = (w.next_message_id + 1) % 2 ^ 16;
  outbox = (w.address, datagram w.next_message_id f) ∷ w.outbox;
  current = record (w.current) {
    payload = payload_of w.next_message_id f;
    confirmed = false;
    timestamp = w.now;
  };
}

-- In UDP mode `client_send` sends a valid message under the next number, keeps it for a retry and
-- waits for its confirmation; the number after it comes next, modulo 2 ^ 16.
pub client_send-udp :
    (f : Frame) (w : World)
    → w.args.mode ≡ udp
    → IsClear w
    → IsValidFrame f
    → client_send (type_of f) (some (data_of f)) w ≡ some (tt, awaiting f w)
unfolding client_send send_new payload_new
client_send-udp f w m c v =
    let numbered = record w {
      next_message_id = (w.next_message_id + 1) % 2 ^ 16;
      current = record (w.current) { payload = payload_of w.next_message_id f };
    } in
    ground (
      arith,
      connection_send-udp w.next_message_id f numbered m
          (record { no_fails = c.no_fails; clear = c.clear }) v,
    )
