-- ===== src/Connection/Send.antt =====
-- What CONNECTION.send hands to the socket for a valid message.
use ipk2024_projekt.Base.{
  List, [], arith, length, length-append, replicate, some, take-append, true, ℕ, ◌-◌, ◌∷◌, ◌≡◌,
}
use ipk2024_projekt.Error.{no_error}
use ipk2024_projekt.Bytes.{bytes_size}
use ipk2024_projekt.Bytes.Push.{holding}
use ipk2024_projekt.Frame.{Frame, IsValidFrame, payload_of}
use ipk2024_projekt.World.{World, udp}
use ipk2024_projekt.Udp.Wire.{datagram}
use ipk2024_projekt.Udp.Serialize.{udp_serialize-datagram}
use ipk2024_projekt.Connection.{connection_send, transmit, udp_send}

-- The socket takes every packet, and no error is set.
pub record IsClear (w : World) : Type 0 where
  pub no_fails : w.send_fails ≡ []
  pub clear : w.error ≡ no_error

abbrev pub sent : List ℕ → World → World
sent bytes w = record w { outbox = (w.address, bytes) ∷ w.outbox }

transmit-holding :
    (bytes : List ℕ) (w : World)
    → w.send_fails ≡ []
    → transmit (holding bytes) w ≡ some (true, sent bytes w)
unfolding transmit
transmit-holding bytes w h = ground (
  arith,
  h,
  take-append bytes (replicate (bytes_size - length bytes) 0),
  length-append bytes (replicate (bytes_size - length bytes) 0),
)

-- In UDP mode a valid message is sent as its datagram to the server's address.
pub connection_send-udp :
    (id : ℕ) (f : Frame) (w : World)
    → w.args.mode ≡ udp
    → IsClear w
    → IsValidFrame f
    → connection_send (payload_of id f) w ≡ some (tt, sent (datagram id f) w)
unfolding connection_send udp_send
connection_send-udp id f w m c v =
    ground (arith, udp_serialize-datagram id f v, transmit-holding (datagram id f) w c.no_fails)
