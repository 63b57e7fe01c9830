-- ===== src/Client/Signal.antt =====
-- What SIGINT and a failing poll make the client send.
use ipk2024_projekt.Base.{arith, false, none, refl, some, ℕ, ◌%◌, ◌+◌, ◌^◌, ◌∷◌, ◌≡◌}
use ipk2024_projekt.Payload.{Payload, PayloadData, bye, payload_new}
use ipk2024_projekt.Frame.{leaving, payload_of}
use ipk2024_projekt.World.{World, end_state, is_start, udp}
use ipk2024_projekt.Udp.{serialize_data, udp_serialize}
use ipk2024_projekt.Tcp.{serialize_type, tcp_serialize}
use ipk2024_projekt.Udp.Wire.{datagram}
use ipk2024_projekt.Connection.{connection_send, tcp_send, udp_send}
use ipk2024_projekt.Connection.Send.{IsClear, connection_send-udp}
use ipk2024_projekt.Client.{client_send, send_new}
use ipk2024_projekt.Client.Handler.{handle_sigint}
use ipk2024_projekt.Client.Loop.{interrupted, loop_body, poll_error_branch, poll_failed}

-- A BYE went out under the next number, and awaits its confirmation.
abbrev pub said_bye : World → World
said_bye w = record w {
  next_message_id = (w.next_message_id + 1) % 2 ^ 16;
  outbox = (w.address, datagram w.next_message_id leaving) ∷ w.outbox;
  current = record (w.current) {
    payload = record { type = bye; body = w.uninit.body; id = w.next_message_id };
    confirmed = false;
    timestamp = w.now;
  };
}

-- A BYE carries no data, so what the union holds is not sent.
bye-body :
    (body : PayloadData) (id : ℕ) (w : World)
    → connection_send (record { type = bye; body = body; id = id }) w
      ≡ connection_send (payload_of id leaving) w
unfolding connection_send udp_send tcp_send tcp_serialize udp_serialize serialize_data
    serialize_type
bye-body body id w = refl

pub client_send-bye :
    (w : World) → w.args.mode ≡ udp → IsClear w → client_send bye none w ≡ some (tt, said_bye w)
unfolding client_send send_new payload_new
client_send-bye w m c =
    let payload : Payload = record { type = bye; body = w.uninit.body; id = w.next_message_id } in
    let numbered = record w {
      next_message_id = (w.next_message_id + 1) % 2 ^ 16;
      current = record (w.current) { payload = payload };
    } in
    ground (
      arith,
      bye-body w.uninit.body w.next_message_id numbered,
      connection_send-udp w.next_message_id leaving numbered m
          (record { no_fails = c.no_fails; clear = c.clear }) tt,
    )

poll_error_branch-udp :
    (w : World)
    → w.args.mode ≡ udp
    → IsClear w
    → poll_error_branch w ≡ some (false, said_bye (record w { state = end_state }))
unfolding poll_error_branch
poll_error_branch-udp w m c = ground (
  arith,
  client_send-bye (record w { state = end_state }) m
      (record { no_fails = c.no_fails; clear = c.clear }),
)

-- In UDP mode, with no error set and a socket that takes what is sent, a SIGINT that interrupts
-- the poll, in any state but Start, makes the client send two BYEs under two numbers: one by the
-- handler, and one since the poll failed.
pub interrupted_two_byes :
    (w : World)
    → w.args.mode ≡ udp
    → IsClear w
    → is_start w.state ≡ false
    → (w' : World) × (loop_body interrupted w ≡ some (false, w'))
      × (w'.state ≡ end_state)
      × (w'.current.confirmed ≡ false)
      × (w'.outbox
          ≡ (w.address, datagram ((w.next_message_id + 1) % 2 ^ 16) leaving)
            ∷ (w.address, datagram w.next_message_id leaving)
            ∷ w.outbox)
unfolding loop_body handle_sigint
interrupted_two_byes w m c running = (
  said_bye (record (said_bye w) { state = end_state }),
  ground (
    arith,
    client_send-bye w m c,
    poll_error_branch-udp (record (said_bye w) { state = end_state }) m
        (record { no_fails = c.no_fails; clear = c.clear }),
  ),
  refl,
  refl,
  refl,
)

-- In UDP mode, with no error set and a socket that takes what is sent, a poll that fails makes the
-- client send a BYE and go on waiting for its confirmation in the End state, also when it is in
-- the Start state and no session was opened.
poll_failed_bye :
    (w : World)
    → w.args.mode ≡ udp
    → IsClear w
    → (w' : World) × (loop_body poll_failed w ≡ some (false, w'))
      × (w'.state ≡ end_state)
      × (w'.current.confirmed ≡ false)
      × (w'.outbox ≡ (w.address, datagram w.next_message_id leaving) ∷ w.outbox)
unfolding loop_body
poll_failed_bye w m c =
    (said_bye (record w { state = end_state }), poll_error_branch-udp w m c, refl, refl, refl)
