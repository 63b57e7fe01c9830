-- ===== src/Client/Retry.antt =====
-- Timeouts: how often the last payload is sent again before the client gives up.
use ipk2024_projekt.Base.{
  List, [], arith, false, length, refl, replicate, replicate-append_cons, some, suc, sym, true,
  zero, ℕ, ◌++◌, ◌+◌, ◌<◌, ◌∙◌, ◌∷◌, ◌≡◌, ◌≤◌,
}
use ipk2024_projekt.Frame.{Frame, IsValidFrame, payload_of}
use ipk2024_projekt.World.{World, end_state, udp}
use ipk2024_projekt.Connection.Send.{IsClear, connection_send-udp}
use ipk2024_projekt.Udp.Wire.{datagram}
use ipk2024_projekt.Client.{client_handle_timeout}
use ipk2024_projekt.Client.Loop.{Round, event_loop, loop_body, timed_out}

-- The client waits in UDP mode for the confirmation of a valid message.
pub record Awaits (id : ℕ) (f : Frame) (w : World) : Type 0 where
  pub in_udp : w.args.mode ≡ udp
  pub socket : IsClear w
  pub valid : IsValidFrame f
  pub payload_is : w.current.payload ≡ payload_of id f
  pub unconfirmed : w.current.confirmed ≡ false

abbrev resent : ℕ → Frame → World → World
resent id f w = record w {
  outbox = (w.address, datagram id f) ∷ w.outbox;
  current = record (w.current) { retry_count = w.current.retry_count + 1; timestamp = w.now };
}

retry_once :
    (id : ℕ) (f : Frame) (w : World)
    → Awaits id f w
    → w.current.retry_count < w.args.udp_retransmissions
    → client_handle_timeout w ≡ some (false, resent id f w)
unfolding client_handle_timeout
retry_once id f w a h =
    let counted = record w {
      current = record (w.current) { retry_count = w.current.retry_count + 1 };
    } in
    ground (
      arith,
      a.payload_is,
      connection_send-udp id f counted a.in_udp
          (record { no_fails = a.socket.no_fails; clear = a.socket.clear }) a.valid,
    )

abbrev given_up : World → World
given_up w = record w {
  state = end_state;
  current = record (w.current) { retry_count = w.current.retry_count + 1 };
}

give_up :
    (w : World)
    → w.args.udp_retransmissions ≤ w.current.retry_count
    → client_handle_timeout w ≡ some (true, given_up w)
unfolding client_handle_timeout
give_up w h = ground arith

resent-Awaits : (id : ℕ) (f : Frame) (w : World) → Awaits id f w → Awaits id f (resent id f w)
resent-Awaits id f w a = record {
  in_udp = a.in_udp;
  socket = record { no_fails = a.socket.no_fails; clear = a.socket.clear };
  valid = a.valid;
  payload_is = a.payload_is;
  unconfirmed = a.unconfirmed;
}

-- The same at another time of the clock.
later-Awaits :
    (id time : ℕ) (f : Frame) (w : World) → Awaits id f w → Awaits id f (record w { now = time })
later-Awaits id time f w a = record {
  in_udp = a.in_udp;
  socket = record { no_fails = a.socket.no_fails; clear = a.socket.clear };
  valid = a.valid;
  payload_is = a.payload_is;
  unconfirmed = a.unconfirmed;
}

-- Rounds in which nothing happens but that the poll times out, at the times of a list.
abbrev pub timeouts : List ℕ → List Round
timeouts [] = []
timeouts (time ∷ times) = record { time = time; answer = timed_out } ∷ timeouts times

-- In UDP mode, with no error set and a socket that takes what is sent, a valid message for which
-- no confirmation comes is sent again by the event loop, each time as the same datagram to the
-- same address, as often as retries are left; at the next timeout the loop breaks off in the End
-- state with no further packet. That takes one round more than there are retries left, and any
-- further rounds change nothing.
pub client_gives_up :
    (left id : ℕ) (times : List ℕ) (f : Frame) (w : World)
    → Awaits id f w
    → w.current.retry_count + left ≡ w.args.udp_retransmissions
    → left < length times
    → (w' : World) × (event_loop (timeouts times) w ≡ some (true, w'))
      × (w'.state ≡ end_state)
      × (w'.outbox ≡ replicate left (w.address, datagram id f) ++ w.outbox)
unfolding event_loop loop_body replicate
client_gives_up left id [] f w a e lt = absurd (omega arith)
client_gives_up zero id (time ∷ times) f w a e lt =
    let now : World = record w { now = time } in
    (given_up now, ground (arith, a.unconfirmed, give_up now (omega arith)), refl, refl)
client_gives_up (suc left) id (time ∷ times) f w a e lt =
    let now : World = record w { now = time } in
    let b : Awaits id f now = later-Awaits id time f w a in
    let (w', run, ends, out) =
      client_gives_up left id times f (resent id f now) (resent-Awaits id f now b) (omega arith)
        (omega arith) in
    (
      w',
      ground (arith, a.unconfirmed, retry_once id f now b (omega arith), run),
      ends,
      out ∙ sym (replicate-append_cons left (w.address, datagram id f) w.outbox),
    )
