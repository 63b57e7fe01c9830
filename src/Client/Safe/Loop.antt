-- ===== src/Client/Safe/Loop.antt =====
-- Where the event loop goes on.
use ipk2024_projekt.Base.{
  All, Any, Bool, Bool-cases, List, Returns, Returns-if, Returns-ret, Returns-then, [], arith,
  false, if◌then◌else◌, inl, inr, ltb, none, not, refl, ret, some, subst, sym, true, ◌&&◌, ◌+◌, ◌∷◌,
  ◌≡◌,
}
use ipk2024_projekt.Payload.{bye}
use ipk2024_projekt.Payload.Fits.{Fits}
use ipk2024_projekt.World.{World, end_state, is_error, is_start, modify, set_state}
use ipk2024_projekt.World.Total.{Returns-gets}
use ipk2024_projekt.Connection.{connection_send}
use ipk2024_projekt.Client.{client_handle_socket, client_handle_timeout, client_send}
use ipk2024_projekt.Client.Handler.{client_handle_input, handle_sigint}
use ipk2024_projekt.Client.Loop.{
  Event, Polled, Round, event_loop, handle_event, handle_events, interrupted, is_done, leave_error,
  loop_body, poll_error_branch, poll_failed, polled, socket_event, stdin_event, timed_out,
}
use ipk2024_projekt.Client.Safe.{
  IsFit, IsFit-seen, Returns-unseen, client_send_bye-Returns, connection_send-Returns,
  set_state-Returns,
}
use ipk2024_projekt.Client.Safe.Input.{client_handle_input-Returns}
use ipk2024_projekt.Client.Safe.Receive.{IsData, client_handle_socket-Returns}

client_handle_timeout-Returns : Returns IsFit Any client_handle_timeout
unfolding client_handle_timeout
client_handle_timeout-Returns = Returns-then (modify count) _ (Returns-unseen count (λ w. refl)) (
    Returns-gets (λ w. w.current.retry_count) _
      λ retries w h q.
        Returns-gets (λ w. w.args.udp_retransmissions) _
          λ limit v k r.
            Returns-if (ltb limit retries) _ _
              (λ e.
                Returns-then (set_state end_state) (ret true) (set_state-Returns end_state)
                  (Returns-ret true tt))
              (λ e.
                Returns-gets (λ w. w.current.payload) _
                  λ payload u j t.
                    Returns-then (connection_send payload) _
                      (connection_send-Returns payload (subst Fits (sym t) j.payload))
                      (Returns-then (modify stamp) (ret false) (Returns-unseen stamp (λ w. refl))
                        (Returns-ret false tt))))
  where
    count : World → World
    count w = record w { current = record (w.current) { retry_count = w.current.retry_count + 1 } }

    stamp : World → World
    stamp w = record w { current = record (w.current) { timestamp = w.now } }

-- What comes in on the socket are bytes.
abbrev pub CarriesBytes : Event → Type 0
CarriesBytes (socket_event i) = IsData i
CarriesBytes stdin_event = Unit {0}

-- What the events bring that are polled are bytes.
abbrev pub BringsBytes : Polled → Type 0
BringsBytes (polled events) = All CarriesBytes events
BringsBytes _ = Unit {0}

handle_events-Returns :
    (events : List Event) → All CarriesBytes events → Returns IsFit Any (handle_events events)
unfolding handle_events handle_event
handle_events-Returns [] h = Returns-ret tt tt
handle_events-Returns (socket_event i ∷ events) (hi, rest) =
    Returns-then (client_handle_socket i) (handle_events events) (client_handle_socket-Returns i hi)
      (handle_events-Returns events rest)
handle_events-Returns (stdin_event ∷ events) (h, rest) =
    Returns-then client_handle_input (handle_events events) client_handle_input-Returns
      (handle_events-Returns events rest)

poll_error_branch-Returns : Returns IsFit Any poll_error_branch
unfolding poll_error_branch
poll_error_branch-Returns = Returns-then (set_state end_state) _ (set_state-Returns end_state) (
    Returns-gets (λ w. w.state) _
      λ state w h q.
        Returns-if (is_start state) (ret true) _ (λ e. Returns-ret true tt)
          (λ e.
            Returns-then (client_send bye none) (ret false) client_send_bye-Returns
              (Returns-ret false tt)))

handle_sigint-Returns : Returns IsFit Any handle_sigint
unfolding handle_sigint
handle_sigint-Returns =
    Returns-gets (λ w. w.state) _
      λ state w h q.
        Returns-then (if not (is_start state) then client_send bye none else ret tt)
          (set_state end_state)
          (Returns-if (not (is_start state)) _ _ (λ e. client_send_bye-Returns)
            (λ e. Returns-ret tt tt))
          (set_state-Returns end_state)

leave_error-Returns : Returns IsFit Any leave_error
unfolding leave_error
leave_error-Returns =
    Returns-gets (λ w. w.state) _
      λ state w h q.
        Returns-gets (λ w. w.current) _
          λ current v k r.
            Returns-if (is_error state && current.confirmed) _ (ret tt)
              (λ e.
                Returns-then (client_send bye none) (set_state end_state) client_send_bye-Returns
                  (set_state-Returns end_state))
              (λ e. Returns-ret tt tt)

loop_body-Returns : (answer : Polled) → BringsBytes answer → Returns IsFit Any (loop_body answer)
unfolding loop_body
loop_body-Returns poll_failed h = poll_error_branch-Returns
loop_body-Returns interrupted h =
    Returns-then handle_sigint poll_error_branch handle_sigint-Returns poll_error_branch-Returns
loop_body-Returns timed_out h = client_handle_timeout-Returns
loop_body-Returns (polled events) h =
    Returns-then (handle_events events) _ (handle_events-Returns events h)
      (Returns-then leave_error (ret false) leave_error-Returns (Returns-ret false tt))

-- One round, where the loop returns from the world that the round leaves.
module _ (r : Round) (rounds : List Round) (quiet : BringsBytes r.answer)
    (rest : (w : World)
      → IsFit w
      → (left : Bool) × (w' : World) × (event_loop rounds w ≡ some (left, w')) × IsFit w') where
  round_returns :
      (w : World)
      → IsFit w
      → (left : Bool) × (w' : World) × (event_loop (r ∷ rounds) w ≡ some (left, w')) × IsFit w'
  unfolding event_loop
  round_returns w h = elim (Bool-cases (is_done w)) [
    | inl over ↦ (true, w, ground (arith, over), h)
    | inr going ↦
        let now : World = record w { now = r.time } in
        let (left, t, ran, fit, any) =
          (loop_body-Returns r.answer quiet).at now (IsFit-seen now w refl h) in
        elim (Bool-cases left) [
          | inl leaves ↦ (true, t, ground (arith, going, ran, leaves), fit)
          | inr stays ↦
              let (left', w', ran', fit') = rest t fit in
              (left', w', ground (arith, going, ran, stays, ran'), fit')
        ]
  ]

-- Whatever bytes the server sends, and whenever the input ends or the poll times out, fails or is
-- interrupted, the event loop does not fault as long as every line that the user types is empty,
-- or has no NUL, is shorter than the buffer and has something between its blanks, and the buffer
-- holds what follows the last newline: from globals within the limits of the fields, with the
-- tries that command_setup and, in TCP mode, tcp_setup make, it comes to the end of the rounds,
-- or leaves before, and the globals are within the limits again.
pub event_loop_safe :
    (rounds : List Round) (w : World)
    → IsFit w
    → All (λ r. BringsBytes r.answer) rounds
    → (left : Bool) × (w' : World) × (event_loop rounds w ≡ some (left, w')) × IsFit w'
unfolding event_loop
event_loop_safe [] w h quiet = (is_done w, w, refl, h)
event_loop_safe (r ∷ rounds) w h (q, quiet) =
    round_returns r rounds q (λ v k. event_loop_safe rounds v k quiet) w h
