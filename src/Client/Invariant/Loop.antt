-- ===== src/Client/Invariant/Loop.antt =====
-- The invariant through the event loop.
use ipk2024_projekt.Base.{
  All, Bool, Keeps, Keeps-if, Keeps-ret, Keeps-then, List, M, Option, [], ap, arith, false, length,
  ltb, none, refl, ret, some, subst, true, ℕ, ◌&&◌, ◌+◌, ◌<◌, ◌^◌, ◌∙◌, ◌∷◌, ◌≡◌, ◌≤◌,
}
use ipk2024_projekt.Payload.{bye}
use ipk2024_projekt.Bytes.{bytes_size}
use ipk2024_projekt.BitField.{IsBitField}
use ipk2024_projekt.World.{World, end_state, is_error, is_start, modify, set_state}
use ipk2024_projekt.World.Keeps.{Keeps-gets}
use ipk2024_projekt.Connection.{connection_send}
use ipk2024_projekt.Client.Diagram.{CanBe, Cause, here, unknown, unsure}
use ipk2024_projekt.Client.{client_handle_timeout, client_send, set_current}
use ipk2024_projekt.Client.Handler.{handle_sigint}
use ipk2024_projekt.Client.Loop.{
  Event, Polled, Round, event_loop, handle_event, handle_events, interrupted, is_done, leave_error,
  loop_body, poll_error_branch, poll_failed, polled, socket_event, stdin_event, timed_out,
}
use ipk2024_projekt.Client.Invariant.{
  Inv, Keeps-unseen, client_send-Inv, connection_send-Inv, to_end,
}
use ipk2024_projekt.Client.Invariant.Receive.{client_handle_socket-Inv}
use ipk2024_projekt.Client.Invariant.Input.{client_handle_input-Inv, handle_sigint-Inv}

module _ {cause : Cause} {origin : World} where
  pub client_handle_timeout-Inv : Keeps (Inv cause origin) client_handle_timeout
  unfolding client_handle_timeout
  client_handle_timeout-Inv =
      Keeps-then (set_current (λ c. record c { retry_count = c.retry_count + 1 })) _ counted (
        Keeps-gets (λ w. w.current.retry_count) _
          λ retries w h q.
            Keeps-gets (λ w. w.args.udp_retransmissions) _
              λ limit v k r.
                Keeps-if (ltb limit retries) _ _
                  (λ e. Keeps-then (set_state end_state) (ret true) to_end (Keeps-ret true))
                  (λ e.
                    Keeps-gets (λ w. w.current.payload) _
                      λ payload u j t.
                        Keeps-then (connection_send payload) _ (connection_send-Inv payload)
                          (Keeps-then stamp (ret false) stamped (Keeps-ret false))))
    where
      counted :
          Keeps (Inv cause origin) (set_current (λ c. record c { retry_count = c.retry_count + 1 }))
      counted = Keeps-unseen _ (λ w. (refl, refl, refl, refl, refl, refl))

      stamp : M World (Unit {0})
      stamp = modify (λ w. record w { current = record (w.current) { timestamp = w.now } })

      stamped :
          Keeps
            (Inv cause origin)
            (modify (λ w. record w { current = record (w.current) { timestamp = w.now } }))
      stamped = Keeps-unseen _ (λ w. (refl, refl, refl, refl, refl, refl))

  handle_event-Inv :
      (e : Event) → ((k : Cause) → CanBe cause k) → Keeps (Inv cause origin) (handle_event e)
  unfolding handle_event
  handle_event-Inv (socket_event i) all = client_handle_socket-Inv i all
  handle_event-Inv stdin_event all = client_handle_input-Inv all

  handle_events-Inv :
      (events : List Event)
      → ((k : Cause) → CanBe cause k)
      → Keeps (Inv cause origin) (handle_events events)
  unfolding handle_events
  handle_events-Inv [] all = Keeps-ret tt
  handle_events-Inv (e ∷ events) all =
      Keeps-then (handle_event e) (handle_events events) (handle_event-Inv e all)
        (handle_events-Inv events all)

  pub poll_error_branch-Inv : Keeps (Inv cause origin) poll_error_branch
  unfolding poll_error_branch
  poll_error_branch-Inv = Keeps-then (set_state end_state) _ to_end (
      Keeps-gets (λ w. w.state) _
        λ state w h q.
          Keeps-if (is_start state) (ret true) _ (λ e. Keeps-ret true)
            (λ e.
              Keeps-then (client_send bye none) (ret false) (client_send-Inv bye none)
                (Keeps-ret false)))

  pub leave_error-Inv : Keeps (Inv cause origin) leave_error
  unfolding leave_error
  leave_error-Inv =
      Keeps-gets (λ w. w.state) _
        λ state w h q.
          Keeps-gets (λ w. w.current) _
            λ current v k r.
              Keeps-if (is_error state && current.confirmed) _ (ret tt)
                (λ e.
                  Keeps-then (client_send bye none) (set_state end_state) (client_send-Inv bye none)
                    to_end)
                (λ e. Keeps-ret tt)

  loop_body-Inv :
      (answer : Polled)
      → ((k : Cause) → CanBe cause k)
      → Keeps (Inv cause origin) (loop_body answer)
  unfolding loop_body
  loop_body-Inv poll_failed all = poll_error_branch-Inv
  loop_body-Inv interrupted all =
      Keeps-then handle_sigint poll_error_branch handle_sigint-Inv poll_error_branch-Inv
  loop_body-Inv timed_out all = client_handle_timeout-Inv
  loop_body-Inv (polled events) all =
      Keeps-then (handle_events events) _ (handle_events-Inv events all)
        (Keeps-then leave_error (ret false) leave_error-Inv (Keeps-ret false))

  at_time : (time : ℕ) (w : World) → Inv cause origin w → Inv cause origin (record w { now = time })
  at_time time w h = record {
    path = h.path;
    field = h.field;
    next_id = h.next_id;
    last_id = h.last_id;
    packets = h.packets;
    held = h.held;
  }

-- A loop that came back had ended by its test, left in its round, or went on behind it.
pub data LoopStep (r : Round) (rounds : List Round) (w w' : World) (left : Bool) : Type 0 where
  ended : is_done w ≡ true → w ≡ w' → left ≡ true → LoopStep r rounds w w' left
  broke :
      is_done w ≡ false
      → left ≡ true
      → loop_body r.answer (record w { now = r.time }) ≡ some (true, w')
      → LoopStep r rounds w w' left
  went_on :
      (v : World)
      → is_done w ≡ false
      → loop_body r.answer (record w { now = r.time }) ≡ some (false, v)
      → event_loop rounds v ≡ some (left, w')
      → LoopStep r rounds w w' left

pub event_loop_inv :
    (r : Round) (rounds : List Round) (w w' : World) (left : Bool)
    → event_loop (r ∷ rounds) w ≡ some (left, w')
    → LoopStep r rounds w w' left
unfolding event_loop
event_loop_inv r rounds w w' left e = test (is_done w) refl e
  where
    body :
        (o : Option (Bool × World))
        → is_done w ≡ false
        → loop_body r.answer (record w { now = r.time }) ≡ o
        → (elim o as (λ _. Option (Bool × World)) [
          | none ↦ none
          | some (b, v) ↦ elim b [ true ↦ some (true, v) | false ↦ event_loop rounds v ]
        ])
          ≡ some (left, w')
        → LoopStep r rounds w w' left
    body none d o e = cc
    body (some (true, v)) d o e =
        broke d (ground (arith, e))
          (o ∙ ap (λ v. some (true, v)) (let q : v ≡ w' = ground (arith, e) in q))
    body (some (false, v)) d o e = went_on v d o e

    test :
        (b : Bool)
        → is_done w ≡ b
        → (elim b as (λ _. Option (Bool × World)) [
          | true ↦ some (true, w)
          | false ↦ elim (loop_body r.answer (record w { now = r.time })) [
            | none ↦ none
            | some (b, v) ↦ elim b [ true ↦ some (true, v) | false ↦ event_loop rounds v ]
          ]
        ])
          ≡ some (left, w')
        → LoopStep r rounds w w' left
    test true d e = ended d (ground (arith, e)) (ground (arith, e))
    test false d e = body (loop_body r.answer (record w { now = r.time })) d refl e

module _ {origin : World} where
  round-Inv :
      (r : Round) (w w' : World) (left : Bool)
      → Inv unknown origin w
      → loop_body r.answer (record w { now = r.time }) ≡ some (left, w')
      → Inv unknown origin w'
  round-Inv r w w' left h e =
      (loop_body-Inv r.answer (λ k. unsure)).at (record w { now = r.time }) w' left
        (at_time r.time w h) e

  rounds-Inv :
      (rounds : List Round) (w w' : World) (left : Bool)
      → Inv unknown origin w
      → event_loop rounds w ≡ some (left, w')
      → Inv unknown origin w'
  unfolding event_loop
  rounds-Inv [] w w' left h e =
      subst (Inv unknown origin) (let q : w ≡ w' = ground (arith, e) in q) h
  rounds-Inv (r ∷ rounds) w w' left h e =
      by_step (event_loop_inv r rounds w w' left e) (λ v k. rounds-Inv rounds v w' left k)
    where
      by_step :
          LoopStep r rounds w w' left
          → ((v : World)
              → Inv unknown origin v
              → event_loop rounds v ≡ some (left, w')
              → Inv unknown origin w')
          → Inv unknown origin w'
      by_step (ended d q l) rest = subst (Inv unknown origin) q h
      by_step (broke d l q) rest = round-Inv r w w' true h q
      by_step (went_on v d q l) rest = rest v (round-Inv r w v false h q) l

-- The set of received numbers is a bit field of bytes, the numbers fit 16 bits, and no packet that was
-- sent is longer than a buffer.
pub record IsSound (w : World) : Type 0 where
  pub field : IsBitField w.received_id
  pub next_id : w.next_message_id < 2 ^ 16
  pub last_id : w.current.payload.id < 2 ^ 16
  pub packets : All (λ p. length p.1 ≤ bytes_size) w.outbox

pub loop-Inv :
    (rounds : List Round) (w w' : World) (left : Bool)
    → IsSound w
    → event_loop rounds w ≡ some (left, w')
    → Inv unknown w w'
loop-Inv rounds w w' left s e =
    rounds-Inv rounds w w' left
      (record {
        path = here;
        field = s.field;
        next_id = s.next_id;
        last_id = s.last_id;
        packets = s.packets;
        held = refl;
      })
      e
