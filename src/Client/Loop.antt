-- ===== src/Client/Loop.antt =====
-- src/client.c: the event loop, over what each round of `epoll_wait` brings.
use ipk2024_projekt.Base.{
  Bool, List, M, [], false, if◌then◌else◌, none, ret, some, true, ℕ, ◌&&◌, ◌>>=◌, ◌>>◌, ◌∷◌,
}
use ipk2024_projekt.Error.{get_error, is_set}
use ipk2024_projekt.Payload.{bye}
use ipk2024_projekt.World.{
  Args, World, end_state, gets, is_end, is_error, is_start, run_exec, set_state,
}
use ipk2024_projekt.Connection.{Incoming}
use ipk2024_projekt.Client.{client_handle_socket, client_handle_timeout, client_send}
use ipk2024_projekt.Client.Handler.{client_handle_input, handle_sigint}
use ipk2024_projekt.Client.Init.{client_init}
use ipk2024_projekt.Client.Shutdown.{client_shutdown}

pub data Event : Type 0 where
  socket_event : Incoming → Event
  stdin_event : Event

-- What `epoll_wait` answers; `interrupted` is its failure after SIGINT was handled.
pub data Polled : Type 0 where
  poll_failed interrupted timed_out : Polled
  polled : List Event → Polled

-- A round of the loop: the time that the clock shows from then on, and the answer.
pub record Round : Type 0 where
  pub time : ℕ
  pub answer : Polled

unfoldable pub handle_event : Event → M World (Unit {0})
handle_event (socket_event incoming) = client_handle_socket incoming
handle_event stdin_event = client_handle_input

unfoldable pub handle_events : List Event → M World (Unit {0})
handle_events [] = ret tt
handle_events (e ∷ events) = do handle_event e; handle_events events

-- The branch of a negative answer. The test comes after the assignment, as in the source.
unfoldable pub poll_error_branch : M World Bool
poll_error_branch = do
  set_state end_state
  state ← gets (λ w. w.state)
  if is_start state then ret true else do client_send bye none; ret false

-- The check behind the events.
unfoldable pub leave_error : M World (Unit {0})
leave_error = do
  state ← gets (λ w. w.state)
  current ← gets (λ w. w.current)
  if is_error state && current.confirmed
      then (do client_send bye none; set_state end_state)
      else ret tt

-- The body of the loop. `true` stands for `break`.
unfoldable pub loop_body : Polled → M World Bool
loop_body poll_failed = poll_error_branch
loop_body interrupted = do handle_sigint; poll_error_branch
loop_body timed_out = client_handle_timeout
loop_body (polled events) = do handle_events events; leave_error; ret false

abbrev pub is_done : World → Bool
is_done w = is_end w.state && w.current.confirmed

-- The loop over the rounds to come. `false` means that it still waits behind the last of them.
unfoldable pub event_loop : List Round → M World Bool
event_loop [] w = some (is_done w, w)
event_loop (r ∷ rounds) w = elim (is_done w) [
  | true ↦ some (true, w)
  | false ↦ elim (loop_body r.answer (record w { now = r.time })) [
    | none ↦ none
    | some (left, w') ↦ elim left [ true ↦ some (true, w') | false ↦ event_loop rounds w' ]
  ]
]

-- `false` means that it still waits behind the last of the rounds.
unfoldable pub client_run : Args → List Round → M World Bool
client_run args rounds = do
  client_init args
  error ← run_exec get_error
  if is_set error
      then (do client_shutdown; ret true)
      else do left ← event_loop rounds; if left then (do client_shutdown; ret true) else ret false
