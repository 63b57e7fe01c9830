-- ===== src/Client/Trace.antt =====
-- The client's state through the event loop, with what moves it.
pub mod Loop
use ipk2024_projekt.Base.{
  List, Option, arith, negsuc, none, pos, refl, some, subst, suc, sym, true, zero, ℕ, ℤ, ◌>>◌, ◌≡◌,
}
use ipk2024_projekt.Error.{Error}
use ipk2024_projekt.Bytes.{Bytes, bytes_get, bytes_new}
use ipk2024_projekt.Payload.{Payload, bye}
use ipk2024_projekt.Input.{read_line_stdin}
use ipk2024_projekt.Commands.{Command, command_parse}
use ipk2024_projekt.World.{World, end_state, modify, set_state}
use ipk2024_projekt.Connection.{Incoming, connection_receive}
use ipk2024_projekt.Client.{client_handle_socket, client_send}
use ipk2024_projekt.Client.Handler.{client_handle_input, handle_line}
use ipk2024_projekt.Client.Diagram.{Cause, certain, got_payload, here, no_event, typed}
use ipk2024_projekt.Client.Loop.{Event, handle_event, socket_event, stdin_event}
use ipk2024_projekt.Client.Invariant.{Inv}
use ipk2024_projekt.Client.Invariant.Receive.{
  after_receive, after_receive-Inv, connection_receive-Inv,
}
use ipk2024_projekt.Client.Invariant.Input.{after_parse, after_parse-Inv, at_end-Inv}
use ipk2024_projekt.Client.Invariant.Loop.{IsSound}

-- What an event brings: the payload that the socket gives, or the command that the line on stdin is
-- parsed into.
abbrev pub cause_of : Event → World → Cause
cause_of (socket_event i) w = elim (connection_receive i w) [
  | none ↦ no_event
  | some (p, v) ↦ got_payload p.type p.body.reply_data.result
]
cause_of stdin_event w = elim (read_line_stdin w.stdin_ended w.stdin bytes_new w.error) [
  | none ↦ no_event
  | some (line, e) ↦ elim (command_parse w.command_trie (bytes_get line.1) e) [
    | none ↦ no_event
    | some (cmd, e') ↦ typed cmd.type
  ]
]

-- The invariant at its origin.
pub IsSound-Inv : (cause : Cause) (w : World) → IsSound w → Inv cause w w
IsSound-Inv cause w s = record {
  path = here;
  field = s.field;
  next_id = s.next_id;
  last_id = s.last_id;
  packets = s.packets;
  held = refl;
}

socket_event-Inv :
    (i : Incoming) (w w' : World)
    → IsSound w
    → client_handle_socket i w ≡ some (tt, w')
    → Inv (cause_of (socket_event i) w) w w'
unfolding client_handle_socket
socket_event-Inv i w w' s e = go (connection_receive i w) refl
  where
    go :
        (r : Option (Payload × World))
        → connection_receive i w ≡ r
        → Inv (cause_of (socket_event i) w) w w'
    go none q = absurd (ground (arith, e, q))
    go (some (p, v)) q =
        let k : Cause = got_payload p.type p.body.reply_data.result in
        let same : cause_of (socket_event i) w ≡ k = ground (arith, q) in
        let rest : after_receive p v ≡ some (tt, w') = ground (arith, e, q) in
        subst (λ c. Inv c w w') (sym same)
          ((after_receive-Inv {cause = k} {origin = w} p certain).at v w' tt
            ((connection_receive-Inv {cause = k} {origin = w} i).at w v p (IsSound-Inv k w s) q)
            rest)

-- A change that the invariant does not speak of.
Inv-read :
    (cause : Cause) (w : World) (error : Error) (rest : List ℕ)
    → IsSound w
    → Inv cause w (record w { error = error; stdin = rest })
Inv-read cause w error rest s = record {
  path = here;
  field = s.field;
  next_id = s.next_id;
  last_id = s.last_id;
  packets = s.packets;
  held = refl;
}

-- The line that was read is parsed, and its command handled.
line-Inv :
    (b : Bytes) (rest : List ℕ) (error : Error) (w w' : World)
    → IsSound w
    → handle_line b (record w { error = error; stdin = rest }) ≡ some (tt, w')
    → (cause : Cause)
    → cause ≡ elim (command_parse w.command_trie (bytes_get b) error) [
      | none ↦ no_event
      | some (cmd, e') ↦ typed cmd.type
    ]
    → Inv cause w w'
unfolding handle_line
line-Inv b rest error w w' s e cause same =
    go (command_parse w.command_trie (bytes_get b) error) refl
  where
    go :
        (r : Option (Command × Error))
        → command_parse w.command_trie (bytes_get b) error ≡ r
        → Inv cause w w'
    go none q = absurd (ground (arith, e, q))
    go (some (cmd, e')) q =
        let k : Cause = typed cmd.type in
        let is_k : cause ≡ k = ground (arith, same, q) in
        let ran : after_parse cmd (record w { error = e'; stdin = rest }) ≡ some (tt, w') =
          ground (arith, e, q) in
        subst (λ c. Inv c w w') (sym is_k)
          ((after_parse-Inv {cause = k} {origin = w} cmd certain).at
            (record w { error = e'; stdin = rest }) w' tt (Inv-read k w e' rest s) ran)

stdin_event-Inv :
    (w w' : World)
    → IsSound w
    → client_handle_input w ≡ some (tt, w')
    → Inv (cause_of stdin_event w) w w'
unfolding client_handle_input
stdin_event-Inv w w' s e = go (read_line_stdin w.stdin_ended w.stdin bytes_new w.error) refl
  where
    go :
        (r : Option ((ℤ × Bytes × List ℕ) × Error))
        → read_line_stdin w.stdin_ended w.stdin bytes_new w.error ≡ r
        → Inv (cause_of stdin_event w) w w'
    go none q = absurd (ground (arith, e, q))
    go (some ((negsuc n, b, rest), error)) q =
        let ran : (modify (λ w. record w { stdin_ended = true })
                >> (client_send bye none >> set_state end_state))
              (record w { error = error; stdin = rest })
            ≡ some (tt, w') =
          ground (arith, e, q) in
        (at_end-Inv {cause = cause_of stdin_event w} {origin = w}).at
          (record w { error = error; stdin = rest }) w' tt
          (Inv-read (cause_of stdin_event w) w error rest s) ran
    go (some ((pos zero, b, rest), error)) q =
        subst (Inv (cause_of stdin_event w) w)
          (let r : record w { error = error; stdin = rest } ≡ w' = ground (arith, e, q) in r)
          (Inv-read (cause_of stdin_event w) w error rest s)
    go (some ((pos (suc n), b, rest), error)) q =
        let ran : handle_line b (record w { error = error; stdin = rest }) ≡ some (tt, w') =
          ground (arith, e, q) in
        line-Inv b rest error w w' s ran (cause_of stdin_event w) (ground (arith, q))

pub handle_event-caused :
    (e : Event) (w w' : World)
    → IsSound w
    → handle_event e w ≡ some (tt, w')
    → Inv (cause_of e w) w w'
unfolding handle_event
handle_event-caused (socket_event i) w w' s e = socket_event-Inv i w w' s e
handle_event-caused stdin_event w w' s e = stdin_event-Inv w w' s e
