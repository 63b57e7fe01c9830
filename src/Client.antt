-- ===== src/Client.antt =====
-- src/client.c: the handlers of the client and its event loop.
pub mod Handler
pub mod Init
pub mod Shutdown
pub mod Loop
pub mod Diagram
pub mod Typed
pub mod Signal
pub mod Login
pub mod Start
pub mod Close
pub mod Unstored
pub mod Residue
pub mod Invariant
pub mod Trace
pub mod Lines
pub mod Safe
pub mod Send
pub mod Retry
pub mod Receive
pub mod Once
pub mod Stale
use ipk2024_projekt.Base.{
  Bool, List, M, Option, access, codes, false, if◌then◌else◌, ltb, none, not, ret, some, true, ℕ,
  ◌&&◌, ◌+◌, ◌==◌, ◌>>=◌, ◌>>◌,
}
use ipk2024_projekt.Error.{Error, error_clear, get_error, is_set, recv_from_wrong_address}
use ipk2024_projekt.Payload.{
  Payload, PayloadData, PayloadReply, PayloadType, auth, bye, confirm, err, is_confirm, join,
  message, other, payload_new, reply, zero_data,
}
use ipk2024_projekt.World.{
  CurrentPayload, World, chat, end_state, err_from, error_state, failure, gets, is_authenticating,
  is_open, is_udp, malformed_notice, modify, not_auth, open_state, run_exec, set_state, success,
  write,
}
use ipk2024_projekt.Connection.{Incoming, connection_receive, connection_send}
use ipk2024_projekt.BitField.{bit_field_contains, bit_field_insert}

abbrev pub set_current : (CurrentPayload → CurrentPayload) → M World (Unit {0})
set_current f = modify (λ w. record w { current = f w.current })

-- `CURRENT_PAYLOAD.payload = payload_new(type, data); CONNECTION.send(...)`
unfoldable pub send_new : PayloadType → Option PayloadData → M World (Unit {0})
send_new type d w = elim (payload_new w.uninit.body type d w.next_message_id) [
  | none ↦ none
  | some (payload, next) ↦
      connection_send payload
        (record w { next_message_id = next; current = record (w.current) { payload = payload } })
]

-- An ERR with the display name and the text; the rest of the data is as it was in `d`.
abbrev pub err_data : PayloadData → List ℕ → List ℕ → PayloadData
err_data d name text = record d {
  message_data = record { display_name = name; message_content = text };
}

unfoldable pub client_send : PayloadType → Option PayloadData → M World (Unit {0})
client_send type d = do
  send_new type d
  error ← run_exec get_error
  if is_set error
      then (do
        run_exec error_clear
        uninit ← gets (λ w. w.uninit)
        name ← gets (λ w. w.display_name)
        send_new err (
            some (
              err_data uninit.body name (codes "Something went wrong when trying to send payload")))
        set_state error_state)
      else ret tt
  again ← run_exec get_error
  if is_set again
      then set_state end_state
      else modify (λ w. record w {
        current = record (w.current) { confirmed = not (is_udp w.args.mode); timestamp = w.now };
      })

-- `true` when the client is to shut down.
unfoldable pub client_handle_timeout : M World Bool
client_handle_timeout = do
  set_current (λ c. record c { retry_count = c.retry_count + 1 })
  retries ← gets (λ w. w.current.retry_count)
  limit ← gets (λ w. w.args.udp_retransmissions)
  if ltb limit retries then (do set_state end_state; ret true) else do
    payload ← gets (λ w. w.current.payload)
    connection_send payload
    modify (λ w. record w { current = record (w.current) { timestamp = w.now } })
    ret false

-- The ERR that is sent for a malformed or an unexpected payload.
unfoldable pub send_malformed : M World (Unit {0})
send_malformed = do
  name ← gets (λ w. w.display_name)
  client_send err (some (err_data zero_data name (codes "Received malformed payload")))
  set_state error_state

unfoldable pub handle_confirm : Payload → M World (Unit {0})
handle_confirm payload = do
  current ← gets (λ w. w.current)
  if payload.id == current.payload.id
      then set_current (λ c. record c { confirmed = true; retry_count = 0 })
      else ret tt

unfoldable pub handle_reply : PayloadReply → M World (Unit {0})
handle_reply d = do
  state ← gets (λ w. w.state)
  if not (is_authenticating state) && not (is_open state)
      then ret tt
      else if d.result
      then (do set_state open_state; write (success d.message_content))
      else do
        if is_authenticating state then set_state not_auth else ret tt
        write (failure d.message_content)

-- The switch on the payload's type.
unfoldable pub handle_payload : PayloadType → Payload → M World (Unit {0})
handle_payload confirm p = handle_confirm p
handle_payload auth p = send_malformed
handle_payload join p = send_malformed
handle_payload reply p = handle_reply p.body.reply_data
handle_payload message p =
    write (chat p.body.message_data.display_name p.body.message_data.message_content)
handle_payload err p = do
  write (err_from p.body.message_data.display_name p.body.message_data.message_content)
  client_send bye none
  set_state end_state
handle_payload bye p = do
  state ← gets (λ w. w.state)
  if not (is_open state) then client_send bye none else ret tt
  set_state end_state
handle_payload (other _) p = ret tt

-- The check for a payload that was received before. `false` means that the handler returns.
unfoldable pub note_received : Payload → M World Bool
note_received payload = if is_confirm payload.type then ret true else do
  mode ← gets (λ w. w.args.mode)
  field ← gets (λ w. w.received_id)
  known ← if is_udp mode then access (bit_field_contains field payload.id) else ret false
  if known then ret false else do
    field' ← access (bit_field_insert field payload.id)
    modify (λ w. record w { received_id = field' })
    ret true

-- What follows the confirmation of the payload.
unfoldable pub handle_received : Payload → M World (Unit {0})
handle_received payload = do
  error ← run_exec get_error
  if is_set error then (do run_exec error_clear; write malformed_notice; send_malformed) else do
    fresh ← note_received payload
    if fresh then handle_payload payload.type payload else ret tt

abbrev pub is_wrong_address : Error → Bool
is_wrong_address recv_from_wrong_address = true
is_wrong_address _ = false

unfoldable pub client_handle_socket : Incoming → M World (Unit {0})
client_handle_socket incoming = do
  payload ← connection_receive incoming
  error ← run_exec get_error
  if is_wrong_address error
      then run_exec error_clear
      else if is_confirm payload.type
      then handle_received payload
      else do
        current ← gets (λ w. w.current)
        if not current.confirmed then ret tt else do
          uninit ← gets (λ w. w.uninit)
          connection_send (record uninit { type = confirm; id = payload.id })
          handle_received payload
