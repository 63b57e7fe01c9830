-- ===== src/Connection.antt =====
-- The functions of src/udp.c and src/tcp.c that use the socket, and the choice between them that
-- src/connection.c makes by the mode.
pub mod Send
use ipk2024_projekt.Base.{
  Bool, List, M, [], if◌then◌else◌, length, ltb, none, not, ret, some, true, ℕ, ◌==◌, ◌>>=◌, ◌>>◌,
  ◌∷◌,
}
use ipk2024_projekt.Error.{connection, get_error, is_set, recv_from_wrong_address, set_error}
use ipk2024_projekt.Bytes.{Bytes, received, transmitted}
use ipk2024_projekt.Payload.{Payload, is_confirm, zero_payload}
use ipk2024_projekt.World.{Address, World, gets, is_udp, modify, run_exec}
use ipk2024_projekt.Udp.{udp_deserialize, udp_serialize}
use ipk2024_projekt.Tcp.{tcp_deserialize, tcp_serialize}

-- What `recvfrom` or `recv` brings: -1, or the sender's address and the bytes.
pub data Incoming : Type 0 where
  failed : Incoming
  packet : Address → List ℕ → Incoming

-- `sendto` and `send`: whether all bytes were taken. They read `len` bytes from the start of the array.
unfoldable pub transmit : Bytes → M World Bool
transmit b w = if ltb (length b.cells) b.len then none else elim w.send_fails [
  | [] ↦ some (true, record w { outbox = (w.address, transmitted b) ∷ w.outbox })
  | fails ∷ rest ↦
      some
        (not fails, record w { outbox = (w.address, transmitted b) ∷ w.outbox; send_fails = rest })
]

unfoldable pub udp_send : Payload → M World (Unit {0})
udp_send payload = do
  bytes ← run_exec (udp_serialize payload)
  done ← transmit bytes
  if not done then run_exec (set_error connection) else ret tt

unfoldable pub tcp_send : Payload → M World (Unit {0})
tcp_send payload = if is_confirm payload.type then ret tt else do
  bytes ← run_exec (tcp_serialize payload)
  error ← run_exec get_error
  if is_set error
      then ret tt
      else do done ← transmit bytes; if not done then run_exec (set_error connection) else ret tt

-- CONNECTION.send
unfoldable pub connection_send : Payload → M World (Unit {0})
connection_send payload = do
  mode ← gets (λ w. w.args.mode)
  if is_udp mode then udp_send payload else tcp_send payload

unfoldable pub udp_receive : Incoming → M World Payload
udp_receive failed = do run_exec (set_error connection); ret zero_payload
udp_receive (packet sender bytes) = do
  server ← gets (λ w. w.address)
  if not (sender.sin_addr == server.sin_addr)
      then (do run_exec (set_error recv_from_wrong_address); ret zero_payload)
      else do
        modify (λ w. record w { address = record server { sin_port = sender.sin_port } })
        run_exec (udp_deserialize (received bytes))

unfoldable pub tcp_receive : Incoming → M World Payload
tcp_receive failed = do run_exec (set_error connection); gets (λ w. w.uninit)
tcp_receive (packet sender bytes) = do
  uninit ← gets (λ w. w.uninit)
  trie ← gets (λ w. w.tcp_trie)
  run_exec (tcp_deserialize uninit trie (received bytes))

-- CONNECTION.receive
unfoldable pub connection_receive : Incoming → M World Payload
connection_receive incoming = do
  mode ← gets (λ w. w.args.mode)
  if is_udp mode then udp_receive incoming else tcp_receive incoming
