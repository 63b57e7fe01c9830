-- ===== src/Client/Init.antt =====
-- src/client.c and src/connection.c: how a session is opened. The answers of the system are in
-- `network`. The sockets and the handles of epoll are not kept: nothing but the calls reads them.
use ipk2024_projekt.Base.{M, false, if◌then◌else◌, none, not, ret, some, suc, true, ◌>>=◌, ◌>>◌}
use ipk2024_projekt.Error.{connection, get_error, internal, is_set, set_error, socket}
use ipk2024_projekt.World.{
  Args, World, gets, is_udp, modify, poll_error, poll_expired, poll_ready, run_exec, run_memory,
}
use ipk2024_projekt.Trie.{malloc}
use ipk2024_projekt.BitField.{bit_field_new}
use ipk2024_projekt.Tcp.{tcp_setup}
use ipk2024_projekt.Commands.{command_setup}

-- `socket`, `fcntl` and `getaddrinfo`, each of which may end the function.
unfoldable pub connection_init : Args → M World (Unit {0})
connection_init args = do
  modify (λ w. record w { args = args; has_connection = true; has_address = false })
  answers ← gets (λ w. w.network)
  if not answers.socket_given
      then run_exec (set_error socket)
      else if not answers.non_blocking
      then run_exec (set_error socket)
      else elim answers.resolved [
        | none ↦ run_exec (set_error connection)
        | some address ↦
            modify (λ w. record w { address = address; has_address = true; blocks = suc w.blocks })
      ]

-- CONNECTION.connect in TCP mode. `true` for `connecting` covers `EINPROGRESS`.
unfoldable pub tcp_connect : M World (Unit {0})
tcp_connect = do
  trie ← run_memory tcp_setup
  modify (λ w. record w { tcp_trie = trie })
  error ← run_exec get_error
  if is_set error then ret tt else do
    answers ← gets (λ w. w.network)
    if not answers.connecting then run_exec (set_error connection) else elim answers.poll_answer [
      | poll_error ↦ run_exec (set_error socket)
      | poll_expired ↦ run_exec (set_error socket)
      | poll_ready ↦ ret tt
    ]

unfoldable pub udp_connect : M World (Unit {0})
udp_connect = ret tt

-- The two calls of `epoll_create1` and the three of `epoll_ctl`.
unfoldable pub open_epoll : M World (Unit {0})
open_epoll = do
  answers ← gets (λ w. w.network)
  if not answers.epolls_created
      then run_exec (set_error internal)
      else if not answers.stdin_added
      then run_exec (set_error internal)
      else if not answers.socket_added
      then run_exec (set_error internal)
      else if not answers.socket_added_stdin
      then run_exec (set_error internal)
      else ret tt

-- `RECEIVED_ID = bit_field_new()`
unfoldable pub set_received_id : M World (Unit {0})
set_received_id = do
  given ← run_memory malloc
  modify (λ w. record w { has_field = given })
  old ← gets (λ w. w.old_block)
  block ← run_exec (bit_field_new (if given then some old else none))
  elim block [ none ↦ ret tt | some field ↦ modify (λ w. record w { received_id = field }) ]

unfoldable pub client_init : Args → M World (Unit {0})
client_init args = do
  trie ← run_memory command_setup
  modify (λ w. record w { command_trie = trie })
  set_received_id
  error ← run_exec get_error
  if is_set error then ret tt else do
    connection_init args
    if is_udp args.mode then udp_connect else tcp_connect
    modify (λ w. record w { current = record (w.current) { confirmed = true } })
    open_epoll
