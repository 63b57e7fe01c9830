-- ===== src/Client/Shutdown.antt =====
-- How a session ends: what src/client.c, src/connection.c, src/tcp.c, src/udp.c, src/commands.c and
-- src/bit_field.c hand back. A call through a pointer that was never stored is a fault, and so is
-- handing back what such a pointer points to. Sockets and the handles of epoll are only closed.
use ipk2024_projekt.Base.{Bool, M, access, if◌then◌else◌, none, not, ret, ◌>>=◌, ◌>>◌}
use ipk2024_projekt.Trie.{Memory, free, trie_free}
use ipk2024_projekt.World.{World, gets, is_udp, run_memory}

-- `free(NULL)` does nothing.
unfoldable pub bit_field_free : Bool → M Memory (Unit {0})
bit_field_free has_data = if has_data then free else ret tt

unfoldable pub tcp_destroy : M World (Unit {0})
tcp_destroy = do trie ← gets (λ w. w.tcp_trie); run_memory (trie_free trie)

unfoldable pub tcp_disconnect : M World (Unit {0})
tcp_disconnect = tcp_destroy

unfoldable pub udp_disconnect : M World (Unit {0})
udp_disconnect = ret tt

-- `freeaddrinfo` hands back one block.
unfoldable pub connection_close : M World (Unit {0})
connection_close = do
  stored ← gets (λ w. w.has_connection)
  if not stored then access none else do
    mode ← gets (λ w. w.args.mode)
    if is_udp mode then udp_disconnect else tcp_disconnect
    known ← gets (λ w. w.has_address)
    if not known then access none else run_memory free

unfoldable pub command_clean_up : M World (Unit {0})
command_clean_up = do trie ← gets (λ w. w.command_trie); run_memory (trie_free trie)

unfoldable pub client_shutdown : M World (Unit {0})
client_shutdown = do
  has_data ← gets (λ w. w.has_field)
  run_memory (bit_field_free has_data)
  connection_close
  command_clean_up
