-- ===== src/Client/Unstored.antt =====
-- The end of a session whose connection, or whose address, was never stored.
use ipk2024_projekt.Base.{Bool, List, [], arith, false, inl, inr, none, some, true, ◌∷◌, ◌≡◌, ◌⊎◌}
use ipk2024_projekt.Error.{is_set, no_error}
use ipk2024_projekt.BitField.{bit_field_new}
use ipk2024_projekt.Trie.{trie_new}
use ipk2024_projekt.Commands.{command_setup}
use ipk2024_projekt.World.{Args, World}
use ipk2024_projekt.Client.Init.{client_init, set_received_id}
use ipk2024_projekt.Client.Shutdown.{
  client_shutdown, connection_close, tcp_destroy, tcp_disconnect, udp_disconnect,
}
use ipk2024_projekt.Client.Loop.{Round, client_run}
use ipk2024_projekt.Client.Start.{connected, ended, left_by, opening}

-- The address was not stored, and `freeaddrinfo` is called on it.
unresolved_shutdown : (w : World) → w.has_address ≡ false → client_shutdown w ≡ none
unfolding client_shutdown connection_close udp_disconnect tcp_disconnect tcp_destroy
unresolved_shutdown w h = ground (arith, h)

-- The function that disconnects was not stored, and is called.
unconnected_shutdown : (w : World) → w.has_connection ≡ false → client_shutdown w ≡ none
unfolding client_shutdown connection_close
unconnected_shutdown w h = ground (arith, h)

-- The first `malloc` fails, and the initialisation ends before the connection is stored.
short_of_memory :
    (args : Args) (w : World) (ds : List Bool)
    → w.error ≡ no_error
    → w.denials ≡ true ∷ ds
    → w.has_connection ≡ false
    → (t : World) × (client_init args w ≡ some (tt, t))
      × (is_set t.error ≡ true)
      × (t.has_connection ≡ false)
unfolding client_init command_setup trie_new set_received_id bit_field_new
short_of_memory args w ds clear denied none_stored =
    let after : World = left_by w (client_init args w) in
    let (ran, set, kept) : (client_init args w ≡ some (tt, after))
        × (is_set after.error ≡ true)
        × (after.has_connection ≡ false) =
      ground (arith, clear, denied, none_stored) in
    (after, ran, set, kept)

-- A call through a pointer that was never stored, and the release of what such a pointer points to:
-- where the first call of `malloc` fails, the function that disconnects was not stored, and where the
-- host is not resolved, its address was not. In both cases `client_run` faults when it ends.
pub client_run_faults :
    (args : Args) (rounds : List Round) (w : World)
    → w.error ≡ no_error
    → (((ds : List Bool) × (w.denials ≡ true ∷ ds) × (w.has_connection ≡ false))
        ⊎ ((w.denials ≡ []) × (connected w.network ≡ false)))
    → client_run args rounds w ≡ none
unfolding client_run
client_run_faults args rounds w clear (inl (ds, denied, none_stored)) =
    let (t, ran, set, kept) = short_of_memory args w ds clear denied none_stored in
    ground (arith, ran, set, unconnected_shutdown t kept)
client_run_faults args rounds w clear (inr (memory, unknown)) =
    let (ran, set, out, st, own, ready, no_address) = opening args w clear memory in
    ground (
      arith,
      ran,
      set,
      unknown,
      unresolved_shutdown (ended args w clear memory) (no_address unknown),
    )
