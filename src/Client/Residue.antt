-- ===== src/Client/Residue.antt =====
-- What a new bit field makes of the bits that its block of memory held before.
use ipk2024_projekt.Base.{[], arith, false, refl, some, suc, true, ℕ, ◌+◌, ◌<◌, ◌^◌, ◌∷◌, ◌≡◌}
use ipk2024_projekt.Error.{no_error}
use ipk2024_projekt.BitField.{bit_field_contains, bit_field_new}
use ipk2024_projekt.Payload.{is_confirm}
use ipk2024_projekt.Frame.{Frame, IsValidFrame, confirming, type_of}
use ipk2024_projekt.World.{Address, Args, World, udp}
use ipk2024_projekt.Udp.Wire.{datagram}
use ipk2024_projekt.Commands.Setup.{command_trie}
use ipk2024_projekt.Connection.{packet}
use ipk2024_projekt.Client.{client_handle_socket}
use ipk2024_projekt.Client.Init.{
  client_init, connection_init, open_epoll, set_received_id, udp_connect,
}
use ipk2024_projekt.Client.Once.{IsReady, confirmed_to, duplicate_confirmed}
use ipk2024_projekt.Trie.Free.{nodes}
use ipk2024_projekt.Client.Start.{all_good, commands_set}

-- The client in UDP mode behind an initialisation without an error.
abbrev ready : Address → Args → World → World
ready address args w = record w {
  args = args;
  address = address;
  command_trie = command_trie;
  received_id = w.old_block;
  blocks = suc (suc (nodes command_trie + w.blocks));
  has_field = true;
  has_connection = true;
  has_address = true;
  current = record (w.current) { confirmed = true };
}

-- No error and no denied memory; the host has an address, and every call succeeds.
pub record CanOpen (address : Address) (args : Args) (w : World) : Type 0 where
  pub clear : w.error ≡ no_error
  pub memory : w.denials ≡ []
  pub in_udp : args.mode ≡ udp
  pub resolved : w.network.resolved ≡ some address
  pub good : all_good args.mode w.network ≡ true

client_init-ready :
    (address : Address) (args : Args) (w : World)
    → CanOpen address args w
    → client_init args w ≡ some (tt, ready address args w)
unfolding client_init connection_init udp_connect open_epoll set_received_id bit_field_new
client_init-ready address args w c =
    ground
      (arith, commands_set args w c.clear c.memory, c.clear, c.memory, c.in_udp, c.resolved, c.good)

-- The client opens a session in UDP mode without an error, with the block of memory old_block for
-- its bit field, and its socket takes what is sent. If the block holds the bit of a number, the
-- first valid message under this number that the server sends, other than a CONFIRM, is confirmed
-- but not handled: nothing is written, and the state stays.
pub uncleared_drops :
    (sender address : Address) (args : Args) (id : ℕ) (f : Frame) (w : World)
    → CanOpen address args w
    → sender.sin_addr ≡ address.sin_addr
    → w.send_fails ≡ []
    → id < 2 ^ 16
    → IsValidFrame f
    → is_confirm (type_of f) ≡ false
    → bit_field_contains w.old_block id ≡ some true
    → (w₁ : World) × (w₂ : World) × (client_init args w ≡ some (tt, w₁))
      × (client_handle_socket (packet sender (datagram id f)) w₁ ≡ some (tt, w₂))
      × (w₂.outbox
          ≡ (record address { sin_port = sender.sin_port }, datagram id confirming) ∷ w.outbox)
      × (w₂.written ≡ w.written)
      × (w₂.state ≡ w.state)
uncleared_drops sender address args id f w c same no_fails small v ne known =
    let w₁ = ready address args w in
    let r : IsReady sender w₁ = record {
      server = record { in_udp = c.in_udp; same_host = same };
      clear = c.clear;
      no_fails = no_fails;
      confirmed = refl;
    } in
    (
      w₁,
      confirmed_to sender id w₁,
      client_init-ready address args w c,
      duplicate_confirmed sender id f w₁ r small v ne known,
      refl,
      refl,
      refl,
    )
