-- ===== src/Client/Start.antt =====
-- How a session begins, and what comes of it when it cannot.
use ipk2024_projekt.Base.{
  Bool, List, Option, [], arith, false, if◌then◌else◌, negsuc, none, not, refl, some, suc, true, ℕ,
  ◌&&◌, ◌+◌, ◌||◌, ◌≡◌,
}
use ipk2024_projekt.Error.{Error, connection, is_set, no_error, socket}
use ipk2024_projekt.BitField.{bit_field_new}
use ipk2024_projekt.Trie.Free.{nodes}
use ipk2024_projekt.Trie.{Memory, no_children, node, plenty, trie_arr_len, trie_new}
use ipk2024_projekt.Tcp.{tcp_setup}
use ipk2024_projekt.Tcp.Prefix.{tcp_setup-tcp_trie, tcp_trie}
use ipk2024_projekt.Commands.{command_setup}
use ipk2024_projekt.Commands.Setup.{command_setup-command_trie, command_trie}
use ipk2024_projekt.World.{
  Address, Args, Mode, Network, PollAnswer, World, is_udp, poll_error, poll_expired, poll_ready,
}
use ipk2024_projekt.Client.Init.{
  client_init, connection_init, open_epoll, set_received_id, tcp_connect, udp_connect,
}

abbrev is_given : Option Address → Bool
is_given none = false
is_given (some a) = true

abbrev is_ready : PollAnswer → Bool
is_ready poll_error = false
is_ready poll_expired = false
is_ready poll_ready = true

-- Code that gets `k` blocks where none is denied does so on any such memory.
pub on_plenty :
    {A : Type 0} (f : Memory → Option (A × Memory)) (a : A) (k : ℕ) (m : Memory)
    → m.error ≡ no_error
    → m.denials ≡ []
    → ((n : ℕ) → f (plenty n) ≡ some (a, plenty (k + n)))
    → f m ≡ some (a, record m { blocks = k + m.blocks })
on_plenty f a k m e d done = let same : m ≡ plenty m.blocks = cc in let got = done m.blocks in cc

-- Whether the calls that resolve the host succeed.
abbrev pub connected : Network → Bool
connected n = n.socket_given && n.non_blocking && is_given n.resolved

-- Whether every call that opens a session in this mode succeeds.
abbrev pub all_good : Mode → Network → Bool
all_good mode n =
    n.socket_given
    && n.non_blocking
    && is_given n.resolved
    && (is_udp mode || (n.connecting && is_ready n.poll_answer))
    && n.epolls_created
    && n.stdin_added
    && n.socket_added
    && n.socket_added_stdin

-- The world that a run leaves.
abbrev pub left_by : {A : Type 0} → World → Option (A × World) → World
left_by w none = w
left_by w (some (a, w')) = w'

-- After an error the setup stops behind the root.
tcp_setup-set :
    (e : Error) (ds : List Bool) (n : ℕ)
    → is_set e ≡ true
    → ds ≡ []
    → tcp_setup (record { error = e; denials = ds; blocks = n })
      ≡ some (
        node (negsuc 0) (no_children trie_arr_len),
        record { error = e; denials = ds; blocks = suc n },
      )
unfolding tcp_setup trie_new
tcp_setup-set e ds n h d = ground (arith, h, d)

-- The blocks that a session holds: those of its tries, the bit field, and the address.
abbrev pub owned : World → ℕ
owned w = 2 + nodes w.command_trie + (if is_udp w.args.mode then 0 else nodes w.tcp_trie)

-- The session holds its blocks, beside `base` others.
pub record Owns (base : ℕ) (w : World) : Type 0 where
  pub has_field : w.has_field ≡ true
  pub has_connection : w.has_connection ≡ true
  pub has_address : w.has_address ≡ true
  pub counted : w.blocks ≡ owned w + base

-- What a session without an error begins with.
pub record Opened (args : Args) (w w' : World) : Type 0 where
  pub args_stored : w'.args ≡ args
  pub field : w'.received_id ≡ w.old_block
  pub current_kept : w'.current.payload ≡ w.current.payload
  pub next_kept : w'.next_message_id ≡ w.next_message_id
  pub name_kept : w'.display_name ≡ w.display_name
  pub uninit_kept : w'.uninit ≡ w.uninit
  pub trie : is_udp w'.args.mode ≡ false → w'.tcp_trie ≡ tcp_trie
  pub commands : w'.command_trie ≡ command_trie
  pub stdin_kept : w'.stdin ≡ w.stdin

module _ (args : Args) (w : World) (clear : w.error ≡ no_error) (memory : w.denials ≡ []) where
  abbrev pub ended : World
  ended = left_by w (client_init args w)

  abbrev memory_of : World → Memory
  memory_of w = record { error = w.error; denials = w.denials; blocks = w.blocks }

  pub commands_set :
      command_setup (memory_of w)
      ≡ some (command_trie, record (memory_of w) { blocks = nodes command_trie + w.blocks })
  commands_set =
      on_plenty command_setup command_trie (nodes command_trie) (memory_of w) clear memory
        command_setup-command_trie

  prefixes_set :
      (n : ℕ)
      → tcp_setup (record { error = no_error; denials = w.denials; blocks = n })
        ≡ some (
          tcp_trie,
          record { error = no_error; denials = w.denials; blocks = nodes tcp_trie + n },
        )
  prefixes_set n =
      on_plenty tcp_setup tcp_trie (nodes tcp_trie)
        (record { error = no_error; denials = w.denials; blocks = n }) refl memory
        tcp_setup-tcp_trie

  pub opening :
      (client_init args w ≡ some (tt, ended))
      × (is_set ended.error ≡ not (all_good args.mode w.network))
      × (ended.outbox ≡ w.outbox)
      × (ended.state ≡ w.state)
      × (connected w.network ≡ true → Owns w.blocks ended)
      × (all_good args.mode w.network ≡ true → Opened args w ended)
      × (connected w.network ≡ false → ended.has_address ≡ false)
  unfolding client_init connection_init tcp_connect udp_connect open_epoll set_received_id
      bit_field_new
  opening = ground (
    arith,
    commands_set,
    prefixes_set (suc (suc (nodes command_trie + w.blocks))),
    prefixes_set (suc (nodes command_trie + w.blocks)),
    tcp_setup-set socket w.denials (suc (nodes command_trie + w.blocks)) refl memory,
    tcp_setup-set connection w.denials (suc (nodes command_trie + w.blocks)) refl memory,
    clear,
    memory,
  )

-- With memory enough and no error before, `client_init` comes to its end whatever the system
-- answers. It leaves an error exactly if one of the calls fails that it makes in this mode; it sends
-- nothing and stays in its state.
pub client_init_error :
    (args : Args) (w : World)
    → w.error ≡ no_error
    → w.denials ≡ []
    → (w' : World) × (client_init args w ≡ some (tt, w'))
      × (is_set w'.error ≡ not (all_good args.mode w.network))
      × (w'.outbox ≡ w.outbox)
      × (w'.state ≡ w.state)
client_init_error args w clear memory =
    let (ran, set, out, st, own, ready, unknown) = opening args w clear memory in
    (ended args w clear memory, ran, set, out, st)
