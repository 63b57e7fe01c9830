-- ===== src/World.antt =====
-- The globals of the program, and what the system answers to its calls.
pub mod Keeps
pub mod Total
use ipk2024_projekt.Base.{Bool, List, M, Option, false, none, some, true, ℕ, ◌∷◌}
use ipk2024_projekt.Error.{Error, Exec}
use ipk2024_projekt.Payload.{Payload}
use ipk2024_projekt.Trie.{Memory, Trie}

-- src/args.h
pub data Mode : Type 0 where
  tcp udp : Mode

pub record Args : Type 0 where
  pub mode : Mode
  pub host : List ℕ
  pub port : ℕ
  pub udp_timeout : ℕ
  pub udp_retransmissions : ℕ
  pub help : Bool

-- The two members of `struct sockaddr_in` that the program reads or writes.
pub record Address : Type 0 where
  pub sin_addr : ℕ
  pub sin_port : ℕ

-- `enum state` of src/client.c
pub data State : Type 0 where
  start not_auth authenticating open_state error_state end_state : State

-- `struct current_payload` of src/client.c
pub record CurrentPayload : Type 0 where
  pub payload : Payload
  pub confirmed : Bool
  pub executed : Bool
  pub retry_count : ℕ
  pub timestamp : ℕ

-- What the client writes to stdout and stderr.
pub data Output : Type 0 where
  malformed_notice : Output
  success failure : List ℕ → Output
  chat : List ℕ → List ℕ → Output
  err_from : List ℕ → List ℕ → Output
  own_message : List ℕ → List ℕ → Output
  usage_notice help_message clear_screen input_notice program_usage program_help : Output

-- What the calls of the system answer that open the session: `socket` and `fcntl` succeed,
-- `getaddrinfo` gives an address, `connect` succeeds or is in progress, `poll` answers, and the two
-- calls of `epoll_create1` and the three of `epoll_ctl` succeed.
pub data PollAnswer : Type 0 where
  poll_error poll_expired poll_ready : PollAnswer

pub record Network : Type 0 where
  pub socket_given : Bool
  pub non_blocking : Bool
  pub resolved : Option Address
  pub connecting : Bool
  pub poll_answer : PollAnswer
  pub epolls_created : Bool
  pub stdin_added : Bool
  pub socket_added : Bool
  pub socket_added_stdin : Bool

pub record World : Type 0 where
  pub error : Error
  pub state : State
  pub args : Args
  -- CONNECTION.address_info->ai_addr
  pub address : Address
  pub received_id : List ℕ
  pub display_name : List ℕ
  pub current : CurrentPayload
  pub next_message_id : ℕ
  pub tcp_trie : Trie
  pub command_trie : Trie
  -- The bytes still to come on stdin, and whether its end was met.
  pub stdin : List ℕ
  pub stdin_ended : Bool
  pub network : Network
  -- Whether each call of `malloc` to come fails, and what the block of the bit field held before.
  pub denials : List Bool
  -- How many blocks are not freed yet, and whether RECEIVED_ID has one.
  pub blocks : ℕ
  pub has_field : Bool
  -- Whether CONNECTION was stored, and whether its address_info was.
  pub has_connection : Bool
  pub has_address : Bool
  pub old_block : List ℕ
  -- What a local variable holds before anything is stored in it.
  pub uninit : Payload
  -- What `timestamp_now` returns.
  pub now : ℕ
  -- Whether each call of `send` or `sendto` to come fails; a call behind the last one succeeds.
  pub send_fails : List Bool
  -- What was handed to `send` and `sendto`, the last one first.
  pub outbox : List (Address × List ℕ)
  -- What was written, the last one first.
  pub written : List Output

-- Code whose only global is ERROR.
abbrev pub run_exec : {A : Type 0} → Exec A → M World A
run_exec m w = elim (m w.error) [ none ↦ none | some (a, e) ↦ some (a, record w { error = e }) ]

-- Code that allocates.
abbrev pub run_memory : {A : Type 0} → M Memory A → M World A
run_memory m w = elim (m (record { error = w.error; denials = w.denials; blocks = w.blocks })) [
  | none ↦ none
  | some (a, mem) ↦
      some (a, record w { error = mem.error; denials = mem.denials; blocks = mem.blocks })
]

abbrev pub modify : (World → World) → M World (Unit {0})
modify f w = some (tt, f w)

abbrev pub gets : {A : Type 0} → (World → A) → M World A
gets f w = some (f w, w)

abbrev pub write : Output → M World (Unit {0})
write o = modify (λ w. record w { written = o ∷ w.written })

abbrev pub set_state : State → M World (Unit {0})
set_state s = modify (λ w. record w { state = s })

abbrev pub is_udp : Mode → Bool
is_udp udp = true
is_udp tcp = false

abbrev pub is_open : State → Bool
is_open open_state = true
is_open _ = false

abbrev pub is_authenticating : State → Bool
is_authenticating authenticating = true
is_authenticating _ = false

abbrev pub is_end : State → Bool
is_end end_state = true
is_end _ = false

abbrev pub is_error : State → Bool
is_error error_state = true
is_error _ = false

abbrev pub is_start : State → Bool
is_start start = true
is_start _ = false

abbrev pub is_not_auth : State → Bool
is_not_auth not_auth = true
is_not_auth _ = false
