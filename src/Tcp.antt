-- ===== src/Tcp.antt =====
-- src/tcp.c: the TCP form of a payload. The macros PUSH, READ and SKIP_STR are functions that take
-- what follows them as their last argument, and TCP_TRIE is an argument.
use ipk2024_projekt.Base.{
  Bool, List, M, Option, [], access, bit_or, codes, false, get_elem?, if◌then◌else◌, leb, ltb,
  negsuc, none, not, pos, ret, some, suc, true, zero, ℕ, ℤ, ◌&&◌, ◌++◌, ◌-◌, ◌==◌, ◌>>=◌, ◌>>◌, ◌^◌,
  ◌∷◌,
}
use ipk2024_projekt.Error.{Exec, get_error, invalid_payload, is_set, set_error}
use ipk2024_projekt.Bytes.{
  Bytes, bytes_get, bytes_new, bytes_push_c_str, bytes_skip_first_n, strlen,
}
use ipk2024_projekt.Payload.{
  Payload, PayloadAuth, PayloadData, PayloadJoin, PayloadMessage, PayloadReply, PayloadType, auth,
  bye, confirm, err, join, message, of_byte, other, put_auth, put_join, put_message, put_reply,
  read_channel_id, read_display_name, read_message_content, read_secret, read_username, reply,
  to_byte,
}
use ipk2024_projekt.Trie.{Memory, Trie, trie_insert, trie_match_prefix, trie_new}
pub mod Prefix
pub mod Line
pub mod Serialize
pub mod Size
pub mod Fits
pub mod Safe
pub mod Number
pub mod Deserialize
pub mod RoundTrip
pub mod Bye

unfoldable pub tcp_prefix_index : ℕ → ℤ
tcp_prefix_index ch =
    if ch == b' '
    then pos 26
    else let lower = bit_or ch (2 ^ 5) in
      if leb b'a' lower && leb lower b'z' then pos (lower - b'a') else negsuc 0

-- A string literal in memory, with its NUL.
abbrev pub literal : List ℕ → List ℕ
literal s = s ++ (0 ∷ [])

abbrev pub prefixes : List (List ℕ × PayloadType)
prefixes =
    (codes "JOIN ", join)
    ∷ (codes "AUTH ", auth)
    ∷ (codes "MSG FROM ", message)
    ∷ (codes "ERR FROM ", err)
    ∷ (codes "REPLY ", reply)
    ∷ (codes "BYE\r\n", bye)
    ∷ []

-- The loop of `tcp_setup` over the prefixes that are left.
unfoldable pub insert_prefixes : List (List ℕ × PayloadType) → Trie → M Memory Trie
insert_prefixes [] trie = ret trie
insert_prefixes ((prefix, type) ∷ rest) trie = do
  trie' ← trie_insert tcp_prefix_index trie (literal prefix) (pos (to_byte type))
  λ m. if is_set m.error then some (trie', m) else insert_prefixes rest trie' m

unfoldable pub tcp_setup : M Memory Trie
tcp_setup = do
  trie ← trie_new
  λ m. if is_set m.error then some (trie, m) else insert_prefixes prefixes trie m

-- PUSH
unfoldable pub push_str : List ℕ → Bytes → (Bytes → Exec Bytes) → Exec Bytes
push_str str buffer next =
    if strlen str == 0 then (do set_error invalid_payload; ret buffer) else do
      pushed ← bytes_push_c_str buffer str
      error ← get_error
      if is_set error then ret pushed else next pushed

-- The PUSH of the line's end, behind the switch.
unfoldable pub push_end : Bytes → Exec Bytes
push_end buffer = push_str (codes "\r\n") buffer ret

-- The cases of MSG and of ERR.
unfoldable pub serialize_text : List ℕ → PayloadMessage → Exec Bytes
serialize_text start d = push_str start bytes_new λ b.
    push_str d.display_name b
      λ b. push_str (codes " IS ") b λ b. push_str d.message_content b push_end

unfoldable pub serialize_reply : PayloadReply → Exec Bytes
serialize_reply d =
    let tail : Bytes → Exec Bytes =
      λ b. push_str (codes "OK IS ") b λ b. push_str d.message_content b push_end in
    push_str (codes "REPLY ") bytes_new
      λ b. if not d.result then push_str (codes "N") b tail else tail b

unfoldable pub serialize_auth : PayloadAuth → Exec Bytes
serialize_auth d = push_str (codes "AUTH ") bytes_new λ b. push_str d.username b λ b.
    push_str (codes " AS ") b λ b.
      push_str d.display_name b λ b. push_str (codes " USING ") b λ b. push_str d.secret b push_end

unfoldable pub serialize_join : PayloadJoin → Exec Bytes
serialize_join d = push_str (codes "JOIN ") bytes_new λ b.
    push_str d.channel_id b λ b. push_str (codes " AS ") b λ b. push_str d.display_name b push_end

unfoldable pub serialize_type : PayloadType → PayloadData → Exec Bytes
serialize_type confirm d = do set_error invalid_payload; ret bytes_new
serialize_type auth d = serialize_auth d.auth_data
serialize_type reply d = serialize_reply d.reply_data
serialize_type join d = serialize_join d.join_data
serialize_type message d = serialize_text (codes "MSG FROM ") d.message_data
serialize_type err d = serialize_text (codes "ERR FROM ") d.message_data
serialize_type bye d = push_str (codes "BYE") bytes_new push_end
serialize_type (other b) d = push_end bytes_new

unfoldable pub tcp_serialize : Payload → Exec Bytes
tcp_serialize payload = serialize_type payload.type payload.body

-- `memcmp(memory, str, strlen(str)) == 0`
abbrev pub agrees : List ℕ → List ℕ → Option Bool
agrees memory [] = some true
agrees [] (x ∷ str) = none
agrees (y ∷ memory) (x ∷ str) = if y == x then agrees memory str else some false

unfoldable pub starts_with : Bytes → List ℕ → Option Bool
starts_with b str = if ltb b.len (strlen str) then some false else agrees (bytes_get b) str

-- `set_error(Error_InvalidPayload); return payload`
abbrev pub refuse : Payload → Exec Payload
refuse payload = do set_error invalid_payload; ret payload

-- SKIP_STR
unfoldable pub skip_str : List ℕ → Payload → Bytes → (Payload → Bytes → Exec Payload) → Exec Payload
skip_str str payload buffer next = do
  found ← access (starts_with buffer str)
  if not found then refuse payload else next payload (bytes_skip_first_n buffer (strlen str))

-- READ: here the reader's result is kept in an `ssize_t`.
unfoldable pub read_field :
    (List ℕ → Bytes → Exec (ℤ × List ℕ))
    → List ℕ
    → Bytes
    → (List ℕ → Payload)
    → (Payload → Bytes → Exec Payload)
    → Exec Payload
read_field reader dest buffer put next = do
  (result, dest') ← reader dest buffer
  elim result [
    | negsuc _ ↦ refuse (put dest')
    | pos zero ↦ refuse (put dest')
    | pos (suc n) ↦ next (put dest') (bytes_skip_first_n buffer (suc n))
  ]

-- The end of `tcp_deserialize`: nothing may be left, and only here is the type stored.
unfoldable pub finish : PayloadType → Payload → Bytes → Exec Payload
finish type payload buffer =
    let typed = record payload { type = type } in
    if buffer.len == 0 then ret typed else refuse typed

-- SKIP_STR("\r\n") and what is behind the switch.
unfoldable pub line_end : PayloadType → Payload → Bytes → Exec Payload
line_end type payload buffer = skip_str (codes "\r\n") payload buffer (finish type)

unfoldable pub deserialize_join : Payload → Bytes → Exec Payload
deserialize_join p b =
    read_field read_channel_id p.body.join_data.channel_id (bytes_skip_first_n b 5)
      (λ s. put_join p (λ r. record r { channel_id = s }))
      λ p b. skip_str (codes " AS ") p b λ p b.
        read_field read_display_name p.body.join_data.display_name b
          (λ s. put_join p (λ r. record r { display_name = s })) (line_end join)

unfoldable pub deserialize_auth : Payload → Bytes → Exec Payload
deserialize_auth p b =
    read_field read_username p.body.auth_data.username (bytes_skip_first_n b 5)
      (λ s. put_auth p (λ r. record r { username = s }))
      λ p b. skip_str (codes " AS ") p b λ p b.
        read_field read_display_name p.body.auth_data.display_name b
          (λ s. put_auth p (λ r. record r { display_name = s }))
          λ p b. skip_str (codes " USING ") p b λ p b.
            read_field read_secret p.body.auth_data.secret b
              (λ s. put_auth p (λ r. record r { secret = s })) (line_end auth)

-- The case of REPLY, on the slice behind its first six bytes.
unfoldable pub deserialize_result : Payload → Bytes → Exec Payload
deserialize_result p b = do
  ch ← access (get_elem? (bytes_get b) 0)
  let result = not (ch == b'N')
  let p₁ = put_reply p (λ r. record r { result = result })
  skip_str (codes "OK IS ") p₁ (bytes_skip_first_n b (if result then 0 else 1)) λ p b.
      read_field read_message_content p.body.reply_data.message_content b
        (λ s. put_reply p (λ r. record r { message_content = s })) (line_end reply)

unfoldable pub deserialize_reply : Payload → Bytes → Exec Payload
deserialize_reply p b = deserialize_result p (bytes_skip_first_n b 6)

-- The cases of MSG and of ERR: both begin with nine bytes.
unfoldable pub deserialize_text : PayloadType → Payload → Bytes → Exec Payload
deserialize_text type p b =
    read_field read_display_name p.body.message_data.display_name (bytes_skip_first_n b 9)
      (λ s. put_message p (λ r. record r { display_name = s }))
      λ p b. skip_str (codes " IS ") p b λ p b.
        read_field read_message_content p.body.message_data.message_content b
          (λ s. put_message p (λ r. record r { message_content = s })) (line_end type)

unfoldable pub deserialize_type : PayloadType → Payload → Bytes → Exec Payload
deserialize_type join p b = deserialize_join p b
deserialize_type auth p b = deserialize_auth p b
deserialize_type reply p b = deserialize_reply p b
deserialize_type message p b = deserialize_text message p b
deserialize_type err p b = deserialize_text err p b
deserialize_type bye p b = finish bye p (bytes_skip_first_n b 5)
deserialize_type confirm p b = refuse p
deserialize_type (other _) p b = refuse p

-- `uninit` is what the variable `payload` holds before anything is stored in it.
unfoldable pub tcp_deserialize : Payload → Trie → Bytes → Exec Payload
tcp_deserialize uninit trie buffer = do
  maybe_payload_type ← access (trie_match_prefix tcp_prefix_index trie (bytes_get buffer))
  elim maybe_payload_type [
    | negsuc _ ↦ refuse uninit
    | pos value ↦ deserialize_type (of_byte value) uninit buffer
  ]
