-- ===== src/Udp.antt =====
-- src/udp.c: the UDP form of a payload. The macros PUSH_BYTES, READ_FUNC and READ are functions
-- that take what follows them as their last argument.
pub mod Wire
pub mod Serialize
pub mod Size
pub mod Fits
pub mod Deserialize
pub mod RoundTrip
pub mod Safe
pub mod Number
pub mod Overlong
use ipk2024_projekt.Base.{
  Bool, List, [], access, add64, get_elem?, if◌then◌else◌, ltb, negsuc, not, ret, to_size_t, ℕ, ℤ,
  ◌%◌, ◌&&◌, ◌*◌, ◌+◌, ◌/◌, ◌==◌, ◌>>=◌, ◌>>◌, ◌∷◌,
}
use ipk2024_projekt.Error.{Exec, get_error, invalid_payload, is_set, set_error}
use ipk2024_projekt.Bytes.{
  Bytes, bytes_get, bytes_new, bytes_push, bytes_push_arr, bytes_push_c_str, bytes_skip_first_n,
}
use ipk2024_projekt.Payload.{
  Payload, PayloadData, PayloadType, auth, bye, confirm, err, join, message, of_byte, other,
  put_auth, put_join, put_message, put_reply, read, read_channel_id, read_display_name,
  read_message_content, read_secret, read_username, reply, to_byte, zero_payload,
}

-- PUSH_BYTES
unfoldable pub push_bytes : Bytes → List ℕ → (Bytes → Exec Bytes) → Exec Bytes
push_bytes buffer field next = do
  pushed ← bytes_push_c_str buffer field
  ended ← bytes_push pushed 0
  error ← get_error
  if is_set error then ret ended else next ended

-- The switch of `udp_serialize`.
unfoldable pub serialize_data : PayloadType → PayloadData → Bytes → Exec Bytes
serialize_data reply d buffer = do
  b₁ ← bytes_push buffer (if d.reply_data.result then 1 else 0)
  b₂ ← bytes_push b₁ (d.reply_data.ref_message_id / 256 % 256)
  b₃ ← bytes_push b₂ (d.reply_data.ref_message_id % 256)
  push_bytes b₃ d.reply_data.message_content ret
serialize_data auth d buffer =
    push_bytes buffer d.auth_data.username
      λ b₁. push_bytes b₁ d.auth_data.display_name λ b₂. push_bytes b₂ d.auth_data.secret ret
serialize_data join d buffer =
    push_bytes buffer d.join_data.channel_id λ b₁. push_bytes b₁ d.join_data.display_name ret
serialize_data message d buffer =
    push_bytes buffer d.message_data.display_name
      λ b₁. push_bytes b₁ d.message_data.message_content ret
serialize_data err d buffer =
    push_bytes buffer d.message_data.display_name
      λ b₁. push_bytes b₁ d.message_data.message_content ret
serialize_data _ d buffer = ret buffer

unfoldable pub udp_serialize : Payload → Exec Bytes
udp_serialize payload = do
  let header = to_byte payload.type ∷ (payload.id / 256 % 256) ∷ (payload.id % 256) ∷ []
  buffer ← bytes_push_arr bytes_new header
  error ← get_error
  if is_set error then ret buffer else serialize_data payload.type payload.body buffer

-- The two bytes share no bit, so `|` adds them. The first result is a `size_t`.
unfoldable pub read_message_id : Bytes → ℕ → Exec (ℕ × ℕ)
read_message_id bytes output = if ltb bytes.len 2 then ret (to_size_t (negsuc 0), output) else do
  high ← access (get_elem? (bytes_get bytes) 0)
  low ← access (get_elem? (bytes_get bytes) 1)
  ret (2, high * 256 + low)

unfoldable pub read_result : Bytes → Bool → Exec (ℕ × Bool)
read_result bytes output =
    if bytes.len == 0 then (do set_error invalid_payload; ret (0, output)) else do
      res ← access (get_elem? (bytes_get bytes) 0)
      if not (res == 0) && not (res == 1)
          then (do set_error invalid_payload; ret (0, output))
          else ret (1, res == 1)

-- `set_error(Error_InvalidPayload); return payload`
abbrev pub refuse : Payload → Exec Payload
refuse payload = do set_error invalid_payload; ret payload

-- READ_FUNC: `read` is what the function returned, and `payload` has its output stored.
unfoldable pub after_func : Bytes → ℕ → Payload → (Payload → Bytes → Exec Payload) → Exec Payload
after_func buffer read payload next =
    if read == 0 then refuse payload else next payload (bytes_skip_first_n buffer read)

-- READ: `put` stores the string in its member. The result of the reader is kept in a `size_t`, so
-- that -1 is the largest number, and the byte then looked at stands in front of the slice.
unfoldable pub read_field :
    (List ℕ → Bytes → Exec (ℤ × List ℕ))
    → List ℕ
    → Bytes
    → (List ℕ → Payload)
    → (Payload → Bytes → Exec Payload)
    → Exec Payload
read_field reader dest buffer put next = do
  (result, dest') ← reader dest buffer
  let read = to_size_t result
  if read == 0 then refuse (put dest') else do
    ending ← access (get_elem? buffer.cells (add64 buffer.offset read))
    if ending == 0
        then next (put dest') (bytes_skip_first_n buffer (add64 read 1))
        else refuse (put dest')

-- The check behind the switch.
unfoldable pub finish : Payload → Bytes → Exec Payload
finish payload buffer = if buffer.len == 0 then ret payload else refuse payload

-- The three reads of the case of REPLY, the last one first.
unfoldable pub deserialize_content : Payload → Bytes → Exec Payload
deserialize_content p b =
    read_field read_message_content p.body.reply_data.message_content b
      (λ s. put_reply p (λ r. record r { message_content = s })) finish

unfoldable pub deserialize_ref : Payload → Bytes → Exec Payload
deserialize_ref p b = do
  (read, ref) ← read_message_id b p.body.reply_data.ref_message_id
  after_func b read (put_reply p (λ r. record r { ref_message_id = ref })) deserialize_content

unfoldable pub deserialize_reply : Payload → Bytes → Exec Payload
deserialize_reply p b = do
  (read, result') ← read_result b p.body.reply_data.result
  after_func b read (put_reply p (λ r. record r { result = result' })) deserialize_ref

unfoldable pub deserialize_auth : Payload → Bytes → Exec Payload
deserialize_auth p b =
    read_field read_username p.body.auth_data.username b
      (λ s. put_auth p (λ r. record r { username = s }))
      λ p b.
        read_field read_display_name p.body.auth_data.display_name b
          (λ s. put_auth p (λ r. record r { display_name = s }))
          λ p b.
            read_field read_secret p.body.auth_data.secret b
              (λ s. put_auth p (λ r. record r { secret = s })) finish

unfoldable pub deserialize_join : Payload → Bytes → Exec Payload
deserialize_join p b =
    read_field read_channel_id p.body.join_data.channel_id b
      (λ s. put_join p (λ r. record r { channel_id = s }))
      λ p b.
        read_field read_display_name p.body.join_data.display_name b
          (λ s. put_join p (λ r. record r { display_name = s })) finish

-- The cases of MSG and of ERR, which differ in the name of one member.
unfoldable pub deserialize_message : Payload → Bytes → Exec Payload
deserialize_message p b =
    read_field read_display_name p.body.message_data.display_name b
      (λ s. put_message p (λ r. record r { display_name = s }))
      λ p b.
        read_field read_message_content p.body.message_data.message_content b
          (λ s. put_message p (λ r. record r { message_content = s })) finish

-- The test on the type, and the switch.
unfoldable pub deserialize_data : PayloadType → Payload → Bytes → Exec Payload
deserialize_data reply = deserialize_reply
deserialize_data auth = deserialize_auth
deserialize_data join = deserialize_join
deserialize_data message = deserialize_message
deserialize_data err = deserialize_message
deserialize_data confirm = finish
deserialize_data bye = finish
deserialize_data (other b) = λ payload buffer. refuse payload

unfoldable pub udp_deserialize : Bytes → Exec Payload
udp_deserialize buffer = if ltb buffer.len 3 then refuse zero_payload else do
  byte ← access (get_elem? (bytes_get buffer) 0)
  let b₁ = bytes_skip_first_n buffer 1
  (read, id') ← read_message_id b₁ 0
  let payload = record zero_payload { type = of_byte byte; id = id' }
  deserialize_data (of_byte byte) payload (bytes_skip_first_n b₁ 2)
