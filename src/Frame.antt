-- ===== src/Frame.antt =====
-- The messages of the protocol, apart from how a `Payload` stores them and how they are sent: the
-- abstract view that the two serializers implement.
use ipk2024_projekt.Base.{All, Bool, List, length, true, ℕ, ◌<◌, ◌^◌, ◌≡◌, ◌≤◌}
use ipk2024_projekt.Payload.{
  Payload, PayloadData, PayloadType, auth, bye, channel_id_len, confirm, display_name_len, err,
  is_valid_display_name, is_valid_id, is_valid_message_content, join, message, message_content_len,
  reply, secret_len, username_len, zero_data,
}

-- One constructor for each kind of message, with the fields that it carries.
pub data Frame : Type 0 where
  confirming leaving : Frame
  replying : Bool → ℕ → List ℕ → Frame
  authenticating : List ℕ → List ℕ → List ℕ → Frame
  joining : List ℕ → List ℕ → Frame
  saying failing : List ℕ → List ℕ → Frame

abbrev pub type_of : Frame → PayloadType
type_of confirming = confirm
type_of leaving = bye
type_of (replying r ref c) = reply
type_of (authenticating u d s) = auth
type_of (joining c d) = join
type_of (saying d c) = message
type_of (failing d c) = err

-- The union with the frame's member set and all else zero.
abbrev pub data_of : Frame → PayloadData
data_of (replying r ref c) = record zero_data {
  reply_data = record { result = r; ref_message_id = ref; message_content = c };
}
data_of (authenticating u d s) = record zero_data {
  auth_data = record { username = u; display_name = d; secret = s };
}
data_of (joining c d) = record zero_data { join_data = record { channel_id = c; display_name = d } }
data_of (saying d c) = record zero_data {
  message_data = record { display_name = d; message_content = c };
}
data_of (failing d c) = record zero_data {
  message_data = record { display_name = d; message_content = c };
}
data_of _ = zero_data

abbrev pub payload_of : ℕ → Frame → Payload
payload_of id f = record { type = type_of f; body = data_of f; id = id }

-- A field that its reader takes whole: valid bytes, at least one, and within the limit.
pub record IsField (validator : ℕ → Bool) (limit : ℕ) (s : List ℕ) : Type 0 where
  pub valid : All (λ x. validator x ≡ true) s
  pub some_byte : 0 < length s
  pub fits : length s ≤ limit

abbrev pub IsUsername : List ℕ → Type 0
IsUsername = IsField is_valid_id username_len

abbrev pub IsChannelId : List ℕ → Type 0
IsChannelId = IsField is_valid_id channel_id_len

abbrev pub IsSecret : List ℕ → Type 0
IsSecret = IsField is_valid_id secret_len

abbrev pub IsDisplayName : List ℕ → Type 0
IsDisplayName = IsField is_valid_display_name display_name_len

abbrev pub IsMessageContent : List ℕ → Type 0
IsMessageContent = IsField is_valid_message_content message_content_len

-- Every field is one that its reader takes, and the numbers fit the machine's types.
abbrev pub IsValidFrame : Frame → Type 0
IsValidFrame confirming = Unit
IsValidFrame leaving = Unit
IsValidFrame (replying r ref c) = (ref < 2 ^ 16) × IsMessageContent c
IsValidFrame (authenticating u d s) = IsUsername u × IsDisplayName d × IsSecret s
IsValidFrame (joining c d) = IsChannelId c × IsDisplayName d
IsValidFrame (saying d c) = IsDisplayName d × IsMessageContent c
IsValidFrame (failing d c) = IsDisplayName d × IsMessageContent c
