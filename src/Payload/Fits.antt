-- ===== src/Payload/Fits.antt =====
-- Payloads whose strings are within the limits of their fields.
use ipk2024_projekt.Base.{length, ◌≤◌}
use ipk2024_projekt.Payload.{
  Payload, PayloadData, PayloadType, auth, channel_id_len, display_name_len, err, join, message,
  message_content_len, reply, secret_len, username_len,
}

-- Of the union only the member of the type counts.
abbrev pub FitsIn : PayloadType → PayloadData → Type 0
FitsIn reply d = length d.reply_data.message_content ≤ message_content_len
FitsIn auth d =
    (length d.auth_data.username ≤ username_len)
    × (length d.auth_data.display_name ≤ display_name_len)
    × (length d.auth_data.secret ≤ secret_len)
FitsIn join d =
    (length d.join_data.channel_id ≤ channel_id_len)
    × (length d.join_data.display_name ≤ display_name_len)
FitsIn message d =
    (length d.message_data.display_name ≤ display_name_len)
    × (length d.message_data.message_content ≤ message_content_len)
FitsIn err d =
    (length d.message_data.display_name ≤ display_name_len)
    × (length d.message_data.message_content ≤ message_content_len)
FitsIn _ d = Unit {0}

abbrev pub Fits : Payload → Type 0
Fits p = FitsIn p.type p.body
