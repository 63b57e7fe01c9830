-- ===== src/Payload.antt =====
-- src/payload.h and src/payload.c: payloads, and the readers of their fields.
-- A char array is the C string that it holds, without its NUL. The members of the union are the
-- fields of a record; `err` and `message` have one layout, so they are one field.
use ipk2024_projekt.Base.{
  Bool, List, M, Option, [], access, false, get_elem?, if◌then◌else◌, leb, ltb, negsuc, none, pos,
  ret, some, suc, take, true, within, zero, ℕ, ℤ, ◌%◌, ◌+◌, ◌==◌, ◌>>=◌, ◌>>◌, ◌^◌, ◌||◌,
}
use ipk2024_projekt.Error.{Exec}
use ipk2024_projekt.Bytes.{Bytes, bytes_get}
pub mod Read
pub mod Field
pub mod Fits
pub mod Next

abbrev pub username_len : ℕ
username_len = 20

abbrev pub channel_id_len : ℕ
channel_id_len = 20

abbrev pub secret_len : ℕ
secret_len = 128

abbrev pub display_name_len : ℕ
display_name_len = 20

abbrev pub message_content_len : ℕ
message_content_len = 1400

-- `other` is a byte that is no enumerator: `udp_deserialize` stores it before it looks.
pub data PayloadType : Type 0 where
  confirm reply auth join message err bye : PayloadType
  other : ℕ → PayloadType

-- The enumerators' values.
abbrev pub to_byte : PayloadType → ℕ
to_byte confirm = 0x00
to_byte reply = 0x01
to_byte auth = 0x02
to_byte join = 0x03
to_byte message = 0x04
to_byte err = 0xfe
to_byte bye = 0xff
to_byte (other b) = b

-- A byte as an enumerator.
abbrev pub of_byte : ℕ → PayloadType
of_byte b =
    if b == 0x00
    then confirm
    else if b == 0x01
    then reply
    else if b == 0x02
    then auth
    else if b == 0x03
    then join
    else if b == 0x04
    then message
    else if b == 0xfe
    then err
    else if b == 0xff
    then bye
    else other b

abbrev pub is_confirm : PayloadType → Bool
is_confirm confirm = true
is_confirm _ = false

pub record PayloadJoin : Type 0 where
  pub channel_id : List ℕ
  pub display_name : List ℕ

pub record PayloadReply : Type 0 where
  pub result : Bool
  pub ref_message_id : ℕ
  pub message_content : List ℕ

pub record PayloadAuth : Type 0 where
  pub username : List ℕ
  pub display_name : List ℕ
  pub secret : List ℕ

pub record PayloadMessage : Type 0 where
  pub display_name : List ℕ
  pub message_content : List ℕ

pub record PayloadData : Type 0 where
  pub join_data : PayloadJoin
  pub reply_data : PayloadReply
  pub auth_data : PayloadAuth
  pub message_data : PayloadMessage

pub record Payload : Type 0 where
  pub type : PayloadType
  pub body : PayloadData
  pub id : ℕ

-- `PayloadData data = {0}`
abbrev pub zero_data : PayloadData
zero_data = record {
  join_data = record { channel_id = []; display_name = [] };
  reply_data = record { result = false; ref_message_id = 0; message_content = [] };
  auth_data = record { username = []; display_name = []; secret = [] };
  message_data = record { display_name = []; message_content = [] };
}

-- `Payload payload = {0}`
abbrev pub zero_payload : Payload
zero_payload = record { type = confirm; body = zero_data; id = 0 }

-- A store to one member of the union.
abbrev pub put_reply : Payload → (PayloadReply → PayloadReply) → Payload
put_reply p f = record p { body = record (p.body) { reply_data = f p.body.reply_data } }

abbrev pub put_auth : Payload → (PayloadAuth → PayloadAuth) → Payload
put_auth p f = record p { body = record (p.body) { auth_data = f p.body.auth_data } }

abbrev pub put_join : Payload → (PayloadJoin → PayloadJoin) → Payload
put_join p f = record p { body = record (p.body) { join_data = f p.body.join_data } }

abbrev pub put_message : Payload → (PayloadMessage → PayloadMessage) → Payload
put_message p f = record p { body = record (p.body) { message_data = f p.body.message_data } }

-- The state is NEXT_MESSAGE_ID. `uninit` is what the union holds where no data is given.
unfoldable pub payload_new : PayloadData → PayloadType → Option PayloadData → M ℕ Payload
payload_new uninit type d next = some (
  record { type = type; body = elim d [ none ↦ uninit | some given ↦ given ]; id = next },
  (next + 1) % 2 ^ 16,
)

unfoldable pub is_valid_id : ℕ → Bool
is_valid_id ch = ch == b'-' || within b'a' b'z' ch || within b'A' b'Z' ch || within b'0' b'9' ch

unfoldable pub is_valid_display_name : ℕ → Bool
is_valid_display_name ch = within 0x21 0x7e ch

unfoldable pub is_valid_message_content : ℕ → Bool
is_valid_message_content ch = within 0x20 0x7e ch

-- The loop of `read`, from byte `i` of the slice; the first number is that of the bytes left.
-- `none` in the result stands for the return of -1.
unfoldable pub read_loop : (ℕ → Bool) → ℕ → List ℕ → ℕ → ℕ → ℕ → Option (Option ℕ)
read_loop validator limit bytes zero i count = some (some count)
read_loop validator limit bytes (suc left) i count = elim (get_elem? bytes i) [
  | none ↦ none
  | some ch ↦
      let rest = read_loop validator limit bytes left (i + 1) (count + 1) in
      if validator ch then (if leb limit count then some none else rest) else some (some count)
]

-- The string that `memcpy` leaves in `dest`; nothing is written for a count of 0.
abbrev pub copied : ℕ → List ℕ → List ℕ → List ℕ
copied zero dest bytes = dest
copied (suc n) dest bytes = take (suc n) bytes

-- `dest` is an array of `limit` bytes and a NUL; a count over the limit would write behind it.
unfoldable pub read : (ℕ → Bool) → ℕ → List ℕ → Bytes → Exec (ℤ × List ℕ)
read validator limit dest src = do
  found ← access (read_loop validator limit (bytes_get src) src.len 0 0)
  elim found [
    | none ↦ ret (negsuc 0, dest)
    | some count ↦
        if ltb limit count then access none else ret (pos count, copied count dest (bytes_get src))
  ]

unfoldable pub read_username : List ℕ → Bytes → Exec (ℤ × List ℕ)
read_username dest src = read is_valid_id username_len dest src

unfoldable pub read_channel_id : List ℕ → Bytes → Exec (ℤ × List ℕ)
read_channel_id dest src = read is_valid_id channel_id_len dest src

unfoldable pub read_secret : List ℕ → Bytes → Exec (ℤ × List ℕ)
read_secret dest src = read is_valid_id secret_len dest src

unfoldable pub read_display_name : List ℕ → Bytes → Exec (ℤ × List ℕ)
read_display_name dest src = read is_valid_display_name display_name_len dest src

unfoldable pub read_message_content : List ℕ → Bytes → Exec (ℤ × List ℕ)
read_message_content dest src = read is_valid_message_content message_content_len dest src
