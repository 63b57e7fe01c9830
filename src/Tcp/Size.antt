-- ===== src/Tcp/Size.antt =====
-- What `tcp_serialize` returns is an array of the full size.
use ipk2024_projekt.Base.{
  List, Yields, Yields-any, Yields-bind, Yields-if, Yields-ret, Yields-then, codes, not, ret, ℕ,
  ◌==◌,
}
use ipk2024_projekt.Error.{Exec, get_error, invalid_payload, is_set, set_error}
use ipk2024_projekt.Bytes.{Bytes, bytes_new, bytes_push_c_str, strlen}
use ipk2024_projekt.Bytes.Size.{HasSize, bytes_new-HasSize, bytes_push_c_str-HasSize}
use ipk2024_projekt.Payload.{
  Payload, PayloadAuth, PayloadData, PayloadJoin, PayloadMessage, PayloadReply, PayloadType, auth,
  bye, confirm, err, join, message, other, reply,
}
use ipk2024_projekt.Tcp.{
  push_end, push_str, serialize_auth, serialize_join, serialize_reply, serialize_text,
  serialize_type, tcp_serialize,
}

-- Code that keeps the size of the buffer that it is given.
abbrev KeepsSize : (Bytes → Exec Bytes) → Type 0
KeepsSize next = (b : Bytes) → HasSize b → Yields HasSize (next b)

push_str-KeepsSize :
    (str : List ℕ) (next : Bytes → Exec Bytes)
    → KeepsSize next
    → KeepsSize (λ b. push_str str b next)
unfolding push_str
push_str-KeepsSize str next hn b h =
    Yields-if (strlen str == 0) _ _ (Yields-then (set_error invalid_payload) _ (Yields-ret b h)) (
      Yields-bind (bytes_push_c_str b str) _ (bytes_push_c_str-HasSize b h str) λ b₁ h₁.
        Yields-any get_error _
          λ e. Yields-if (is_set e) (ret b₁) (next b₁) (Yields-ret b₁ h₁) (hn b₁ h₁))

push_end-KeepsSize : KeepsSize push_end
unfolding push_end
push_end-KeepsSize = push_str-KeepsSize (codes "\r\n") ret Yields-ret

-- A string, another behind it, and what follows.
push_two :
    (s t : List ℕ) (next : Bytes → Exec Bytes)
    → KeepsSize next
    → KeepsSize (λ b. push_str s b λ b. push_str t b next)
push_two s t next hn = push_str-KeepsSize s _ (push_str-KeepsSize t next hn)

serialize_text-HasSize :
    (start : List ℕ) (d : PayloadMessage) → Yields HasSize (serialize_text start d)
unfolding serialize_text
serialize_text-HasSize start d =
    push_two start d.display_name _ (push_two (codes " IS ") d.message_content _ push_end-KeepsSize)
      bytes_new bytes_new-HasSize

serialize_reply-HasSize : (d : PayloadReply) → Yields HasSize (serialize_reply d)
unfolding serialize_reply
serialize_reply-HasSize d =
    push_str-KeepsSize (codes "REPLY ") _
      (λ b h. Yields-if (not d.result) _ _ (push_str-KeepsSize (codes "N") _ tail b h) (tail b h))
      bytes_new bytes_new-HasSize
  where
    tail : KeepsSize (λ b. push_str (codes "OK IS ") b λ b. push_str d.message_content b push_end)
    tail = push_two (codes "OK IS ") d.message_content _ push_end-KeepsSize

serialize_auth-HasSize : (d : PayloadAuth) → Yields HasSize (serialize_auth d)
unfolding serialize_auth
serialize_auth-HasSize d =
    push_two (codes "AUTH ") d.username _
      (push_two (codes " AS ") d.display_name _
        (push_two (codes " USING ") d.secret _ push_end-KeepsSize))
      bytes_new bytes_new-HasSize

serialize_join-HasSize : (d : PayloadJoin) → Yields HasSize (serialize_join d)
unfolding serialize_join
serialize_join-HasSize d =
    push_two (codes "JOIN ") d.channel_id _
      (push_two (codes " AS ") d.display_name _ push_end-KeepsSize) bytes_new bytes_new-HasSize

serialize_type-HasSize :
    (type : PayloadType) (d : PayloadData) → Yields HasSize (serialize_type type d)
unfolding serialize_type
serialize_type-HasSize confirm d =
    Yields-then (set_error invalid_payload) _ (Yields-ret bytes_new bytes_new-HasSize)
serialize_type-HasSize auth d = serialize_auth-HasSize d.auth_data
serialize_type-HasSize reply d = serialize_reply-HasSize d.reply_data
serialize_type-HasSize join d = serialize_join-HasSize d.join_data
serialize_type-HasSize message d = serialize_text-HasSize (codes "MSG FROM ") d.message_data
serialize_type-HasSize err d = serialize_text-HasSize (codes "ERR FROM ") d.message_data
serialize_type-HasSize bye d =
    push_str-KeepsSize (codes "BYE") push_end push_end-KeepsSize bytes_new bytes_new-HasSize
serialize_type-HasSize (other b) d = push_end-KeepsSize bytes_new bytes_new-HasSize

pub tcp_serialize-HasSize : (p : Payload) → Yields HasSize (tcp_serialize p)
unfolding tcp_serialize
tcp_serialize-HasSize p = serialize_type-HasSize p.type p.body
