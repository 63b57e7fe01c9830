-- ===== src/Udp/Size.antt =====
-- What `udp_serialize` returns is an array of the full size.
use ipk2024_projekt.Base.{List, Yields, Yields-any, Yields-bind, Yields-if, Yields-ret, ret, ℕ}
use ipk2024_projekt.Error.{Exec, get_error, is_set}
use ipk2024_projekt.Bytes.{Bytes, bytes_new}
use ipk2024_projekt.Bytes.Size.{
  HasSize, bytes_new-HasSize, bytes_push-HasSize, bytes_push_arr-HasSize, bytes_push_c_str-HasSize,
}
use ipk2024_projekt.Payload.{
  Payload, PayloadData, PayloadType, auth, bye, confirm, err, join, message, other, reply,
}
use ipk2024_projekt.Udp.{push_bytes, serialize_data, udp_serialize}

push_bytes-HasSize :
    (b : Bytes) (field : List ℕ) (next : Bytes → Exec Bytes)
    → HasSize b
    → ((b : Bytes) → HasSize b → Yields HasSize (next b))
    → Yields HasSize (push_bytes b field next)
unfolding push_bytes
push_bytes-HasSize b field next h hn = Yields-bind _ _ (bytes_push_c_str-HasSize b h field) λ b₁ h₁.
    Yields-bind _ _ (bytes_push-HasSize b₁ h₁ 0) λ b₂ h₂.
      Yields-any get_error _
        λ e. Yields-if (is_set e) (ret b₂) (next b₂) (Yields-ret b₂ h₂) (hn b₂ h₂)

-- The last field.
last_bytes : (b : Bytes) → HasSize b → (field : List ℕ) → Yields HasSize (push_bytes b field ret)
last_bytes b h field = push_bytes-HasSize b field ret h Yields-ret

two_fields :
    (b : Bytes)
    → HasSize b
    → (s t : List ℕ) → Yields HasSize (push_bytes b s λ b. push_bytes b t ret)
two_fields b h s t = push_bytes-HasSize b s _ h λ b₁ h₁. last_bytes b₁ h₁ t

serialize_data-HasSize :
    (type : PayloadType) (d : PayloadData) (b : Bytes)
    → HasSize b
    → Yields HasSize (serialize_data type d b)
unfolding serialize_data
serialize_data-HasSize reply d b h = Yields-bind _ _ (bytes_push-HasSize b h _) λ b₁ h₁.
    Yields-bind _ _ (bytes_push-HasSize b₁ h₁ _) λ b₂ h₂.
      Yields-bind _ _ (bytes_push-HasSize b₂ h₂ _)
        λ b₃ h₃. last_bytes b₃ h₃ d.reply_data.message_content
serialize_data-HasSize auth d b h =
    push_bytes-HasSize b _ _ h λ b₁ h₁. two_fields b₁ h₁ d.auth_data.display_name d.auth_data.secret
serialize_data-HasSize join d b h = two_fields b h d.join_data.channel_id d.join_data.display_name
serialize_data-HasSize message d b h =
    two_fields b h d.message_data.display_name d.message_data.message_content
serialize_data-HasSize err d b h =
    two_fields b h d.message_data.display_name d.message_data.message_content
serialize_data-HasSize confirm d b h = Yields-ret b h
serialize_data-HasSize bye d b h = Yields-ret b h
serialize_data-HasSize (other x) d b h = Yields-ret b h

pub udp_serialize-HasSize : (p : Payload) → Yields HasSize (udp_serialize p)
unfolding udp_serialize
udp_serialize-HasSize p =
    Yields-bind _ _ (bytes_push_arr-HasSize bytes_new bytes_new-HasSize _) λ b h.
      Yields-any get_error _ λ e.
        Yields-if (is_set e) (ret b) (serialize_data p.type p.body b) (Yields-ret b h)
          (serialize_data-HasSize p.type p.body b h)
