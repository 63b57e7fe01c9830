-- ===== src/Udp/Fits.antt =====
-- Where `udp_serialize` returns.
use ipk2024_projekt.Base.{
  Any, List, Returns, Returns-bind, Returns-if, arith, length, ret, ℕ, ◌+◌, ◌≤◌,
}
use ipk2024_projekt.Error.{Exec, get_error, is_set}
use ipk2024_projekt.Bytes.{Bytes, bytes_new, bytes_push, bytes_push_arr, bytes_push_c_str}
use ipk2024_projekt.Bytes.Room.{
  Fitting, HasRoom, HasRoom-le, Returns-get_error, bytes_new-HasRoom, bytes_push-HasRoom,
  bytes_push_arr-HasRoom, bytes_push_c_str-HasRoom, ret-Fitting,
}
use ipk2024_projekt.Payload.{
  Payload, PayloadData, PayloadType, auth, bye, confirm, err, join, message, other, reply,
}
use ipk2024_projekt.Payload.Fits.{Fits, FitsIn}
use ipk2024_projekt.Udp.{push_bytes, serialize_data, udp_serialize}

-- A field of at most `n` bytes, its NUL, and what follows.
push_bytes-Fitting :
    (field : List ℕ) (n k : ℕ) (next : Bytes → Exec Bytes)
    → length field ≤ n
    → Fitting k next
    → Fitting (n + (1 + k)) (λ b. push_bytes b field next)
unfolding push_bytes
push_bytes-Fitting field n k next fits fitting b r =
    Returns-bind (bytes_push_c_str b field) _ (bytes_push_c_str-HasRoom (1 + k) b field n fits r)
      λ b₁ r₁. Returns-bind (bytes_push b₁ 0) _ (bytes_push-HasRoom k b₁ 0 r₁) λ b₂ r₂.
        Returns-bind get_error _ (Returns-get_error)
          λ e _. Returns-if (is_set e) _ _ (λ s. ret-Fitting k b₂ r₂) (λ s. fitting b₂ r₂)

last-Fitting :
    (field : List ℕ) (n : ℕ) → length field ≤ n → Fitting (n + 1) (λ b. push_bytes b field ret)
last-Fitting field n fits b r =
    push_bytes-Fitting field n 0 ret fits (ret-Fitting 0) b (HasRoom-le b (omega arith) r)

two-Fitting :
    (s t : List ℕ) (m n : ℕ)
    → length s ≤ m
    → length t ≤ n
    → Fitting (m + (1 + (n + 1))) (λ b. push_bytes b s λ b. push_bytes b t ret)
two-Fitting s t m n hs ht = push_bytes-Fitting s m (n + 1) _ hs (last-Fitting t n ht)

serialize_data-Fitting :
    (type : PayloadType) (d : PayloadData) → FitsIn type d → Fitting 1450 (serialize_data type d)
unfolding serialize_data
serialize_data-Fitting reply d fits b r =
    Returns-bind (bytes_push b _) _ (bytes_push-HasRoom 1449 b _ r) λ b₁ r₁.
      Returns-bind (bytes_push b₁ _) _ (bytes_push-HasRoom 1448 b₁ _ r₁) λ b₂ r₂.
        Returns-bind (bytes_push b₂ _) _ (bytes_push-HasRoom 1447 b₂ _ r₂) λ b₃ r₃.
          last-Fitting d.reply_data.message_content 1400 fits b₃ (HasRoom-le b₃ (omega arith) r₃)
serialize_data-Fitting auth d (u, n, s) b r =
    push_bytes-Fitting d.auth_data.username 20 (20 + (1 + (128 + 1))) _ u
      (two-Fitting _ _ 20 128 n s) b (HasRoom-le b (omega arith) r)
serialize_data-Fitting join d (c, n) b r =
    two-Fitting _ _ 20 20 c n b (HasRoom-le b (omega arith) r)
serialize_data-Fitting message d (n, c) b r =
    two-Fitting _ _ 20 1400 n c b (HasRoom-le b (omega arith) r)
serialize_data-Fitting err d (n, c) b r =
    two-Fitting _ _ 20 1400 n c b (HasRoom-le b (omega arith) r)
serialize_data-Fitting confirm d fits b r = ret-Fitting 1450 b r
serialize_data-Fitting bye d fits b r = ret-Fitting 1450 b r
serialize_data-Fitting (other x) d fits b r = ret-Fitting 1450 b r

pub udp_serialize-HasRoom : (p : Payload) → Fits p → Returns Any (HasRoom 0) (udp_serialize p)
unfolding udp_serialize
udp_serialize-HasRoom p fits =
    Returns-bind (bytes_push_arr bytes_new _) _
      (bytes_push_arr-HasRoom 1450 bytes_new _ 3 (omega arith)
        (HasRoom-le bytes_new (omega arith) bytes_new-HasRoom))
      λ b r. Returns-bind get_error _ Returns-get_error λ e _.
        Returns-if (is_set e) _ _ (λ s. ret-Fitting 1450 b r)
          (λ s. serialize_data-Fitting p.type p.body fits b r)
