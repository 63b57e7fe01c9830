-- ===== src/Tcp/Fits.antt =====
-- Where `tcp_serialize` returns.
use ipk2024_projekt.Base.{
  Any, List, Returns, Returns-bind, Returns-if, Returns-then, arith, codes, length, not, ret, ℕ,
  ◌+◌, ◌==◌, ◌≤◌,
}
use ipk2024_projekt.Error.{Exec, get_error, invalid_payload, is_set, set_error}
use ipk2024_projekt.Bytes.{Bytes, bytes_new, bytes_push_c_str, bytes_size, strlen}
use ipk2024_projekt.Bytes.Room.{
  Fitting, HasRoom, HasRoom-le, Returns-get_error, Returns-set_error, bytes_new-HasRoom,
  bytes_push_c_str-HasRoom, ret-Fitting,
}
use ipk2024_projekt.Payload.{
  Payload, PayloadAuth, PayloadData, PayloadJoin, PayloadMessage, PayloadReply, PayloadType, auth,
  bye, channel_id_len, confirm, display_name_len, err, join, message, message_content_len, other,
  reply, secret_len, username_len,
}
use ipk2024_projekt.Payload.Fits.{Fits, FitsIn}
use ipk2024_projekt.Tcp.{
  push_end, push_str, serialize_auth, serialize_join, serialize_reply, serialize_text,
  serialize_type, tcp_serialize,
}

-- A string of at most `n` bytes, and what follows.
push_str-Fitting :
    (str : List ℕ) (n k : ℕ) (next : Bytes → Exec Bytes)
    → length str ≤ n
    → Fitting k next
    → Fitting (n + k) (λ b. push_str str b next)
unfolding push_str
push_str-Fitting str n k next fits fitting b r =
    Returns-if (strlen str == 0) _ _
      (λ e.
        Returns-then (set_error invalid_payload) _ (Returns-set_error invalid_payload)
          (ret-Fitting (n + k) b r))
      λ e.
        Returns-bind (bytes_push_c_str b str) _ (bytes_push_c_str-HasRoom k b str n fits r) λ b₁ r₁.
          Returns-bind get_error _ Returns-get_error
            λ error _. Returns-if (is_set error) _ _ (λ s. ret-Fitting k b₁ r₁) (λ s. fitting b₁ r₁)

push_end-Fitting : Fitting 2 push_end
unfolding push_end
push_end-Fitting = push_str-Fitting (codes "\r\n") 2 0 ret (omega arith) (ret-Fitting 0)

-- A field, the end of the line behind it.
last-Fitting :
    (str : List ℕ) (n : ℕ) → length str ≤ n → Fitting (n + 2) (λ b. push_str str b push_end)
last-Fitting str n fits = push_str-Fitting str n 2 push_end fits push_end-Fitting

serialize_text-Returns :
    (start : List ℕ) (d : PayloadMessage)
    → length start ≤ 20
    → length d.display_name ≤ display_name_len
    → length d.message_content ≤ message_content_len
    → Returns Any (HasRoom 0) (serialize_text start d)
unfolding serialize_text
serialize_text-Returns start d s n c =
    push_str-Fitting start 20 _ _ s
      (push_str-Fitting d.display_name 20 _ _ n (
        push_str-Fitting (codes " IS ") 4 _ _ (omega arith)
          (last-Fitting d.message_content 1400 c)))
      bytes_new (HasRoom-le bytes_new (omega arith) bytes_new-HasRoom)

serialize_reply-Returns :
    (d : PayloadReply)
    → length d.message_content ≤ message_content_len
    → Returns Any (HasRoom 0) (serialize_reply d)
unfolding serialize_reply
serialize_reply-Returns d c =
    push_str-Fitting (codes "REPLY ") 6 1409 _ (omega arith)
      (λ b r.
        Returns-if (not d.result) _ _
          (λ e.
            push_str-Fitting (codes "N") 1 _ _ (omega arith) tail b (HasRoom-le b (omega arith) r))
          (λ e. tail b (HasRoom-le b (omega arith) r)))
      bytes_new (HasRoom-le bytes_new (omega arith) bytes_new-HasRoom)
  where
    tail :
        Fitting 1408 (λ b. push_str (codes "OK IS ") b λ b. push_str d.message_content b push_end)
    tail =
        push_str-Fitting (codes "OK IS ") 6 1402 _ (omega arith)
          (last-Fitting d.message_content 1400 c)

serialize_auth-Returns :
    (d : PayloadAuth)
    → length d.username ≤ username_len
    → length d.display_name ≤ display_name_len
    → length d.secret ≤ secret_len
    → Returns Any (HasRoom 0) (serialize_auth d)
unfolding serialize_auth
serialize_auth-Returns d u n s =
    push_str-Fitting (codes "AUTH ") 5 _ _ (omega arith)
      (push_str-Fitting d.username 20 _ _ u (
        push_str-Fitting (codes " AS ") 4 _ _ (omega arith) (
          push_str-Fitting d.display_name 20 _ _ n (
            push_str-Fitting (codes " USING ") 7 _ _ (omega arith) (last-Fitting d.secret 128 s)))))
      bytes_new (HasRoom-le bytes_new (omega arith) bytes_new-HasRoom)

serialize_join-Returns :
    (d : PayloadJoin)
    → length d.channel_id ≤ channel_id_len
    → length d.display_name ≤ display_name_len
    → Returns Any (HasRoom 0) (serialize_join d)
unfolding serialize_join
serialize_join-Returns d c n =
    push_str-Fitting (codes "JOIN ") 5 _ _ (omega arith)
      (push_str-Fitting d.channel_id 20 _ _ c
        (push_str-Fitting (codes " AS ") 4 _ _ (omega arith) (last-Fitting d.display_name 20 n)))
      bytes_new (HasRoom-le bytes_new (omega arith) bytes_new-HasRoom)

serialize_type-Returns :
    (type : PayloadType) (d : PayloadData)
    → FitsIn type d
    → Returns Any (HasRoom 0) (serialize_type type d)
unfolding serialize_type
serialize_type-Returns confirm d fits =
    Returns-then (set_error invalid_payload) _ (Returns-set_error invalid_payload)
      (ret-Fitting bytes_size bytes_new bytes_new-HasRoom)
serialize_type-Returns auth d (u, n, s) = serialize_auth-Returns d.auth_data u n s
serialize_type-Returns reply d c = serialize_reply-Returns d.reply_data c
serialize_type-Returns join d (c, n) = serialize_join-Returns d.join_data c n
serialize_type-Returns message d (n, c) =
    serialize_text-Returns (codes "MSG FROM ") d.message_data (omega arith) n c
serialize_type-Returns err d (n, c) =
    serialize_text-Returns (codes "ERR FROM ") d.message_data (omega arith) n c
serialize_type-Returns bye d fits =
    push_str-Fitting (codes "BYE") 3 2 push_end (omega arith) push_end-Fitting bytes_new
      (HasRoom-le bytes_new (omega arith) bytes_new-HasRoom)
serialize_type-Returns (other b) d fits =
    push_end-Fitting bytes_new (HasRoom-le bytes_new (omega arith) bytes_new-HasRoom)

pub tcp_serialize-HasRoom : (p : Payload) → Fits p → Returns Any (HasRoom 0) (tcp_serialize p)
unfolding tcp_serialize
tcp_serialize-HasRoom p fits = serialize_type-Returns p.type p.body fits
