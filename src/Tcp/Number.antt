-- ===== src/Tcp/Number.antt =====
-- The number of a payload that came in as a line: what the variable held before.
use ipk2024_projekt.Base.{
  List, Yields, Yields-any, Yields-if, Yields-ret, Yields-then, access, codes, get_elem?,
  if◌then◌else◌, negsuc, not, pos, refl, ret, suc, zero, ℕ, ℤ, ◌==◌, ◌≡◌,
}
use ipk2024_projekt.Error.{Exec, invalid_payload, set_error}
use ipk2024_projekt.Bytes.{Bytes, bytes_get, bytes_skip_first_n, strlen}
use ipk2024_projekt.Payload.{
  Payload, PayloadType, auth, bye, confirm, err, join, message, of_byte, other, put_reply,
  read_channel_id, read_display_name, read_message_content, read_secret, read_username, reply,
}
use ipk2024_projekt.Trie.{Trie, trie_match_prefix}
use ipk2024_projekt.Tcp.{
  deserialize_auth, deserialize_join, deserialize_reply, deserialize_result, deserialize_text,
  deserialize_type, finish, line_end, read_field, refuse, skip_str, starts_with, tcp_deserialize,
  tcp_prefix_index,
}

abbrev HasNumber : ℕ → Payload → Type 0
HasNumber n p = p.id ≡ n

-- Code that gives a payload with the number `n` where it is given one.
abbrev KeepsNumber : ℕ → (Payload → Bytes → Exec Payload) → Type 0
KeepsNumber n next = (p : Payload) (b : Bytes) → p.id ≡ n → Yields (HasNumber n) (next p b)

module _ (n : ℕ) where
  refuse-KeepsNumber : (p : Payload) → p.id ≡ n → Yields (HasNumber n) (refuse p)
  refuse-KeepsNumber p h = Yields-then (set_error invalid_payload) (ret p) (Yields-ret p h)

  finish-KeepsNumber : (type : PayloadType) → KeepsNumber n (finish type)
  unfolding finish
  finish-KeepsNumber type p b h =
      Yields-if (b.len == 0) _ _ (Yields-ret (record p { type = type }) h)
        (refuse-KeepsNumber (record p { type = type }) h)

  skip_str-KeepsNumber :
      (str : List ℕ) (next : Payload → Bytes → Exec Payload)
      → KeepsNumber n next
      → KeepsNumber n (λ p b. skip_str str p b next)
  unfolding skip_str
  skip_str-KeepsNumber str next k p b h = Yields-any (access (starts_with b str)) _ λ found.
      Yields-if (not found) _ _ (refuse-KeepsNumber p h) (k p (bytes_skip_first_n b (strlen str)) h)

  line_end-KeepsNumber : (type : PayloadType) → KeepsNumber n (line_end type)
  unfolding line_end
  line_end-KeepsNumber type =
      skip_str-KeepsNumber (codes "\r\n") (finish type) (finish-KeepsNumber type)

  field-KeepsNumber :
      (reader : List ℕ → Bytes → Exec (ℤ × List ℕ)) (dest : List ℕ) (b : Bytes)
      (put : List ℕ → Payload) (next : Payload → Bytes → Exec Payload)
      → ((s : List ℕ) → (put s).id ≡ n)
      → KeepsNumber n next
      → Yields (HasNumber n) (read_field reader dest b put next)
  unfolding read_field
  field-KeepsNumber reader dest b put next h k =
      Yields-any (reader dest b) _ λ (result, dest'). by_result dest' result
    where
      by_result :
          (dest' : List ℕ) (result : ℤ)
          → Yields (HasNumber n) (elim result as (λ _. Exec Payload) [
            | negsuc _ ↦ refuse (put dest')
            | pos zero ↦ refuse (put dest')
            | pos (suc m) ↦ next (put dest') (bytes_skip_first_n b (suc m))
          ])
      by_result dest' (negsuc m) = refuse-KeepsNumber (put dest') (h dest')
      by_result dest' (pos zero) = refuse-KeepsNumber (put dest') (h dest')
      by_result dest' (pos (suc m)) = k (put dest') (bytes_skip_first_n b (suc m)) (h dest')

  join-KeepsNumber : KeepsNumber n deserialize_join
  unfolding deserialize_join
  join-KeepsNumber p b h =
      field-KeepsNumber read_channel_id _ _ _ _ (λ s. h)
        (skip_str-KeepsNumber (codes " AS ") _
          λ p b h. field-KeepsNumber read_display_name _ b _ _ (λ s. h) (line_end-KeepsNumber join))

  auth-KeepsNumber : KeepsNumber n deserialize_auth
  unfolding deserialize_auth
  auth-KeepsNumber p b h =
      field-KeepsNumber read_username _ _ _ _ (λ s. h)
        (skip_str-KeepsNumber (codes " AS ") _ λ p b h.
          field-KeepsNumber read_display_name _ b _ _ (λ s. h)
            (skip_str-KeepsNumber (codes " USING ") _
              λ p b h. field-KeepsNumber read_secret _ b _ _ (λ s. h) (line_end-KeepsNumber auth)))

  text-KeepsNumber : (type : PayloadType) → KeepsNumber n (deserialize_text type)
  unfolding deserialize_text
  text-KeepsNumber type p b h =
      field-KeepsNumber read_display_name _ _ _ _ (λ s. h)
        (skip_str-KeepsNumber (codes " IS ") _ λ p b h.
          field-KeepsNumber read_message_content _ b _ _ (λ s. h) (line_end-KeepsNumber type))

  reply-KeepsNumber : KeepsNumber n deserialize_reply
  unfolding deserialize_reply deserialize_result
  reply-KeepsNumber p b h =
      Yields-any (access (get_elem? (bytes_get (bytes_skip_first_n b 6)) 0)) _ λ ch.
        skip_str-KeepsNumber (codes "OK IS ") _
          (λ p b h.
            field-KeepsNumber read_message_content _ b _ _ (λ s. h) (line_end-KeepsNumber reply))
          (put_reply p (λ r. record r { result = not (ch == b'N') }))
          (bytes_skip_first_n (bytes_skip_first_n b 6) (if not (ch == b'N') then 0 else 1)) h

  type-KeepsNumber : (type : PayloadType) → KeepsNumber n (deserialize_type type)
  unfolding deserialize_type
  type-KeepsNumber join = join-KeepsNumber
  type-KeepsNumber auth = auth-KeepsNumber
  type-KeepsNumber reply = reply-KeepsNumber
  type-KeepsNumber message = text-KeepsNumber message
  type-KeepsNumber err = text-KeepsNumber err
  type-KeepsNumber bye = λ p b h. finish-KeepsNumber bye p (bytes_skip_first_n b 5) h
  type-KeepsNumber confirm = λ p b h. refuse-KeepsNumber p h
  type-KeepsNumber (other x) = λ p b h. refuse-KeepsNumber p h

-- No line carries a number, so the payload keeps the one that its variable held.
pub tcp_deserialize-id :
    (uninit : Payload) (trie : Trie) (b : Bytes)
    → Yields (λ p. p.id ≡ uninit.id) (tcp_deserialize uninit trie b)
unfolding tcp_deserialize
tcp_deserialize-id uninit trie b =
    Yields-any (access (trie_match_prefix tcp_prefix_index trie (bytes_get b))) _ told
  where
    told :
        (type : ℤ)
        → Yields
            (λ p. p.id ≡ uninit.id)
            (elim type as (λ _. Exec Payload) [
              | negsuc _ ↦ refuse uninit
              | pos value ↦ deserialize_type (of_byte value) uninit b
            ])
    told (negsuc m) = refuse-KeepsNumber uninit.id uninit refl
    told (pos v) = type-KeepsNumber uninit.id (of_byte v) uninit b refl
