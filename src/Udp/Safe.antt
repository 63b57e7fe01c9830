-- ===== src/Udp/Safe.antt =====
-- Where `udp_deserialize` reads.
use ipk2024_projekt.Base.{
  Bool, Bool-cases, List, [], add64, ap, arith, drop, drop-ge, false, get_elem?-lt, inl, inr,
  length, length-append, length-drop, length-replicate, length-take, ltb, lt→ltb, negsuc, none, pos,
  refl, replicate, some, take, to_size_t, ℕ, ℤ, ◌*◌, ◌++◌, ◌+◌, ◌-◌, ◌<◌, ◌==◌, ◌>>=◌, ◌^◌, ◌∙◌,
  ◌∷◌, ◌≡◌, ◌≢◌, ◌≤◌,
}
use ipk2024_projekt.Error.{Error, Exec}
use ipk2024_projekt.Bytes.{Bytes, bytes_size, bytes_skip_first_n, received}
use ipk2024_projekt.Bytes.View.{Fills, bytes_get-view, bytes_skip_first_n_lem, view}
use ipk2024_projekt.Payload.{
  Payload, PayloadType, auth, bye, confirm, copied, err, is_valid_display_name, is_valid_id,
  is_valid_message_content, join, message, of_byte, other, put_reply, read, read_channel_id,
  read_display_name, read_message_content, read_secret, read_username, reply, zero_payload,
}
use ipk2024_projekt.Payload.Read.{read_lem, read_result_of, valid_front}
use ipk2024_projekt.Udp.Deserialize.{read_message_id-view, skip_one, skip_two}
use ipk2024_projekt.Udp.{
  after_func, deserialize_auth, deserialize_content, deserialize_data, deserialize_join,
  deserialize_message, deserialize_ref, deserialize_reply, finish, read_field, read_message_id,
  read_result, udp_deserialize,
}

-- A slice of the buffer that begins between `lo` and `hi` cells from its start.
record Starts (lo hi : ℕ) (front slice back : List ℕ) : Type 0 where
  fills : Fills front slice back
  from : lo ≤ length front
  upto : length front ≤ hi

-- What follows a reader does not fault on a slice that begins at `hi` at most.
abbrev SafeFrom : ℕ → (Payload → Bytes → Exec Payload) → Type 0
SafeFrom hi next =
    (p : Payload) (front slice back : List ℕ) (error : Error)
    → Starts 1 hi front slice back
    → next p (view front slice back) error ≢ none

finish_safe : (hi : ℕ) → SafeFrom hi finish
unfolding finish
finish_safe hi p front slice back error s = ground arith

after_skip :
    (hi n : ℕ) (next : Payload → Bytes → Exec Payload) (p : Payload) (front slice back : List ℕ)
    (error : Error)
    → SafeFrom (hi + n) next
    → Starts 1 hi front slice back
    → next p (bytes_skip_first_n (view front slice back) n) error ≢ none
after_skip hi n next p front slice back error safe s =
    rw (bytes_skip_first_n_lem front slice back n (omega (arith, s.fills))) (
      safe p (front ++ take n slice) (drop n slice) back error (record {
        fills = omega (arith, s.fills, taken, length-drop n slice, length-take n slice);
        from = omega (arith, s.from, taken);
        upto = omega (arith, s.upto, taken, length-take n slice);
      }))
  where
    taken : length (front ++ take n slice) ≡ length front + length (take n slice)
    taken = length-append front (take n slice)

SafeFrom-le :
    (lo hi : ℕ) (next : Payload → Bytes → Exec Payload)
    → lo ≤ hi
    → SafeFrom hi next
    → SafeFrom lo next
SafeFrom-le lo hi next h safe p front slice back error s =
    safe p front slice back error
      (record { fills = s.fills; from = s.from; upto = omega (arith, s.upto) })

length-valid_front :
    (validator : ℕ → Bool) (slice : List ℕ) → length (valid_front validator slice) ≤ length slice
length-valid_front validator [] = omega arith
length-valid_front validator (x ∷ slice) = ground (arith, length-valid_front validator slice)

module _ (reader : List ℕ → Bytes → Exec (ℤ × List ℕ)) (limit hi : ℕ) (dest : List ℕ)
    (put : List ℕ → Payload) (next : Payload → Bytes → Exec Payload) (front slice back : List ℕ)
    (error : Error) (safe : SafeFrom (hi + (limit + 1)) next)
    (s : Starts 1 hi front slice back) where
  -- READ after a reader that returned `result`, where the byte that it looks at is in the array.
  after_reader_safe :
      (result : ℤ) (dest' : List ℕ)
      → reader dest (view front slice back) error ≡ some ((result, dest'), error)
      → add64 (length front) (to_size_t result) < bytes_size
      → add64 (to_size_t result) 1 ≤ limit + 1
      → read_field reader dest (view front slice back) put next error ≢ none
  unfolding read_field
  after_reader_safe result dest' e inside few =
      let cells : length (front ++ (slice ++ back)) ≡ bytes_size =
        omega (arith, s.fills, length-append front (slice ++ back), length-append slice back) in
      let (x, got) =
        get_elem?-lt (front ++ (slice ++ back)) (add64 (length front) (to_size_t result))
          (omega (arith, cells)) in
      let skipped =
        after_skip hi (add64 (to_size_t result) 1) next (put dest') front slice back error
          (SafeFrom-le _ _ next (omega (arith, few)) safe) s in
      λ fault. ground arith

  -- The two results that a reader can have.
  reader_safe :
      (validator : ℕ → Bool)
      → reader ≡ read validator limit
      → hi + limit < bytes_size
      → read_field reader dest (view front slice back) put next error ≢ none
  reader_safe validator is h = elim (Bool-cases (ltb limit n)) [
    | inl over ↦
        after_reader_safe (negsuc 0) dest (result ∙ rw over) (omega (arith, s.from, s.fills))
          (omega arith)
    | inr fits ↦
        after_reader_safe (pos n) (copied n dest valid) (result ∙ rw fits)
          (omega (arith, s.upto, bound fits)) (omega (arith, bound fits))
  ]
    where
      valid : List ℕ
      valid = valid_front validator slice

      n : ℕ
      n = length valid

      bound : ltb limit n ≡ false → n ≤ limit
      bound e = ground arith

      result :
          reader dest (view front slice back) error ≡ some (read_result_of limit dest valid, error)
      result =
          ap (λ r. r dest (view front slice back) error) is
          ∙ read_lem validator limit dest front slice back error

field_SafeFrom :
    (reader : List ℕ → Bytes → Exec (ℤ × List ℕ)) (validator : ℕ → Bool) (limit hi : ℕ)
    (dest : Payload → List ℕ) (put : Payload → List ℕ → Payload)
    (next : Payload → Bytes → Exec Payload)
    → reader ≡ read validator limit
    → hi + limit < bytes_size
    → SafeFrom (hi + (limit + 1)) next
    → SafeFrom hi (λ p b. read_field reader (dest p) b (put p) next)
field_SafeFrom reader validator limit hi dest put next is h safe p front slice back error s =
    reader_safe reader limit hi (dest p) (put p) next front slice back error safe s validator is h

auth_SafeFrom : SafeFrom 3 deserialize_auth
unfolding deserialize_auth read_username read_display_name read_secret
auth_SafeFrom = field_SafeFrom _ is_valid_id 20 3 _ _ _ refl (omega arith) (
    field_SafeFrom _ is_valid_display_name 20 24 _ _ _ refl (omega arith)
      (field_SafeFrom _ is_valid_id 128 45 _ _ _ refl (omega arith) (finish_safe 174)))

join_SafeFrom : SafeFrom 3 deserialize_join
unfolding deserialize_join read_channel_id read_display_name
join_SafeFrom =
    field_SafeFrom _ is_valid_id 20 3 _ _ _ refl (omega arith)
      (field_SafeFrom _ is_valid_display_name 20 24 _ _ _ refl (omega arith) (finish_safe 45))

message_SafeFrom : SafeFrom 3 deserialize_message
unfolding deserialize_message read_message_content read_display_name
message_SafeFrom =
    field_SafeFrom _ is_valid_display_name 20 3 _ _ _ refl (omega arith) (
      field_SafeFrom _ is_valid_message_content 1400 24 _ _ _ refl (omega arith) (finish_safe 1425))

-- On an empty slice READ refuses, wherever the slice stands.
read_field_empty :
    (validator : ℕ → Bool) (limit : ℕ) (dest front back : List ℕ) (put : List ℕ → Payload)
    (next : Payload → Bytes → Exec Payload) (error : Error)
    → read_field (read validator limit) dest (view front [] back) put next error ≢ none
unfolding read_field
read_field_empty validator limit dest front back put next error =
    λ fault. ground (arith, read_lem validator limit dest front [] back error)

content_SafeFrom : SafeFrom 6 deserialize_content
unfolding deserialize_content read_message_content
content_SafeFrom =
    field_SafeFrom _ is_valid_message_content 1400 6 _ _ _ refl (omega arith) (finish_safe 1407)

-- A reference that is cut short is refused behind it, at the end of the slice.
short_ref :
    (p : Payload) (front slice back : List ℕ) (error : Error)
    → length slice < 2
    → Starts 1 4 front slice back
    → deserialize_ref p (view front slice back) error ≢ none
unfolding deserialize_ref read_message_id after_func deserialize_content read_message_content
short_ref p front slice back error h s =
    let all : List ℕ = front ++ take (2 ^ 64 - 1) slice in
    let gone : drop (2 ^ 64 - 1) slice ≡ [] = drop-ge (2 ^ 64 - 1) slice (omega arith) in
    let skipped = bytes_skip_first_n_lem front slice back (2 ^ 64 - 1) (omega (arith, s.fills)) in
    let last =
      read_field_empty is_valid_message_content 1400 p.body.reply_data.message_content all back
        (λ m. put_reply p (λ r. record r { message_content = m })) finish error in
    rw (lt→ltb (length slice) 2 h, skipped, gone) last

ref_SafeFrom : SafeFrom 4 deserialize_ref
unfolding deserialize_ref after_func
ref_SafeFrom p front [] back error s = short_ref p front [] back error (omega arith) s
ref_SafeFrom p front (x ∷ []) back error s = short_ref p front (x ∷ []) back error (omega arith) s
ref_SafeFrom p front (x ∷ y ∷ slice) back error s =
    let next =
      after_skip 4 2 deserialize_content
        (put_reply p (λ r. record r { ref_message_id = x * 256 + y })) front (x ∷ y ∷ slice) back
        error content_SafeFrom s in
    rw (read_message_id-view front slice back x y p.body.reply_data.ref_message_id error, ◌>>=◌)
      next

reply_SafeFrom : SafeFrom 3 deserialize_reply
unfolding deserialize_reply read_result after_func
reply_SafeFrom p front [] back error s = λ fault. ground arith
reply_SafeFrom p front (x ∷ slice) back error s =
    let next = λ (r : Bool).
      after_skip 3 1 deserialize_ref (put_reply p (λ d. record d { result = r })) front (x ∷ slice)
        back error ref_SafeFrom s in
    λ fault. ground (arith, bytes_get-view front (x ∷ slice) back, next (x == 1))

data_SafeFrom : (type : PayloadType) → SafeFrom 3 (deserialize_data type)
unfolding deserialize_data
data_SafeFrom reply = reply_SafeFrom
data_SafeFrom auth = auth_SafeFrom
data_SafeFrom join = join_SafeFrom
data_SafeFrom message = message_SafeFrom
data_SafeFrom err = message_SafeFrom
data_SafeFrom confirm = finish_safe 3
data_SafeFrom bye = finish_safe 3
data_SafeFrom (other b) = λ p front slice back error s fault. cc

three_SafeFrom :
    (slice back : List ℕ) (error : Error)
    → Fills [] slice back
    → udp_deserialize (view [] slice back) error ≢ none
unfolding udp_deserialize
three_SafeFrom (x ∷ y ∷ z ∷ slice) back error h =
    let rest =
      data_SafeFrom (of_byte x) (record zero_payload { type = of_byte x; id = y * 256 + z })
        (x ∷ y ∷ z ∷ []) slice back error
        (record { fills = omega arith; from = omega arith; upto = omega arith }) in
    λ fault. ground (
      arith,
      bytes_get-view [] (x ∷ y ∷ z ∷ slice) back,
      skip_one [] (y ∷ z ∷ slice) back x (omega arith),
      read_message_id-view (x ∷ []) slice back y z 0 error,
      skip_two (x ∷ []) slice back y z (omega arith),
      rest,
    )
three_SafeFrom _ back error h = λ fault. ground arith

-- Whatever one packet brings, `udp_deserialize` reads only inside its buffer, and returns.
pub udp_deserialize_safe :
    (packet : List ℕ) (error : Error) → udp_deserialize (received packet) error ≢ none
udp_deserialize_safe packet error =
    let kept : List ℕ = take bytes_size packet in
    three_SafeFrom kept (replicate (bytes_size - length kept) 0) error (
      omega (
        arith,
        length-take bytes_size packet,
        length-replicate {A = ℕ} (bytes_size - length kept) 0,
      ))
