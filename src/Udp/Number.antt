-- ===== src/Udp/Number.antt =====
-- The number of a payload that came in.
use ipk2024_projekt.Base.{
  All, All-append, All-drop, All-get_elem?, All-replicate, All-take, List, Yields, Yields-access,
  Yields-any, Yields-bind, Yields-if, Yields-ret, Yields-then, access, add64, arith, get_elem?, ltb,
  negsuc, refl, ret, subst, sym, take, to_size_t, ℕ, ℤ, ◌*◌, ◌+◌, ◌<◌, ◌==◌, ◌^◌, ◌≡◌,
}
use ipk2024_projekt.Error.{Error, Exec, invalid_payload, set_error}
use ipk2024_projekt.Bytes.{Bytes, bytes_get, bytes_size, bytes_skip_first_n, received}
use ipk2024_projekt.Payload.{
  Payload, PayloadType, auth, bye, confirm, err, join, message, of_byte, other, put_auth, put_join,
  put_message, read, reply, zero_payload,
}
use ipk2024_projekt.Udp.{
  after_func, deserialize_auth, deserialize_content, deserialize_data, deserialize_join,
  deserialize_message, deserialize_ref, deserialize_reply, finish, read_field, read_message_id,
  read_result, refuse, udp_deserialize,
}

abbrev IsNumbered : Payload → Type 0
IsNumbered p = p.id < 2 ^ 16

-- Code that gives a numbered payload where it is given one.
abbrev KeepsNumber : (Payload → Bytes → Exec Payload) → Type 0
KeepsNumber next = (p : Payload) (b : Bytes) → p.id < 2 ^ 16 → Yields IsNumbered (next p b)

refuse-KeepsNumber : (p : Payload) → p.id < 2 ^ 16 → Yields IsNumbered (refuse p)
refuse-KeepsNumber p h = Yields-then (set_error invalid_payload) (ret p) (Yields-ret p h)

finish-KeepsNumber : KeepsNumber finish
unfolding finish
finish-KeepsNumber p b h = Yields-if _ _ _ (Yields-ret p h) (refuse-KeepsNumber p h)

after_func-KeepsNumber :
    (b : Bytes) (read : ℕ) (p : Payload) (next : Payload → Bytes → Exec Payload)
    → p.id < 2 ^ 16
    → KeepsNumber next
    → Yields IsNumbered (after_func b read p next)
unfolding after_func
after_func-KeepsNumber b read p next h k =
    Yields-if (read == 0) _ _ (refuse-KeepsNumber p h) (k p _ h)

-- READ, where the field is stored beside the number.
field-KeepsNumber :
    (reader : List ℕ → Bytes → Exec (ℤ × List ℕ)) (dest : List ℕ) (b : Bytes)
    (put : List ℕ → Payload) (next : Payload → Bytes → Exec Payload)
    → ((s : List ℕ) → (put s).id < 2 ^ 16)
    → KeepsNumber next
    → Yields IsNumbered (read_field reader dest b put next)
unfolding read_field
field-KeepsNumber reader dest b put next h k = Yields-any (reader dest b) _ λ (result, dest').
    Yields-if (to_size_t result == 0) _ _ (refuse-KeepsNumber (put dest') (h dest')) (
      Yields-any (access (get_elem? b.cells (add64 b.offset (to_size_t result)))) _ λ ending.
        Yields-if (ending == 0) _ _
          (k (put dest') (bytes_skip_first_n b (add64 (to_size_t result) 1)) (h dest'))
          (refuse-KeepsNumber (put dest') (h dest')))

content-KeepsNumber : KeepsNumber deserialize_content
unfolding deserialize_content
content-KeepsNumber p b h = field-KeepsNumber _ _ b _ finish (λ s. h) finish-KeepsNumber

ref-KeepsNumber : KeepsNumber deserialize_ref
unfolding deserialize_ref
ref-KeepsNumber p b h =
    Yields-any (read_message_id b p.body.reply_data.ref_message_id) _
      λ (read, ref). after_func-KeepsNumber b read _ deserialize_content h content-KeepsNumber

reply-KeepsNumber : KeepsNumber deserialize_reply
unfolding deserialize_reply
reply-KeepsNumber p b h =
    Yields-any (read_result b p.body.reply_data.result) _
      λ (read, result). after_func-KeepsNumber b read _ deserialize_ref h ref-KeepsNumber

-- Two fields, as JOIN, MSG and ERR have them.
two-KeepsNumber :
    (r₁ r₂ : List ℕ → Bytes → Exec (ℤ × List ℕ)) (dest : List ℕ) (b : Bytes) (d₂ : Payload → List ℕ)
    (put : List ℕ → Payload) (put₂ : Payload → List ℕ → Payload)
    → ((s : List ℕ) → (put s).id < 2 ^ 16)
    → ((p : Payload) (s : List ℕ) → (put₂ p s).id ≡ p.id)
    → Yields IsNumbered (read_field r₁ dest b put (λ p b. read_field r₂ (d₂ p) b (put₂ p) finish))
two-KeepsNumber r₁ r₂ dest b d₂ put put₂ h same = field-KeepsNumber r₁ dest b put _ h λ p b h.
    field-KeepsNumber r₂ (d₂ p) b (put₂ p) finish (λ s. subst (λ n. n < 2 ^ 16) (sym (same p s)) h)
      finish-KeepsNumber

auth-KeepsNumber : KeepsNumber deserialize_auth
unfolding deserialize_auth
auth-KeepsNumber p b h =
    field-KeepsNumber _ _ b _ _ (λ s. h)
      λ p b h.
        two-KeepsNumber _ _ _ b (λ p. p.body.auth_data.secret) _
          (λ p s. put_auth p (λ r. record r { secret = s })) (λ s. h) (λ p s. refl)

data-KeepsNumber : (type : PayloadType) → KeepsNumber (deserialize_data type)
unfolding deserialize_data deserialize_join deserialize_message
data-KeepsNumber reply p b h = reply-KeepsNumber p b h
data-KeepsNumber auth p b h = auth-KeepsNumber p b h
data-KeepsNumber join p b h =
    two-KeepsNumber _ _ _ b (λ p. p.body.join_data.display_name) _
      (λ p s. put_join p (λ r. record r { display_name = s })) (λ s. h) (λ p s. refl)
data-KeepsNumber message p b h =
    two-KeepsNumber _ _ _ b (λ p. p.body.message_data.message_content) _
      (λ p s. put_message p (λ r. record r { message_content = s })) (λ s. h) (λ p s. refl)
data-KeepsNumber err p b h =
    two-KeepsNumber _ _ _ b (λ p. p.body.message_data.message_content) _
      (λ p s. put_message p (λ r. record r { message_content = s })) (λ s. h) (λ p s. refl)
data-KeepsNumber confirm p b h = finish-KeepsNumber p b h
data-KeepsNumber bye p b h = finish-KeepsNumber p b h
data-KeepsNumber (other x) p b h = refuse-KeepsNumber p h

-- Two bytes make a number of 16 bits.
message_id-Yields :
    (b : Bytes) (output : ℕ)
    → output < 2 ^ 16
    → All (λ x. x < 256) b.cells
    → Yields (λ r. r.1 < 2 ^ 16) (read_message_id b output)
unfolding read_message_id
message_id-Yields b output small bytes =
    Yields-if (ltb b.len 2) _ _ (Yields-ret (to_size_t (negsuc 0), output) small) (
      Yields-bind (access (get_elem? (bytes_get b) 0)) _ (byte 0) λ high hh.
        Yields-bind (access (get_elem? (bytes_get b) 1)) _ (byte 1)
          λ low hl. Yields-ret (2, high * 256 + low) (omega (arith, hh, hl)))
  where
    byte : (i : ℕ) → Yields (λ x. x < 256) (access {S = Error} (get_elem? (bytes_get b) i))
    byte i = Yields-access (get_elem? (bytes_get b) i) λ x e.
        All-get_elem? (λ x. x < 256) (bytes_get b) i x
          (All-drop (λ x. x < 256) b.offset b.cells bytes) e

received-bytes :
    (packet : List ℕ) → All (λ x. x < 256) packet → All (λ x. x < 256) (received packet).cells
received-bytes packet bytes =
    All-append (λ x. x < 256) (take bytes_size packet) _
      (All-take (λ x. x < 256) bytes_size packet bytes)
      (All-replicate (λ x. x < 256) _ 0 (omega arith))

skipped-bytes :
    (b : Bytes) (n : ℕ)
    → All (λ x. x < 256) b.cells
    → All (λ x. x < 256) (bytes_skip_first_n b n).cells
unfolding bytes_skip_first_n
skipped-bytes b n h = h

-- A packet of bytes gives a payload with a number of 16 bits.
pub udp_deserialize-id :
    (packet : List ℕ)
    → All (λ x. x < 256) packet
    → Yields (λ p. p.id < 2 ^ 16) (udp_deserialize (received packet))
unfolding udp_deserialize
udp_deserialize-id packet bytes =
    Yields-if (ltb (received packet).len 3) _ _ (refuse-KeepsNumber zero_payload (omega arith)) (
      Yields-any (access (get_elem? (bytes_get (received packet)) 0)) _ λ byte.
        Yields-bind (read_message_id (bytes_skip_first_n (received packet) 1) 0) _
          (message_id-Yields (bytes_skip_first_n (received packet) 1) 0 (omega arith)
            (skipped-bytes (received packet) 1 (received-bytes packet bytes)))
          λ (read, id') h.
            data-KeepsNumber (of_byte byte) (record zero_payload { type = of_byte byte; id = id' })
              _ h)
