-- ===== src/Udp/RoundTrip.antt =====
-- `udp_deserialize` reads back what `udp_serialize` wrote.
use ipk2024_projekt.Base.{
  Bool, List, [], ap, arith, false, if◌then◌else◌, length, length-append, refl, some, ℕ, ◌%◌, ◌*◌,
  ◌++◌, ◌+◌, ◌/◌, ◌<◌, ◌^◌, ◌∙◌, ◌∷◌, ◌≡◌, ◌≤◌,
}
use ipk2024_projekt.Error.{Error, no_error}
use ipk2024_projekt.Bytes.{Bytes, received, transmitted}
use ipk2024_projekt.Bytes.View.{IsSmall, bytes_get-view, view}
use ipk2024_projekt.Bytes.Push.{holding, received-transmitted}
use ipk2024_projekt.Payload.{
  Payload, is_valid_display_name, is_valid_id, is_valid_message_content, message_content_len,
  of_byte, read, read_channel_id, read_display_name, read_message_content, read_secret,
  read_username, to_byte, zero_payload,
}
use ipk2024_projekt.Frame.{
  Frame, IsField, IsValidFrame, authenticating, confirming, failing, joining, leaving, payload_of,
  replying, saying, type_of,
}
use ipk2024_projekt.Udp.{
  after_func, deserialize_auth, deserialize_content, deserialize_data, deserialize_join,
  deserialize_message, deserialize_ref, deserialize_reply, finish, read_field, udp_deserialize,
  udp_serialize,
}
use ipk2024_projekt.Udp.Wire.{datagram, ended, fields_of}
use ipk2024_projekt.Udp.Serialize.{udp_serialize-datagram}
use ipk2024_projekt.Udp.Deserialize.{
  read_field-view, read_message_id-view, read_result-view, skip_one, skip_two,
}

two_fields :
    (v₁ v₂ : ℕ → Bool) (l₁ l₂ : ℕ) (d₁ front s₁ s₂ back : List ℕ) (d₂ : Payload → List ℕ)
    (put₁ : List ℕ → Payload) (put₂ : Payload → List ℕ → Payload) (error : Error)
    → v₁ 0 ≡ false
    → v₂ 0 ≡ false
    → IsField v₁ l₁ s₁
    → IsField v₂ l₂ s₂
    → IsSmall front (ended s₁ (ended s₂ []))
    → read_field
        (read v₁ l₁)
        d₁
        (view front (ended s₁ (ended s₂ [])) back)
        put₁
        (λ p b. read_field (read v₂ l₂) (d₂ p) b (put₂ p) finish)
        error
      ≡ some (put₂ (put₁ s₁) s₂, error)
unfolding finish
two_fields v₁ v₂ l₁ l₂ d₁ front s₁ s₂ back d₂ put₁ put₂ error h₁ h₂ f₁ f₂ small =
    read_field-view v₁ l₁ d₁ front s₁ (ended s₂ []) back put₁ _ error h₁ f₁ small
    ∙ read_field-view v₂ l₂ _ (front ++ ended s₁ []) s₂ [] back (put₂ (put₁ s₁)) finish error h₂ f₂
        (omega (
          arith,
          length-append front (ended s₁ []),
          length-append s₁ (0 ∷ []),
          length-append s₁ (0 ∷ ended s₂ []),
        ))

deserialize_data-fields :
    (id : ℕ) (f : Frame) (front back : List ℕ) (error : Error)
    → IsValidFrame f
    → IsSmall front (fields_of f)
    → deserialize_data
        (type_of f)
        (record zero_payload { type = type_of f; id = id })
        (view front (fields_of f) back)
        error
      ≡ some (payload_of id f, error)
unfolding deserialize_data deserialize_join finish is_valid_id is_valid_display_name
    is_valid_message_content read_channel_id read_display_name deserialize_message
    read_message_content deserialize_auth read_username read_secret deserialize_reply
    deserialize_ref deserialize_content after_func
deserialize_data-fields id confirming front back error v small = refl
deserialize_data-fields id leaving front back error v small = refl
deserialize_data-fields id (replying r ref c) front back error v small =
    let high = ref / 256 % 256 in
    let low = ref % 256 in
    let flag : ℕ = if r then 1 else 0 in
    let front₁ = front ++ (flag ∷ []) in
    let front₂ = front₁ ++ (high ∷ low ∷ []) in
    let l₁ = length-append front (flag ∷ []) in
    let l₂ = length-append front₁ (high ∷ low ∷ []) in
    let value : high * 256 + low ≡ ref = omega (arith, v.0) in
    let last =
      read_field-view is_valid_message_content message_content_len [] front₂ c [] back
        (λ m. payload_of id (replying r ref m)) finish error refl v.1 (omega (arith, l₁, l₂)) in
    ground (
      arith,
      read_result-view front (high ∷ low ∷ ended c []) back r false error,
      skip_one front (high ∷ low ∷ ended c []) back flag small,
      read_message_id-view front₁ (ended c []) back high low 0 error,
      skip_two front₁ (ended c []) back high low (omega (arith, l₁)),
      value,
      last,
    )
deserialize_data-fields id (authenticating u d s) front back error v small =
    read_field-view _ _ _ front u (ended d (ended s [])) back _ _ error refl v.0 small
    ∙ two_fields _ _ _ _ _ (front ++ ended u []) d s back _ _ _ error refl refl v.1 v.2 (
        omega (
          arith,
          length-append front (ended u []),
          length-append u (0 ∷ []),
          length-append u (0 ∷ ended d (ended s [])),
        ))
deserialize_data-fields id (joining c d) front back error v small =
    two_fields _ _ _ _ _ front c d back _ _ _ error refl refl v.0 v.1 small
deserialize_data-fields id (saying d c) front back error v small =
    two_fields _ _ _ _ _ front d c back _ _ _ error refl refl v.0 v.1 small
deserialize_data-fields id (failing d c) front back error v small =
    two_fields _ _ _ _ _ front d c back _ _ _ error refl refl v.0 v.1 small

-- A datagram at the start of the array is read back as the message that it was made of.
pub udp_deserialize-datagram :
    (id : ℕ) (f : Frame) (back : List ℕ) (error : Error)
    → id < 2 ^ 16
    → IsValidFrame f
    → length (datagram id f) < 2 ^ 64
    → udp_deserialize (view [] (datagram id f) back) error ≡ some (payload_of id f, error)
unfolding udp_deserialize
udp_deserialize-datagram id f back error h v small =
    let high = id / 256 % 256 in
    let low = id % 256 in
    let byte = to_byte (type_of f) in
    let value : high * 256 + low ≡ id = omega arith in
    ground (
      arith,
      type_back f,
      bytes_get-view [] (datagram id f) back,
      skip_one [] (high ∷ low ∷ fields_of f) back byte (omega arith),
      read_message_id-view (byte ∷ []) (fields_of f) back high low 0 error,
      skip_two (byte ∷ []) (fields_of f) back high low (omega arith),
      value,
      deserialize_data-fields id f (byte ∷ high ∷ low ∷ []) back error v (omega arith),
    )
  where
    type_back : (f : Frame) → of_byte (to_byte (type_of f)) ≡ type_of f
    type_back confirming = refl
    type_back _ = refl

length-ended :
    (limit : ℕ) (s rest : List ℕ)
    → length s ≤ limit
    → length (ended s rest) ≤ limit + 1 + length rest
length-ended limit s rest h = omega (arith, length-append s (0 ∷ rest))

-- No datagram of a valid message is longer than 1427 bytes.
pub length-datagram : (id : ℕ) (f : Frame) → IsValidFrame f → length (datagram id f) ≤ 1427
length-datagram id confirming v = omega arith
length-datagram id leaving v = omega arith
length-datagram id (replying r ref c) v = omega (arith, length-ended _ c [] v.1.fits)
length-datagram id (authenticating u d s) v = omega (
  arith,
  length-ended _ u (ended d (ended s [])) v.0.fits,
  length-ended _ d (ended s []) v.1.fits,
  length-ended _ s [] v.2.fits,
)
length-datagram id (joining c d) v =
    omega (arith, length-ended _ c (ended d []) v.0.fits, length-ended _ d [] v.1.fits)
length-datagram id (saying d c) v =
    omega (arith, length-ended _ d (ended c []) v.0.fits, length-ended _ c [] v.1.fits)
length-datagram id (failing d c) v =
    omega (arith, length-ended _ d (ended c []) v.0.fits, length-ended _ c [] v.1.fits)

-- What a valid message is sent as, received in one packet, is read back as that message; neither
-- side sets an error.
pub udp_round_trip :
    (id : ℕ) (f : Frame)
    → id < 2 ^ 16
    → IsValidFrame f
    → (b : Bytes) × (udp_serialize (payload_of id f) no_error ≡ some (b, no_error))
      × (udp_deserialize (received (transmitted b)) no_error ≡ some (payload_of id f, no_error))
udp_round_trip id f h v = (
  holding (datagram id f),
  udp_serialize-datagram id f v,
  ap (λ b. udp_deserialize b no_error)
        (received-transmitted (datagram id f) (omega (arith, length-datagram id f v)))
      ∙ udp_deserialize-datagram id f _ no_error h v (omega (arith, length-datagram id f v)),
)
