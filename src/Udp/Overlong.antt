-- ===== src/Udp/Overlong.antt =====
-- A display name over its limit, which `udp_deserialize` does not refuse: READ keeps the -1 of
-- `read` in a `size_t`, so that the test for an error fails, and looks at the byte in front.
use ipk2024_projekt.Base.{
  All, List, [], add64, ap, append-nil, append_assoc, arith, get_elem?, get_elem?-behind, length,
  length-append, refl, some, true, ℕ, ◌*◌, ◌++◌, ◌+◌, ◌-◌, ◌<◌, ◌^◌, ◌∙◌, ◌∷◌, ◌≡◌, ◌≤◌,
}
use ipk2024_projekt.Error.{Error, Exec}
use ipk2024_projekt.Bytes.{Bytes}
use ipk2024_projekt.Bytes.View.{IsSmall, bytes_get-view, bytes_skip_first_n_lem, view}
use ipk2024_projekt.Payload.{
  Payload, display_name_len, is_valid_display_name, is_valid_message_content, message,
  message_content_len, put_message, read_display_name, read_message_content, to_byte,
}
use ipk2024_projekt.Payload.Read.{read_lem}
use ipk2024_projekt.Payload.Field.{valid_front-stop}
use ipk2024_projekt.Frame.{IsMessageContent, payload_of, saying}
use ipk2024_projekt.Udp.{deserialize_data, deserialize_message, finish, read_field, udp_deserialize}
use ipk2024_projekt.Udp.Wire.{ended}
use ipk2024_projekt.Udp.Deserialize.{read_field-view, read_message_id-view, skip_one, skip_two}

abbrev IsDisplayBytes : List ℕ → Type 0
IsDisplayBytes d = All (λ x. is_valid_display_name x ≡ true) d

content_valid : (d : List ℕ) → IsDisplayBytes d → All (λ x. is_valid_message_content x ≡ true) d
unfolding is_valid_display_name is_valid_message_content
content_valid [] v = tt
content_valid (x ∷ d) (hx, hd) = (ground arith, content_valid d hd)

overlong_field :
    (d front rest back : List ℕ) (put : List ℕ → Payload) (next : Payload → Bytes → Exec Payload)
    (error : Error)
    → IsDisplayBytes d
    → display_name_len < length d
    → IsSmall (front ++ (0 ∷ [])) (ended d rest)
    → read_field read_display_name [] (view (front ++ (0 ∷ [])) (ended d rest) back) put next error
      ≡ next (put []) (view (front ++ (0 ∷ [])) (ended d rest) back) error
unfolding read_field read_display_name is_valid_display_name
overlong_field d front rest back put next error v over small = ground (
  arith,
  read_lem is_valid_display_name display_name_len [] (front ++ (0 ∷ [])) (ended d rest) back error,
  valid_front-stop is_valid_display_name d rest 0 v refl,
  byte_in_front,
  bytes_skip_first_n_lem (front ++ (0 ∷ [])) (ended d rest) back 0 small,
  append-nil (front ++ (0 ∷ [])),
)
  where
    index : add64 (length (front ++ (0 ∷ []))) (2 ^ 64 - 1) ≡ length front
    index = omega (arith, length-append front (0 ∷ []), small)

    byte_in_front :
        get_elem?
          ((front ++ (0 ∷ [])) ++ (ended d rest ++ back))
          (add64 (length (front ++ (0 ∷ []))) (2 ^ 64 - 1))
        ≡ some 0
    byte_in_front =
        ap (get_elem? ((front ++ (0 ∷ [])) ++ (ended d rest ++ back))) index
        ∙ ap (λ l. get_elem? l (length front)) (append_assoc front (0 ∷ []) _)
        ∙ get_elem?-behind front _ (length front) 0 (omega arith)

-- A MSG datagram that ends behind its display name, whose number is divisible by 256 and whose
-- display name has 21 to 1400 bytes, all of them valid in a display name, is taken for a message
-- with that text as its content and no display name, and sets no error.
pub udp_overlong_display_name :
    (high : ℕ) (d back : List ℕ) (error : Error)
    → IsDisplayBytes d
    → display_name_len < length d
    → length d ≤ message_content_len
    → udp_deserialize (view [] (to_byte message ∷ high ∷ 0 ∷ ended d []) back) error
      ≡ some (payload_of (high * 256) (saying [] d), error)
unfolding udp_deserialize deserialize_data deserialize_message read_message_content finish
udp_overlong_display_name high d back error v over fits = ground (
  arith,
  bytes_get-view [] (to_byte message ∷ high ∷ 0 ∷ ended d []) back,
  skip_one [] (high ∷ 0 ∷ ended d []) back (to_byte message) small₁,
  read_message_id-view (to_byte message ∷ []) (ended d []) back high 0 0 error,
  skip_two (to_byte message ∷ []) (ended d []) back high 0 small₂,
  overlong_field d (to_byte message ∷ high ∷ []) [] back put next error v over small₃,
  read_field-view is_valid_message_content message_content_len [] (to_byte message ∷ high ∷ 0 ∷ [])
      d [] back (λ m. payload_of (high * 256 + 0) (saying [] m)) finish error
      (unfold is_valid_message_content in refl) content small₃,
)
  where
    sizes : length (ended d []) ≡ length d + 1
    sizes = omega (arith, length-append d (0 ∷ []))

    small₁ : IsSmall [] (to_byte message ∷ high ∷ 0 ∷ ended d [])
    small₁ = omega (arith, sizes)

    small₂ : IsSmall (to_byte message ∷ []) (high ∷ 0 ∷ ended d [])
    small₂ = omega (arith, sizes)

    small₃ : IsSmall (to_byte message ∷ high ∷ 0 ∷ []) (ended d [])
    small₃ = omega (arith, sizes)

    put : List ℕ → Payload
    put s = payload_of (high * 256 + 0) (saying s [])

    next : Payload → Bytes → Exec Payload
    next p b =
        read_field read_message_content p.body.message_data.message_content b
          (λ s. put_message p (λ r. record r { message_content = s })) finish

    content : IsMessageContent d
    content = record { valid = content_valid d v; some_byte = omega arith; fits = fits }
