-- ===== src/Udp/Serialize.antt =====
-- `udp_serialize` writes the format of Udp/Wire.
use ipk2024_projekt.Base.{
  Bool, List, [], ap, append-nil, append_assoc, arith, false, if◌then◌else◌, length, length-append,
  refl, ret, some, ℕ, ◌%◌, ◌++◌, ◌+◌, ◌/◌, ◌<◌, ◌>>=◌, ◌∙◌, ◌∷◌, ◌≡◌,
}
use ipk2024_projekt.Error.{Error, Exec, no_error}
use ipk2024_projekt.Bytes.{Bytes, bytes_push, bytes_push_c_str, bytes_size}
use ipk2024_projekt.Bytes.Push.{bytes_push_arr-holding, holding}
use ipk2024_projekt.Payload.{is_valid_display_name, is_valid_id, is_valid_message_content, to_byte}
use ipk2024_projekt.Payload.Field.{c_str-All}
use ipk2024_projekt.Frame.{
  Frame, IsField, IsValidFrame, authenticating, confirming, data_of, failing, joining, leaving,
  payload_of, replying, saying, type_of,
}
use ipk2024_projekt.Udp.{push_bytes, serialize_data, udp_serialize}
use ipk2024_projekt.Udp.Wire.{datagram, ended, fields_of}

bytes_push-holding :
    (written : List ℕ) (x : ℕ) (error : Error)
    → length written < bytes_size
    → bytes_push (holding written) x error ≡ some (holding (written ++ (x ∷ [])), error)
unfolding bytes_push
bytes_push-holding written x error h = bytes_push_arr-holding written (x ∷ []) error (omega arith)

push_bytes-holding :
    (validator : ℕ → Bool) (limit : ℕ) (written s : List ℕ) (next : Bytes → Exec Bytes)
    → validator 0 ≡ false
    → IsField validator limit s
    → length written + limit < bytes_size
    → push_bytes (holding written) s next no_error ≡ next (holding (written ++ ended s [])) no_error
unfolding push_bytes bytes_push_c_str
push_bytes-holding validator limit written s next h v room = rw (
  c_str-All validator s h v.valid,
  bytes_push_arr-holding written s no_error (omega (arith, v.fits)),
  bytes_push-holding (written ++ s) 0 no_error (omega (arith, v.fits, length-append written s)),
  append_assoc written s (0 ∷ []),
  ◌>>=◌,
)

length-ended : (written s : List ℕ) → length (written ++ ended s []) ≡ length written + length s + 1
length-ended written s = omega (arith, length-append written (ended s []), length-append s (0 ∷ []))

-- Two fields, the last ones of a payload.
push_two :
    (v₁ v₂ : ℕ → Bool) (l₁ l₂ : ℕ) (written s₁ s₂ : List ℕ)
    → v₁ 0 ≡ false
    → v₂ 0 ≡ false
    → IsField v₁ l₁ s₁
    → IsField v₂ l₂ s₂
    → length written + l₁ + l₂ + 1 < bytes_size
    → push_bytes (holding written) s₁ (λ b. push_bytes b s₂ ret) no_error
      ≡ some (holding (written ++ ended s₁ (ended s₂ [])), no_error)
push_two v₁ v₂ l₁ l₂ written s₁ s₂ h₁ h₂ f₁ f₂ room =
    push_bytes-holding v₁ l₁ written s₁ _ h₁ f₁ (omega arith)
    ∙ push_bytes-holding v₂ l₂ (written ++ ended s₁ []) s₂ ret h₂ f₂
        (omega (arith, f₁.fits, length-ended written s₁))
    ∙ ap (λ l. some (holding l, no_error)) (simp append_assoc)

serialize_data-fields :
    (written : List ℕ) (f : Frame)
    → IsValidFrame f
    → length written ≡ 3
    → serialize_data (type_of f) (data_of f) (holding written) no_error
      ≡ some (holding (written ++ fields_of f), no_error)
unfolding serialize_data is_valid_id is_valid_display_name is_valid_message_content
serialize_data-fields w confirming v e = rw append-nil
serialize_data-fields w leaving v e = rw append-nil
serialize_data-fields w (replying r ref c) v e =
    let w₁ = w ++ ((if r then 1 else 0) ∷ []) in
    let w₂ = w₁ ++ ((ref / 256 % 256) ∷ []) in
    let w₃ = w₂ ++ ((ref % 256) ∷ []) in
    let l₁ = length-append w ((if r then 1 else 0) ∷ []) in
    let l₂ = length-append w₁ ((ref / 256 % 256) ∷ []) in
    let l₃ = length-append w₂ ((ref % 256) ∷ []) in
    rw
      (
        bytes_push-holding w (if r then 1 else 0) no_error (omega arith),
        bytes_push-holding w₁ (ref / 256 % 256) no_error (omega (arith, l₁)),
        bytes_push-holding w₂ (ref % 256) no_error (omega (arith, l₁, l₂)),
        ◌>>=◌,
      )
      (push_bytes-holding _ _ w₃ c ret refl v.1 (omega (arith, l₁, l₂, l₃))
        ∙ ap (λ l. some (holding l, no_error)) (simp append_assoc))
serialize_data-fields w (authenticating u d s) v e =
    push_bytes-holding _ _ w u _ refl v.0 (omega arith)
    ∙ push_two _ _ _ _ (w ++ ended u []) d s refl refl v.1 v.2
        (omega (arith, v.0.fits, length-ended w u))
    ∙ ap (λ l. some (holding l, no_error)) (simp append_assoc)
serialize_data-fields w (joining c d) v e = push_two _ _ _ _ w c d refl refl v.0 v.1 (omega arith)
serialize_data-fields w (saying d c) v e = push_two _ _ _ _ w d c refl refl v.0 v.1 (omega arith)
serialize_data-fields w (failing d c) v e = push_two _ _ _ _ w d c refl refl v.0 v.1 (omega arith)

-- With no error set before, udp_serialize writes the datagram of a message whose fields are
-- valid, and sets no error.
pub udp_serialize-datagram :
    (id : ℕ) (f : Frame)
    → IsValidFrame f
    → udp_serialize (payload_of id f) no_error ≡ some (holding (datagram id f), no_error)
unfolding udp_serialize
udp_serialize-datagram id f v =
    let header = to_byte (type_of f) ∷ (id / 256 % 256) ∷ (id % 256) ∷ [] in
    rw (bytes_push_arr-holding [] header no_error (omega arith), ◌>>=◌)
      (serialize_data-fields header f v (omega arith))
