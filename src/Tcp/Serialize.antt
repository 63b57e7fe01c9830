-- ===== src/Tcp/Serialize.antt =====
-- `tcp_serialize` writes the format of Tcp/Line.
use ipk2024_projekt.Base.{
  Bool, List, Option, [], ap, append_assoc, arith, codes, false, length, length-append, refl, some,
  true, ℕ, ◌++◌, ◌+◌, ◌<◌, ◌∙◌, ◌≡◌, ◌≤◌,
}
use ipk2024_projekt.Error.{Error, Exec, no_error}
use ipk2024_projekt.Bytes.{Bytes, bytes_push_c_str, bytes_size, c_str}
use ipk2024_projekt.Bytes.Push.{bytes_push_arr-holding, holding}
use ipk2024_projekt.Payload.{is_valid_display_name, is_valid_id, is_valid_message_content}
use ipk2024_projekt.Payload.Field.{c_str-All}
use ipk2024_projekt.Frame.{
  Frame, IsChannelId, IsDisplayName, IsField, IsMessageContent, IsSecret, IsUsername, IsValidFrame,
  authenticating, confirming, failing, joining, leaving, payload_of, replying, saying,
}
use ipk2024_projekt.Tcp.{
  push_end, push_str, serialize_auth, serialize_join, serialize_reply, serialize_text,
  serialize_type, tcp_serialize,
}
use ipk2024_projekt.Tcp.Line.{HasLine, crlf, line_of}

-- PUSH of a string that is not empty, in the room that is left.
push_str-holding :
    (str written : List ℕ) (next : Bytes → Exec Bytes)
    → c_str str ≡ str
    → 0 < length str
    → length written + length str ≤ bytes_size
    → push_str str (holding written) next no_error ≡ next (holding (written ++ str)) no_error
unfolding push_str bytes_push_c_str
push_str-holding str written next e ne room =
    ground (arith, e, bytes_push_arr-holding written str no_error room)

-- PUSH of a field, and of a literal.
push_field :
    (validator : ℕ → Bool) (limit : ℕ) (written s : List ℕ) (next : Bytes → Exec Bytes)
    → validator 0 ≡ false
    → IsField validator limit s
    → length written + limit ≤ bytes_size
    → push_str s (holding written) next no_error ≡ next (holding (written ++ s)) no_error
push_field validator limit written s next h v room =
    push_str-holding s written next (c_str-All validator s h v.valid) v.some_byte
      (omega (arith, v.fits))

held :
    (a b : List ℕ)
    → a ≡ b
    → ◌≡◌ {A = Option (Bytes × Error)} (some (holding a, no_error)) (some (holding b, no_error))
held a b e = ap (λ l. some (holding l, no_error)) e

serialize_text-line :
    (start : List ℕ) (d c : List ℕ)
    → c_str start ≡ start
    → length start ≡ 9
    → IsDisplayName d
    → IsMessageContent c
    → serialize_text start (record { display_name = d; message_content = c }) no_error
      ≡ some (holding (start ++ (d ++ (codes " IS " ++ (c ++ crlf)))), no_error)
unfolding serialize_text push_end is_valid_display_name is_valid_message_content
serialize_text-line start d c e l vd vc =
    let l₁ = length-append start d in
    let l₂ = length-append (start ++ d) (codes " IS ") in
    let l₃ = length-append ((start ++ d) ++ codes " IS ") c in
    push_str-holding start [] _ e (omega arith) (omega arith)
    ∙ push_field _ _ start d _ refl vd (omega arith)
    ∙ push_str-holding (codes " IS ") (start ++ d) _ refl (omega arith) (omega (arith, l₁, vd.fits))
    ∙ push_field _ _ ((start ++ d) ++ codes " IS ") c _ refl vc (omega (arith, l₁, l₂, vd.fits))
    ∙ push_str-holding crlf (((start ++ d) ++ codes " IS ") ++ c) _ refl (omega arith)
        (omega (arith, l₁, l₂, l₃, vd.fits, vc.fits))
    ∙ ap (λ l. some (holding l, no_error)) (simp append_assoc)

serialize_join-line :
    (c d : List ℕ)
    → IsChannelId c
    → IsDisplayName d
    → serialize_join (record { channel_id = c; display_name = d }) no_error
      ≡ some (holding (line_of (joining c d)), no_error)
unfolding serialize_join push_end is_valid_display_name is_valid_id
serialize_join-line c d vc vd =
    let start = codes "JOIN " in
    let l₁ = length-append start c in
    let l₂ = length-append (start ++ c) (codes " AS ") in
    let l₃ = length-append ((start ++ c) ++ codes " AS ") d in
    push_str-holding start [] _ refl (omega arith) (omega arith)
    ∙ push_field _ _ start c _ refl vc (omega arith)
    ∙ push_str-holding (codes " AS ") (start ++ c) _ refl (omega arith) (omega (arith, l₁, vc.fits))
    ∙ push_field _ _ ((start ++ c) ++ codes " AS ") d _ refl vd (omega (arith, l₁, l₂, vc.fits))
    ∙ push_str-holding crlf (((start ++ c) ++ codes " AS ") ++ d) _ refl (omega arith)
        (omega (arith, l₁, l₂, l₃, vc.fits, vd.fits))
    ∙ held ((((start ++ c) ++ codes " AS ") ++ d) ++ crlf) (line_of (joining c d))
        (simp append_assoc)

serialize_auth-line :
    (u d s : List ℕ)
    → IsUsername u
    → IsDisplayName d
    → IsSecret s
    → serialize_auth (record { username = u; display_name = d; secret = s }) no_error
      ≡ some (holding (line_of (authenticating u d s)), no_error)
unfolding serialize_auth push_end is_valid_display_name is_valid_id
serialize_auth-line u d s vu vd vs =
    let start = codes "AUTH " in
    let w₁ = (start ++ u) ++ codes " AS " in
    let w₂ = (w₁ ++ d) ++ codes " USING " in
    let l₁ = length-append start u in
    let l₂ = length-append (start ++ u) (codes " AS ") in
    let l₃ = length-append w₁ d in
    let l₄ = length-append (w₁ ++ d) (codes " USING ") in
    let l₅ = length-append w₂ s in
    push_str-holding start [] _ refl (omega arith) (omega arith)
    ∙ push_field _ _ start u _ refl vu (omega arith)
    ∙ push_str-holding (codes " AS ") (start ++ u) _ refl (omega arith) (omega (arith, l₁, vu.fits))
    ∙ push_field _ _ w₁ d _ refl vd (omega (arith, l₁, l₂, vu.fits))
    ∙ push_str-holding (codes " USING ") (w₁ ++ d) _ refl (omega arith)
        (omega (arith, l₁, l₂, l₃, vu.fits, vd.fits))
    ∙ push_field _ _ w₂ s _ refl vs (omega (arith, l₁, l₂, l₃, l₄, vu.fits, vd.fits))
    ∙ push_str-holding crlf (w₂ ++ s) _ refl (omega arith)
        (omega (arith, l₁, l₂, l₃, l₄, l₅, vu.fits, vd.fits, vs.fits))
    ∙ held ((w₂ ++ s) ++ crlf) (line_of (authenticating u d s)) (simp append_assoc)

serialize_reply-line :
    (r : Bool) (ref : ℕ) (c : List ℕ)
    → IsMessageContent c
    → serialize_reply (record { result = r; ref_message_id = ref; message_content = c }) no_error
      ≡ some (holding (line_of (replying r ref c)), no_error)
unfolding serialize_reply push_end is_valid_message_content
serialize_reply-line true ref c vc =
    let start = codes "REPLY OK IS " in
    push_str-holding (codes "REPLY ") [] _ refl (omega arith) (omega arith)
    ∙ push_str-holding (codes "OK IS ") (codes "REPLY ") _ refl (omega arith) (omega arith)
    ∙ push_field _ _ start c _ refl vc (omega arith)
    ∙ push_str-holding crlf (start ++ c) _ refl (omega arith)
        (omega (arith, length-append start c, vc.fits))
    ∙ held ((start ++ c) ++ crlf) (line_of (replying true ref c)) (simp append_assoc)
serialize_reply-line false ref c vc =
    let start = codes "REPLY NOK IS " in
    push_str-holding (codes "REPLY ") [] _ refl (omega arith) (omega arith)
    ∙ push_str-holding (codes "N") (codes "REPLY ") _ refl (omega arith) (omega arith)
    ∙ push_str-holding (codes "OK IS ") (codes "REPLY N") _ refl (omega arith) (omega arith)
    ∙ push_field _ _ start c _ refl vc (omega arith)
    ∙ push_str-holding crlf (start ++ c) _ refl (omega arith)
        (omega (arith, length-append start c, vc.fits))
    ∙ held ((start ++ c) ++ crlf) (line_of (replying false ref c)) (simp append_assoc)

-- With no error set before, tcp_serialize writes the line of a message other than a CONFIRM whose
-- fields are valid, and sets no error.
pub tcp_serialize-line :
    (id : ℕ) (f : Frame)
    → HasLine f
    → IsValidFrame f
    → tcp_serialize (payload_of id f) no_error ≡ some (holding (line_of f), no_error)
unfolding tcp_serialize serialize_type push_end
tcp_serialize-line id confirming h v = absurd h
tcp_serialize-line id leaving h v =
    push_str-holding (codes "BYE") [] _ refl (omega arith) (omega arith)
    ∙ push_str-holding crlf (codes "BYE") _ refl (omega arith) (omega arith)
tcp_serialize-line id (replying r ref c) h v = serialize_reply-line r ref c v.1
tcp_serialize-line id (authenticating u d s) h v = serialize_auth-line u d s v.0 v.1 v.2
tcp_serialize-line id (joining c d) h v = serialize_join-line c d v.0 v.1
tcp_serialize-line id (saying d c) h v =
    serialize_text-line (codes "MSG FROM ") d c refl refl v.0 v.1
tcp_serialize-line id (failing d c) h v =
    serialize_text-line (codes "ERR FROM ") d c refl refl v.0 v.1
