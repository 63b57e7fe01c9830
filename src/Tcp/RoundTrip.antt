-- ===== src/Tcp/RoundTrip.antt =====
-- `tcp_deserialize` reads back what `tcp_serialize` wrote.
use ipk2024_projekt.Base.{
  Bool, List, [], ap, arith, codes, false, length, length-append, refl, some, true, ℕ, ◌++◌, ◌<◌,
  ◌∙◌, ◌∷◌, ◌≡◌, ◌≤◌,
}
use ipk2024_projekt.Error.{Error, no_error}
use ipk2024_projekt.Bytes.{Bytes, received, transmitted}
use ipk2024_projekt.Bytes.View.{IsSmall, IsSmall-move, bytes_skip_first_n-view, view}
use ipk2024_projekt.Bytes.Push.{holding, received-transmitted}
use ipk2024_projekt.Payload.{
  Payload, PayloadType, auth, bye, err, is_valid_display_name, is_valid_id,
  is_valid_message_content, join, message, put_auth, put_join, put_message, put_reply,
  read_channel_id, read_display_name, read_message_content, read_secret, read_username, reply,
}
use ipk2024_projekt.Frame.{
  Frame, IsChannelId, IsDisplayName, IsMessageContent, IsSecret, IsUsername, IsValidFrame,
  authenticating, confirming, failing, joining, leaving, payload_of, replying, saying,
}
use ipk2024_projekt.Tcp.{
  deserialize_auth, deserialize_join, deserialize_reply, deserialize_result, deserialize_text,
  deserialize_type, finish, line_end, read_field, skip_str, tcp_deserialize, tcp_serialize,
}
use ipk2024_projekt.Tcp.Line.{HasLine, crlf, line_of}
use ipk2024_projekt.Tcp.Prefix.{
  match-auth, match-bye, match-err, match-join, match-message, match-reply, tcp_trie,
}
use ipk2024_projekt.Tcp.Serialize.{tcp_serialize-line}
use ipk2024_projekt.Tcp.Deserialize.{line_end-view, read_field-view, skip_start, skip_str-view}

-- The fields of a message stored in a payload, of which all else is kept: a line carries neither
-- the number of the message nor that of the message replied to.
abbrev pub stored_in : Payload → Frame → Payload
stored_in p confirming = p
stored_in p leaving = record p { type = bye }
stored_in p (replying r ref c) =
    record (put_reply p (λ d. record d { result = r; message_content = c })) { type = reply }
stored_in p (authenticating u d s) =
    record (put_auth p (λ _. record { username = u; display_name = d; secret = s })) { type = auth }
stored_in p (joining c d) = record (put_join p (λ _. record { channel_id = c; display_name = d })) {
  type = join;
}
stored_in p (saying d c) =
    record (put_message p (λ _. record { display_name = d; message_content = c })) {
      type = message;
    }
stored_in p (failing d c) =
    record (put_message p (λ _. record { display_name = d; message_content = c })) { type = err }

module _ (uninit : Payload) (back : List ℕ) (error : Error) where
  text-line :
      (type : PayloadType) (start d c : List ℕ)
      → length start ≡ 9
      → IsDisplayName d
      → IsMessageContent c
      → IsSmall [] (start ++ (d ++ (codes " IS " ++ (c ++ crlf))))
      → deserialize_text type uninit
          (view [] (start ++ (d ++ (codes " IS " ++ (c ++ crlf)))) back)
          error
        ≡ some (
          record (put_message uninit (λ _. record { display_name = d; message_content = c })) {
            type = type;
          },
          error,
        )
  unfolding deserialize_text read_display_name read_message_content is_valid_display_name
      is_valid_message_content
  text-line type start d c l vd vc h =
      let rest = codes " IS " ++ (c ++ crlf) in
      let h₁ = IsSmall-move [] start (d ++ rest) h in
      let h₂ = IsSmall-move start d rest h₁ in
      let h₃ = IsSmall-move (start ++ d) (codes " IS ") (c ++ crlf) h₂ in
      let h₄ = IsSmall-move ((start ++ d) ++ codes " IS ") c crlf h₃ in
      rw (← l, skip_start start (d ++ rest) back h)
        (read_field-view _ _ _ start d _ back _ _ _ error refl vd h₁
          ∙ skip_str-view (codes " IS ") (start ++ d) (c ++ crlf) back _ _ error refl h₂
          ∙ read_field-view _ _ _ ((start ++ d) ++ codes " IS ") c _ back _ _ _ error refl vc h₃
          ∙ line_end-view type _ (((start ++ d) ++ codes " IS ") ++ c) back error h₄)

  join-line :
      (c d : List ℕ)
      → IsChannelId c
      → IsDisplayName d
      → IsSmall [] (line_of (joining c d))
      → deserialize_join uninit (view [] (line_of (joining c d)) back) error
        ≡ some (stored_in uninit (joining c d), error)
  unfolding deserialize_join read_channel_id read_display_name is_valid_display_name is_valid_id
  join-line c d vc vd h =
      let start = codes "JOIN " in
      let rest = codes " AS " ++ (d ++ crlf) in
      let h₁ = IsSmall-move [] start (c ++ rest) h in
      let h₂ = IsSmall-move start c rest h₁ in
      let h₃ = IsSmall-move (start ++ c) (codes " AS ") (d ++ crlf) h₂ in
      let h₄ = IsSmall-move ((start ++ c) ++ codes " AS ") d crlf h₃ in
      rw (skip_start start (c ++ rest) back h) (
        read_field-view _ _ _ start c _ back _ _ _ error refl vc h₁
        ∙ skip_str-view (codes " AS ") (start ++ c) (d ++ crlf) back _ _ error refl h₂
        ∙ read_field-view _ _ _ ((start ++ c) ++ codes " AS ") d _ back _ _ _ error refl vd h₃
        ∙ line_end-view join _ (((start ++ c) ++ codes " AS ") ++ d) back error h₄)

  auth-line :
      (u d s : List ℕ)
      → IsUsername u
      → IsDisplayName d
      → IsSecret s
      → IsSmall [] (line_of (authenticating u d s))
      → deserialize_auth uninit (view [] (line_of (authenticating u d s)) back) error
        ≡ some (stored_in uninit (authenticating u d s), error)
  unfolding deserialize_auth read_username read_secret read_display_name is_valid_display_name
      is_valid_id
  auth-line u d s vu vd vs h =
      let start = codes "AUTH " in
      let rest₂ = codes " USING " ++ (s ++ crlf) in
      let rest₁ = codes " AS " ++ (d ++ rest₂) in
      let w₁ = (start ++ u) ++ codes " AS " in
      let w₂ = (w₁ ++ d) ++ codes " USING " in
      let h₁ = IsSmall-move [] start (u ++ rest₁) h in
      let h₂ = IsSmall-move start u rest₁ h₁ in
      let h₃ = IsSmall-move (start ++ u) (codes " AS ") (d ++ rest₂) h₂ in
      let h₄ = IsSmall-move w₁ d rest₂ h₃ in
      let h₅ = IsSmall-move (w₁ ++ d) (codes " USING ") (s ++ crlf) h₄ in
      let h₆ = IsSmall-move w₂ s crlf h₅ in
      rw (skip_start start (u ++ rest₁) back h) (
        read_field-view _ _ _ start u _ back _ _ _ error refl vu h₁
        ∙ skip_str-view (codes " AS ") (start ++ u) (d ++ rest₂) back _ _ error refl h₂
        ∙ read_field-view _ _ _ w₁ d _ back _ _ _ error refl vd h₃
        ∙ skip_str-view (codes " USING ") (w₁ ++ d) (s ++ crlf) back _ _ error refl h₄
        ∙ read_field-view _ _ _ w₂ s _ back _ _ _ error refl vs h₅
        ∙ line_end-view auth _ (w₂ ++ s) back error h₆)

  -- From the result on, the two replies read alike.
  reply_rest :
      (p : Payload) (start c : List ℕ)
      → IsMessageContent c
      → IsSmall start (codes "OK IS " ++ (c ++ crlf))
      → skip_str
          (codes "OK IS ")
          p
          (view start (codes "OK IS " ++ (c ++ crlf)) back)
          (λ p b.
            read_field read_message_content p.body.reply_data.message_content b
              (λ s. put_reply p (λ r. record r { message_content = s }))
              (line_end reply))
          error
        ≡ some
            (record (put_reply p (λ r. record r { message_content = c })) { type = reply }, error)
  unfolding read_message_content is_valid_message_content
  reply_rest p start c vc h =
      let h₁ = IsSmall-move start (codes "OK IS ") (c ++ crlf) h in
      let h₂ = IsSmall-move (start ++ codes "OK IS ") c crlf h₁ in
      skip_str-view (codes "OK IS ") start (c ++ crlf) back p _ error refl h
      ∙ read_field-view _ _ _ (start ++ codes "OK IS ") c _ back _ _ _ error refl vc h₁
      ∙ line_end-view reply _ ((start ++ codes "OK IS ") ++ c) back error h₂

  reply-line :
      (r : Bool) (ref : ℕ) (c : List ℕ)
      → IsMessageContent c
      → IsSmall [] (line_of (replying r ref c))
      → deserialize_reply uninit (view [] (line_of (replying r ref c)) back) error
        ≡ some (stored_in uninit (replying r ref c), error)
  unfolding deserialize_reply deserialize_result
  reply-line true ref c vc h =
      let start = codes "REPLY " in
      let rest = codes "OK IS " ++ (c ++ crlf) in
      let h₁ = IsSmall-move [] start rest h in
      rw (skip_start start rest back h, bytes_skip_first_n-view start [] rest back (omega arith))
        (reply_rest (put_reply uninit (λ r. record r { result = true })) start c vc h₁)
  reply-line false ref c vc h =
      let start = codes "REPLY " in
      let rest = codes "OK IS " ++ (c ++ crlf) in
      let h₁ = IsSmall-move [] start (b'N' ∷ rest) h in
      let h₂ = IsSmall-move start (b'N' ∷ []) rest h₁ in
      rw
        (
          skip_start start (b'N' ∷ rest) back h,
          bytes_skip_first_n-view start (b'N' ∷ []) rest back (omega arith),
        )
        (reply_rest (put_reply uninit (λ r. record r { result = false })) (start ++ (b'N' ∷ [])) c
          vc h₂)

some_more : (s t back : List ℕ) → 0 < length s → 0 < length ((s ++ t) ++ back)
some_more s t back h = omega (arith, length-append (s ++ t) back, length-append s t)

-- A valid message's line at the start of the array is read back as that message.
tcp_deserialize-line :
    (uninit : Payload) (f : Frame) (back : List ℕ) (error : Error)
    → HasLine f
    → IsValidFrame f
    → IsSmall [] (line_of f)
    → tcp_deserialize uninit tcp_trie (view [] (line_of f) back) error
      ≡ some (stored_in uninit f, error)
unfolding tcp_deserialize deserialize_type
tcp_deserialize-line p confirming back error h v small = absurd h
tcp_deserialize-line p leaving back error h v small =
    rw (match-bye (crlf ++ back) (omega arith), skip_start (line_of leaving) [] back small)
      (unfold finish in refl)
tcp_deserialize-line p (replying true ref c) back error h v small =
    rw (match-reply (codes "OK IS " ++ ((c ++ crlf) ++ back)) (omega arith))
      (reply-line p back error true ref c v.1 small)
tcp_deserialize-line p (replying false ref c) back error h v small =
    rw (match-reply (codes "NOK IS " ++ ((c ++ crlf) ++ back)) (omega arith))
      (reply-line p back error false ref c v.1 small)
tcp_deserialize-line p (authenticating u d s) back error h v small =
    rw (match-auth _ (some_more u _ back v.0.some_byte))
      (auth-line p back error u d s v.0 v.1 v.2 small)
tcp_deserialize-line p (joining c d) back error h v small =
    rw (match-join _ (some_more c _ back v.0.some_byte)) (join-line p back error c d v.0 v.1 small)
tcp_deserialize-line p (saying d c) back error h v small =
    rw (match-message _ (some_more d _ back v.0.some_byte))
      (text-line p back error message (codes "MSG FROM ") d c refl v.0 v.1 small)
tcp_deserialize-line p (failing d c) back error h v small =
    rw (match-err _ (some_more d _ back v.0.some_byte))
      (text-line p back error err (codes "ERR FROM ") d c refl v.0 v.1 small)

-- No line of a valid message is longer than 1435 bytes.
pub length-line : (f : Frame) → IsValidFrame f → length (line_of f) ≤ 1435
length-line confirming v = omega arith
length-line leaving v = omega arith
length-line (replying true ref c) v = omega (arith, v.1.fits, length-append c crlf)
length-line (replying false ref c) v = omega (arith, v.1.fits, length-append c crlf)
length-line (authenticating u d s) v =
    let rest₂ = codes " USING " ++ (s ++ crlf) in
    omega (
      arith,
      v.0.fits,
      v.1.fits,
      v.2.fits,
      length-append u (codes " AS " ++ (d ++ rest₂)),
      length-append d rest₂,
      length-append s crlf,
    )
length-line (joining c d) v =
    omega (
      arith,
      v.0.fits,
      v.1.fits,
      length-append c (codes " AS " ++ (d ++ crlf)),
      length-append d crlf,
    )
length-line (saying d c) v =
    omega (
      arith,
      v.0.fits,
      v.1.fits,
      length-append d (codes " IS " ++ (c ++ crlf)),
      length-append c crlf,
    )
length-line (failing d c) v =
    omega (
      arith,
      v.0.fits,
      v.1.fits,
      length-append d (codes " IS " ++ (c ++ crlf)),
      length-append c crlf,
    )

-- With no error set, a valid message other than a CONFIRM, sent as a TCP line and received in one
-- piece, is deserialized with no error, with the trie that tcp_setup makes: the type and the
-- fields that its line carries are stored, which are all but the number that a REPLY refers to,
-- and all else of the payload is kept.
pub tcp_round_trip :
    (id : ℕ) (f : Frame) (uninit : Payload)
    → HasLine f
    → IsValidFrame f
    → (b : Bytes) × (tcp_serialize (payload_of id f) no_error ≡ some (b, no_error))
      × (tcp_deserialize uninit tcp_trie (received (transmitted b)) no_error
          ≡ some (stored_in uninit f, no_error))
tcp_round_trip id f uninit h v = (
  holding (line_of f),
  tcp_serialize-line id f h v,
  ap (λ b. tcp_deserialize uninit tcp_trie b no_error)
        (received-transmitted (line_of f) (omega (arith, length-line f v)))
      ∙ tcp_deserialize-line uninit f _ no_error h v (omega (arith, length-line f v)),
)
