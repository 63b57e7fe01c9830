-- ===== src/Tcp/Safe.antt =====
-- Where `tcp_deserialize` reads.
use ipk2024_projekt.Base.{
  Bool, Bool-cases, List, Option, [], ap, arith, codes, drop, false, get_elem?-lt, inl, inr, length,
  length-append, length-drop, length-replicate, length-take, ltb, negsuc, none, pos, refl,
  replicate, some, take, true, ℕ, ℤ, ◌++◌, ◌-◌, ◌==◌, ◌∙◌, ◌∷◌, ◌≡◌, ◌≢◌, ◌≤◌,
}
use ipk2024_projekt.Error.{Error, Exec}
use ipk2024_projekt.Bytes.{Bytes, bytes_size, bytes_skip_first_n, c_str, received}
use ipk2024_projekt.Bytes.View.{Fills, bytes_get-view, bytes_skip_first_n_lem, view}
use ipk2024_projekt.Payload.{
  Payload, PayloadType, auth, bye, confirm, copied, err, is_valid_display_name, is_valid_id,
  is_valid_message_content, join, message, of_byte, other, put_reply, read, read_channel_id,
  read_display_name, read_message_content, read_secret, read_username, reply,
}
use ipk2024_projekt.Payload.Read.{read_lem, read_result_of, valid_front}
use ipk2024_projekt.Trie.{Trie, trie_insert, trie_match_prefix, trie_new}
use ipk2024_projekt.Trie.Safe.{match-safe}
use ipk2024_projekt.Tcp.{
  agrees, deserialize_auth, deserialize_join, deserialize_reply, deserialize_result,
  deserialize_text, deserialize_type, finish, insert_prefixes, line_end, read_field, skip_str,
  starts_with, tcp_deserialize, tcp_prefix_index, tcp_setup,
}
use ipk2024_projekt.Tcp.Prefix.{index_lt, tcp_trie}

-- What follows does not fault on any slice of the buffer.
abbrev IsSafe : (Payload → Bytes → Exec Payload) → Type 0
IsSafe next =
    (p : Payload) (front slice back : List ℕ) (error : Error)
    → Fills front slice back
    → next p (view front slice back) error ≢ none

finish-IsSafe : (type : PayloadType) → IsSafe (finish type)
unfolding finish
finish-IsSafe type p front slice back error h = ground arith

after_skip :
    (n : ℕ) (next : Payload → Bytes → Exec Payload) (p : Payload) (front slice back : List ℕ)
    (error : Error)
    → IsSafe next
    → Fills front slice back
    → next p (bytes_skip_first_n (view front slice back) n) error ≢ none
after_skip n next p front slice back error safe h =
    rw (bytes_skip_first_n_lem front slice back n (omega (arith, h))) (
      safe p (front ++ take n slice) (drop n slice) back error (
        omega
          (arith, h, length-append front (take n slice), length-drop n slice, length-take n slice)))

agrees-long :
    (memory str : List ℕ) → length str ≤ length memory → (b : Bool) × (agrees memory str ≡ some b)
agrees-long memory [] h = (true, refl)
agrees-long [] (x ∷ str) h = absurd (omega arith)
agrees-long (y ∷ memory) (x ∷ str) h =
    let (b, e) = agrees-long memory str (omega arith) in
    elim (Bool-cases (y == x)) [
      | inl equal ↦ (b, rw equal e)
      | inr unequal ↦ (false, rw unequal refl)
    ]

skip_str-IsSafe :
    (str : List ℕ) (next : Payload → Bytes → Exec Payload)
    → c_str str ≡ str
    → IsSafe next
    → IsSafe (λ p b. skip_str str p b next)
unfolding skip_str starts_with
skip_str-IsSafe str next e safe p front slice back error h =
    elim (Bool-cases (ltb (length slice) (length str))) [
      | inl short ↦ λ fault. ground (arith, e, short)
      | inr long ↦
          let (b, found) =
            agrees-long (slice ++ back) str (ground (arith, long, length-append slice back)) in
          let rest = after_skip (length str) next p front slice back error safe h in
          λ fault. ground (arith, e, long, bytes_get-view front slice back, found, rest)
    ]

field-IsSafe :
    (reader : List ℕ → Bytes → Exec (ℤ × List ℕ)) (validator : ℕ → Bool) (limit : ℕ)
    (dest : Payload → List ℕ) (put : Payload → List ℕ → Payload)
    (next : Payload → Bytes → Exec Payload)
    → reader ≡ read validator limit
    → IsSafe next
    → IsSafe (λ p b. read_field reader (dest p) b (put p) next)
unfolding read_field
field-IsSafe reader validator limit dest put next is safe p front slice back error h =
    let valid = valid_front validator slice in
    let result : reader (dest p) (view front slice back) error
        ≡ some (read_result_of limit (dest p) valid, error) =
      ap (λ r. r (dest p) (view front slice back) error) is
      ∙ read_lem validator limit (dest p) front slice back error in
    let rest =
      after_skip (length valid) next (put p (copied (length valid) (dest p) valid)) front slice back
        error safe h in
    λ fault. ground (arith, result, rest)

line_end-IsSafe : (type : PayloadType) → IsSafe (line_end type)
unfolding line_end
line_end-IsSafe type = skip_str-IsSafe _ (finish type) refl (finish-IsSafe type)

-- READ behind the bytes that told the kind of the line.
first_field-IsSafe :
    (reader : List ℕ → Bytes → Exec (ℤ × List ℕ)) (validator : ℕ → Bool) (limit n : ℕ)
    (dest : Payload → List ℕ) (put : Payload → List ℕ → Payload)
    (next : Payload → Bytes → Exec Payload)
    → reader ≡ read validator limit
    → IsSafe next
    → IsSafe (λ p b. read_field reader (dest p) (bytes_skip_first_n b n) (put p) next)
first_field-IsSafe reader validator limit n dest put next is safe p front slice back error h =
    after_skip n (λ p b. read_field reader (dest p) b (put p) next) p front slice back error
      (field-IsSafe reader validator limit dest put next is safe) h

join-IsSafe : IsSafe deserialize_join
unfolding deserialize_join read_channel_id read_display_name
join-IsSafe = first_field-IsSafe _ is_valid_id 20 5 _ _ _ refl (
    skip_str-IsSafe (codes " AS ") _ refl
      (field-IsSafe _ is_valid_display_name 20 _ _ _ refl (line_end-IsSafe join)))

auth-IsSafe : IsSafe deserialize_auth
unfolding deserialize_auth read_username read_display_name read_secret
auth-IsSafe = first_field-IsSafe _ is_valid_id 20 5 _ _ _ refl (
    skip_str-IsSafe (codes " AS ") _ refl (
      field-IsSafe _ is_valid_display_name 20 _ _ _ refl (
        skip_str-IsSafe (codes " USING ") _ refl
          (field-IsSafe _ is_valid_id 128 _ _ _ refl (line_end-IsSafe auth)))))

text-IsSafe : (type : PayloadType) → IsSafe (deserialize_text type)
unfolding deserialize_text read_display_name read_message_content
text-IsSafe type = first_field-IsSafe _ is_valid_display_name 20 9 _ _ _ refl (
    skip_str-IsSafe (codes " IS ") _ refl
      (field-IsSafe _ is_valid_message_content 1400 _ _ _ refl (line_end-IsSafe type)))

-- The rest of a REPLY behind its result.
content_next : Payload → Bytes → Exec Payload
content_next p b =
    read_field read_message_content p.body.reply_data.message_content b
      (λ s. put_reply p (λ r. record r { message_content = s })) (line_end reply)

content-IsSafe : IsSafe (λ p b. skip_str (codes "OK IS ") p b content_next)
unfolding content_next read_message_content
content-IsSafe =
    skip_str-IsSafe (codes "OK IS ") content_next refl
      (field-IsSafe _ is_valid_message_content 1400 _ _ _ refl (line_end-IsSafe reply))

-- The byte of the result is in the array, as only six bytes were skipped.
reply_safe :
    (p : Payload) (slice back : List ℕ) (error : Error)
    → Fills [] slice back
    → deserialize_reply p (view [] slice back) error ≢ none
unfolding deserialize_reply deserialize_result content_next
reply_safe p slice back error h =
    let front : List ℕ = take 6 slice in
    let rest : List ℕ = drop 6 slice in
    let fills : Fills front rest back =
      omega (arith, h, length-take 6 slice, length-drop 6 slice) in
    let (x, got) =
      get_elem?-lt (rest ++ back) 0
        (omega (arith, fills, length-take 6 slice, length-append rest back)) in
    let after = λ (n : ℕ) (r : Bool).
      after_skip n (λ p b. skip_str (codes "OK IS ") p b content_next)
        (put_reply p (λ d. record d { result = r })) front rest back error content-IsSafe fills in
    λ fault. ground (
      arith,
      bytes_skip_first_n_lem [] slice back 6 (omega (arith, h)),
      bytes_get-view front rest back,
      got,
      after 0 true,
      after 1 false,
      fault,
    )

type_safe :
    (type : PayloadType) (p : Payload) (slice back : List ℕ) (error : Error)
    → Fills [] slice back
    → deserialize_type type p (view [] slice back) error ≢ none
unfolding deserialize_type
type_safe join p slice back error h = join-IsSafe p [] slice back error h
type_safe auth p slice back error h = auth-IsSafe p [] slice back error h
type_safe reply p slice back error h = reply_safe p slice back error h
type_safe message p slice back error h = text-IsSafe message p [] slice back error h
type_safe err p slice back error h = text-IsSafe err p [] slice back error h
type_safe bye p slice back error h =
    after_skip 5 (finish bye) p [] slice back error (finish-IsSafe bye) h
type_safe confirm p slice back error h = λ fault. cc
type_safe (other b) p slice back error h = λ fault. cc

matched : (str : List ℕ) → 10 ≤ length str → trie_match_prefix tcp_prefix_index tcp_trie str ≢ none
unfolding tcp_trie tcp_setup insert_prefixes trie_insert tcp_prefix_index trie_new
matched str h = match-safe tcp_prefix_index index_lt 10 _ _ str refl h

-- The buffer goes on to the case that the trie tells.
told_safe :
    (uninit : Payload) (trie : Trie) (slice back : List ℕ) (error : Error)
    → Fills [] slice back
    → trie_match_prefix tcp_prefix_index trie (slice ++ back) ≢ none
    → tcp_deserialize uninit trie (view [] slice back) error ≢ none
unfolding tcp_deserialize
told_safe uninit trie slice back error h total =
    told (trie_match_prefix tcp_prefix_index trie (slice ++ back)) refl
  where
    told :
        (r : Option ℤ)
        → trie_match_prefix tcp_prefix_index trie (slice ++ back) ≡ r
        → tcp_deserialize uninit trie (view [] slice back) error ≢ none
    told none e = absurd (total e)
    told (some (negsuc n)) e = rw (e, tcp_deserialize) λ fault. cc
    told (some (pos v)) e =
        rw (e, tcp_deserialize) (type_safe (of_byte v) uninit slice back error h)

-- With the trie that `tcp_setup` makes, `tcp_deserialize` reads only inside its buffer whatever comes
-- in one piece, and returns.
pub tcp_deserialize_safe :
    (uninit : Payload) (packet : List ℕ) (error : Error)
    → tcp_deserialize uninit tcp_trie (received packet) error ≢ none
tcp_deserialize_safe uninit packet error =
    let kept : List ℕ = take bytes_size packet in
    let zeros : List ℕ = replicate (bytes_size - length kept) 0 in
    let fills : Fills [] kept zeros = omega (
      arith,
      length-take bytes_size packet,
      length-replicate {A = ℕ} (bytes_size - length kept) 0,
    ) in
    told_safe uninit tcp_trie kept zeros error fills
      (matched (kept ++ zeros) (omega (arith, fills, length-append kept zeros)))
