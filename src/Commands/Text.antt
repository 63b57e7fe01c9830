-- ===== src/Commands/Text.antt =====
-- The line of a request as text: it holds no NUL, and no blank at its ends.
use ipk2024_projekt.Base.{
  ==_iff, All, All-append, All-map, Bool, Bool-cases, List, [], ap, arith, codes, false, inl, inr,
  length, refl, true, ℕ, ◌++◌, ◌<◌, ◌==◌, ◌∷◌, ◌≡◌,
}
use ipk2024_projekt.Payload.{
  channel_id_len, display_name_len, is_valid_display_name, is_valid_id, is_valid_message_content,
  secret_len, username_len,
}
use ipk2024_projekt.Frame.{IsDisplayName, IsField, IsMessageContent, IsSecret, IsUsername}
use ipk2024_projekt.Input.Line.{IsLine}
use ipk2024_projekt.Commands.Request.{
  IsRequest, Request, argument, authenticate, clear, enter, first_ok, help, last_ok, leave, rename,
  say, text_of,
}
use ipk2024_projekt.Commands.Trimmed.{IsCore, NoNul, first_blank}

-- Bytes that may stand in a message; those of every field may.
abbrev pub Printable : List ℕ → Type 0
Printable = All (λ x. is_valid_message_content x ≡ true)

printable_id : (x : ℕ) → is_valid_id x ≡ true → is_valid_message_content x ≡ true
unfolding is_valid_id is_valid_message_content
printable_id x h = ground arith

printable_name : (x : ℕ) → is_valid_display_name x ≡ true → is_valid_message_content x ≡ true
unfolding is_valid_display_name is_valid_message_content
printable_name x h = ground arith

no_nul_byte : (x : ℕ) → is_valid_message_content x ≡ true → (x == 0) ≡ false
unfolding is_valid_message_content
no_nul_byte x h = ground arith

no_newline_byte : (x : ℕ) → is_valid_message_content x ≡ true → (x == b'\n') ≡ false
unfolding is_valid_message_content
no_newline_byte x h = ground arith

-- Such bytes are neither NUL nor a newline.
pub Printable-NoNul : (s : List ℕ) → Printable s → NoNul s
Printable-NoNul s = All-map _ _ s no_nul_byte

pub Printable-IsLine : (s : List ℕ) → Printable s → IsLine s
Printable-IsLine s = All-map _ _ s no_newline_byte

-- The last byte is no blank where the validator takes none.
module _ (validator : ℕ → Bool) where
  All-last :
      (s : List ℕ)
      → validator b' ' ≡ false
      → All (λ x. validator x ≡ true) s
      → 0 < length s
      → last_ok s ≡ true
  All-last [] h v ne = absurd (omega arith)
  All-last (x ∷ []) h (hx, hs) ne = elim (Bool-cases (x == b' ')) [
    | inl e ↦ cc (h, hx, ap validator ((==_iff x b' ').0 e))
    | inr e ↦ rw e
  ]
  All-last (x ∷ (y ∷ s)) h (hx, hs) ne = All-last (y ∷ s) h hs (omega arith)

last_ok-append : (a s : List ℕ) → last_ok s ≡ true → last_ok (a ++ s) ≡ true
last_ok-append [] s h = h
last_ok-append (x ∷ []) [] h = cc
last_ok-append (x ∷ []) (y ∷ s) h = h
last_ok-append (x ∷ (y ∷ a)) s h = last_ok-append (y ∷ a) s h

Printable-append : (a b : List ℕ) → Printable a → Printable b → Printable (a ++ b)
Printable-append = All-append (λ x. is_valid_message_content x ≡ true)

-- A field whose validator takes no blank.
module _ (validator : ℕ → Bool) (limit : ℕ) (blank : validator b' ' ≡ false) (s : List ℕ)
    (v : IsField validator limit s) where
  field-last : last_ok s ≡ true
  field-last = All-last validator s blank v.valid v.some_byte

-- The bytes of the two kinds of fields.
field_id : (limit : ℕ) (s : List ℕ) → IsField is_valid_id limit s → Printable s
field_id limit s v = All-map _ _ s printable_id v.valid

field_name : (s : List ℕ) → IsDisplayName s → Printable s
field_name s v = All-map _ _ s printable_name v.valid

pub id_blank : is_valid_id b' ' ≡ false
unfolding is_valid_id
id_blank = refl

pub name_blank : is_valid_display_name b' ' ≡ false
unfolding is_valid_display_name
name_blank = refl

after_blank : (s : List ℕ) → last_ok s ≡ true → last_ok (argument s) ≡ true
after_blank = last_ok-append (b' ' ∷ [])

first_ok-first_blank : (s : List ℕ) → first_ok s ≡ true → first_blank s ≡ false
first_ok-first_blank [] h = cc
first_ok-first_blank (x ∷ s) h = ground arith

auth_last : (u s d : List ℕ) → IsDisplayName d → last_ok (u ++ argument (s ++ argument d)) ≡ true
auth_last u s d vd = last_ok-append u (argument (s ++ argument d)) (
    after_blank (s ++ argument d) (
      last_ok-append s (argument d)
        (after_blank d (field-last is_valid_display_name display_name_len name_blank d vd))))

auth_Printable :
    (u s d : List ℕ)
    → IsUsername u
    → IsSecret s
    → IsDisplayName d
    → Printable (u ++ argument (s ++ argument d))
unfolding is_valid_message_content
auth_Printable u s d vu vs vd =
    Printable-append u (argument (s ++ argument d)) (field_id username_len u vu)
      (refl, Printable-append s (argument d) (field_id secret_len s vs) (refl, field_name d vd))

-- Every byte of a request's line may stand in a message.
pub text_of-Printable : (r : Request) → IsRequest r → Printable (text_of r)
unfolding is_valid_message_content
text_of-Printable (say t) (v, f, l) = v.valid
text_of-Printable (authenticate u s d) (vu, vs, vd) =
    Printable-append (codes "/auth ") (u ++ argument (s ++ argument d)) (ground arith)
      (auth_Printable u s d vu vs vd)
text_of-Printable (enter c) v =
    Printable-append (codes "/join ") c (ground arith) (field_id channel_id_len c v)
text_of-Printable (rename d) v =
    Printable-append (codes "/rename ") d (ground arith) (field_name d v)
text_of-Printable help v = ground arith
text_of-Printable clear v = ground arith
text_of-Printable leave v = ground arith

text_of_last : (r : Request) → IsRequest r → last_ok (text_of r) ≡ true
text_of_last (say t) (v, f, l) = l
text_of_last (authenticate u s d) (vu, vs, vd) =
    last_ok-append (codes "/auth ") (u ++ argument (s ++ argument d)) (auth_last u s d vd)
text_of_last (enter c) v =
    last_ok-append (codes "/join ") c (field-last is_valid_id channel_id_len id_blank c v)
text_of_last (rename d) v =
    last_ok-append (codes "/rename ") d
      (field-last is_valid_display_name display_name_len name_blank d v)
text_of_last help v = refl
text_of_last clear v = refl
text_of_last leave v = refl

text_of_first : (r : Request) → IsRequest r → first_blank (text_of r) ≡ false
text_of_first (say t) (v, f, l) = first_ok-first_blank t f
text_of_first (authenticate u s d) v = refl
text_of_first (enter c) v = refl
text_of_first (rename d) v = refl
text_of_first help v = refl
text_of_first clear v = refl
text_of_first leave v = refl

pub text_of-IsCore : (r : Request) → IsRequest r → IsCore (text_of r)
text_of-IsCore r v = record {
  no_nul = Printable-NoNul (text_of r) (text_of-Printable r v);
  first = text_of_first r v;
  last = text_of_last r v;
}

pub text_NoNul : (t : List ℕ) → IsMessageContent t → NoNul t
text_NoNul t v = Printable-NoNul t v.valid

pub All-behind : (a b : List ℕ) → NoNul (a ++ b) → NoNul b
All-behind [] b h = h
All-behind (x ∷ a) b (hx, hs) = All-behind a b hs
