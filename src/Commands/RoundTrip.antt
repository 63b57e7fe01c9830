-- ===== src/Commands/RoundTrip.antt =====
-- A request typed as its line is parsed into its command.
use ipk2024_projekt.Base.{
  List, [], ap, append-nil, append_assoc, arith, codes, length, length-append, length-replicate,
  refl, some, sym, true, ℕ, ◌++◌, ◌+◌, ◌<◌, ◌∙◌, ◌∷◌, ◌≡◌, ◌≢◌,
}
use ipk2024_projekt.Error.{Error}
use ipk2024_projekt.Bytes.{bytes_size, bytes_skip_first_n}
use ipk2024_projekt.Bytes.View.{
  IsSmall, IsSmall-move, bytes_get-view, bytes_skip_first_n-view, view,
}
use ipk2024_projekt.Payload.{
  channel_id_len, display_name_len, is_valid_display_name, is_valid_id, is_valid_message_content,
  message_content_len, read_channel_id, read_display_name, read_message_content, read_secret,
  read_username, secret_len, username_len,
}
use ipk2024_projekt.Frame.{IsDisplayName, IsMessageContent, IsSecret, IsUsername}
use ipk2024_projekt.Commands.{
  CommandType, auth_command, clear_command, command_parse, command_prefix_length, exit_command,
  help_command, join_command, no_command, parse_arguments, parse_auth, parse_trimmed,
  rename_command, zero_command,
}
use ipk2024_projekt.Commands.Setup.{command_trie, name_of}
use ipk2024_projekt.Commands.Request.{
  IsRequest, Request, argument, authenticate, clear, command_of, enter, first_ok, help, leave,
  rename, say, text_of,
}
use ipk2024_projekt.Commands.Fields.{
  check_rest-view, read_argument-end, read_argument-view, skip_space-view,
}
use ipk2024_projekt.Commands.Named.{parse_trimmed-slashed, slashed, typed}
use ipk2024_projekt.Commands.Trimmed.{blanks, command_parse-padded, padded}
use ipk2024_projekt.Commands.Text.{id_blank, text_NoNul, text_of-IsCore}

-- The three arguments of `/auth`.
parse_auth-view :
    (front u s d back : List ℕ) (error : Error)
    → IsUsername u
    → IsSecret s
    → IsDisplayName d
    → IsSmall front (u ++ argument (s ++ argument d))
    → parse_auth (typed auth_command) (view front (u ++ argument (s ++ argument d)) back) error
      ≡ some (command_of (authenticate u s d), error)
unfolding parse_auth read_username read_secret read_display_name
parse_auth-view front u s d back error vu vs vd small =
    read_argument-view is_valid_id username_len _ front _ _ error u (s ++ argument d) back b' '
      id_blank vu small
    ∙ skip_space-view _ (front ++ u) (s ++ argument d) back _ error small₁
    ∙ read_argument-view is_valid_id secret_len _ _ _ _ error s d back b' ' id_blank vs small₂
    ∙ skip_space-view _ _ d back _ error small₃
    ∙ read_argument-end is_valid_display_name display_name_len _ _ _ _ error d back vd small₄
    ∙ check_rest-view _ _ back error
  where
    blank : List ℕ
    blank = b' ' ∷ []

    small₁ : IsSmall (front ++ u) (argument (s ++ argument d))
    small₁ = IsSmall-move front u (argument (s ++ argument d)) small

    small₂ : IsSmall ((front ++ u) ++ blank) (s ++ argument d)
    small₂ = IsSmall-move (front ++ u) blank (s ++ argument d) small₁

    small₃ : IsSmall (((front ++ u) ++ blank) ++ s) (argument d)
    small₃ = IsSmall-move ((front ++ u) ++ blank) s (argument d) small₂

    small₄ : IsSmall ((((front ++ u) ++ blank) ++ s) ++ blank) d
    small₄ = IsSmall-move (((front ++ u) ++ blank) ++ s) blank d small₃

-- The slash, the name and the blank are skipped.
skip_name :
    (front name rest back : List ℕ)
    → IsSmall front (name ++ rest)
    → bytes_skip_first_n (view front (name ++ rest) back) (length name)
      ≡ view (front ++ name) rest back
skip_name front name rest back small =
    bytes_skip_first_n-view front name rest back (omega (arith, length-append name rest))

-- The case of a message.
pub parse_message :
    (front t back : List ℕ) (error : Error)
    → IsMessageContent t
    → IsSmall front t
    → parse_arguments no_command zero_command (view front t back) error
      ≡ some (record zero_command { message = t }, error)
unfolding parse_arguments read_message_content
parse_message front t back error v small =
    read_argument-end is_valid_message_content message_content_len _ front _ _ error t back v small
    ∙ check_rest-view _ _ back error

parse_say :
    (front t back : List ℕ) (error : Error)
    → IsMessageContent t
    → first_ok t ≡ true
    → IsSmall front t
    → parse_trimmed command_trie (view front t back) error ≡ some (command_of (say t), error)
unfolding parse_trimmed
parse_say front [] back error v f small = cc
parse_say front (x ∷ t) back error v f small = ground (
  arith,
  bytes_get-view front (x ∷ t) back,
  (text_NoNul (x ∷ t) v).0,
  parse_message front (x ∷ t) back error v small,
)

-- The trimmed line of a request.
module _ (front back : List ℕ) (error : Error) where
  -- A command without arguments.
  parse_plain :
      (type : CommandType)
      → (text : List ℕ) → text ≡ slashed type []
      → type ≢ no_command
      → length text ≡ command_prefix_length type
      → IsSmall front text
      → parse_trimmed command_trie (view front text (0 ∷ back)) error
        ≡ parse_arguments type (typed type) (view (front ++ text) [] (0 ∷ back)) error
  parse_plain type text e named n small =
      parse_trimmed-slashed type named front (0 ∷ back) error text back 0
        (ap (λ t. t ++ (0 ∷ back)) e ∙ ap (◌∷◌ b'/') (append_assoc (name_of type) [] (0 ∷ back)))
        (omega (arith, ap (length {A = ℕ}) e))
      ∙ ap (λ b. parse_arguments type (typed type) b error)
          (ap (bytes_skip_first_n (view front text (0 ∷ back))) (sym n)
            ∙ ap (λ t. bytes_skip_first_n (view front t (0 ∷ back)) (length text))
                (sym (append-nil text))
            ∙ skip_name front text [] (0 ∷ back) (rw append-nil small))

  -- A command with arguments.
  parse_with :
      (type : CommandType)
      → (start rest : List ℕ) → start ++ rest ≡ slashed type (argument rest)
      → type ≢ no_command
      → length start ≡ command_prefix_length type + 1
      → IsSmall front (start ++ rest)
      → parse_trimmed command_trie (view front (start ++ rest) (0 ∷ back)) error
        ≡ parse_arguments type (typed type) (view (front ++ start) rest (0 ∷ back)) error
  parse_with type start rest e named n small =
      parse_trimmed-slashed type named front (0 ∷ back) error (start ++ rest) (rest ++ (0 ∷ back))
        b' '
        (ap (λ t. t ++ (0 ∷ back)) e
          ∙ ap (◌∷◌ b'/') (append_assoc (name_of type) (argument rest) (0 ∷ back)))
        (omega (arith, n, length-append start rest))
      ∙ ap (λ b. parse_arguments type (typed type) b error)
          (ap (bytes_skip_first_n (view front (start ++ rest) (0 ∷ back))) (sym n)
            ∙ skip_name front start rest (0 ∷ back) small)

  parse_text_of :
      (r : Request)
      → IsRequest r
      → IsSmall front (text_of r)
      → parse_trimmed command_trie (view front (text_of r) (0 ∷ back)) error
        ≡ some (command_of r, error)
  unfolding parse_arguments read_channel_id read_display_name
  parse_text_of (say t) (v, f, l) small = parse_say front t (0 ∷ back) error v f small
  parse_text_of (authenticate u s d) (vu, vs, vd) small =
      parse_with auth_command (codes "/auth ") (u ++ argument (s ++ argument d)) refl (λ e. cc) refl
        small
      ∙ parse_auth-view (front ++ codes "/auth ") u s d (0 ∷ back) error vu vs vd
          (IsSmall-move front (codes "/auth ") (u ++ argument (s ++ argument d)) small)
  parse_text_of (enter c) v small =
      parse_with join_command (codes "/join ") c refl (λ e. cc) refl small
      ∙ read_argument-end is_valid_id channel_id_len _ _ _ _ error c (0 ∷ back) v
          (IsSmall-move front (codes "/join ") c small)
      ∙ check_rest-view _ _ (0 ∷ back) error
  parse_text_of (rename d) v small =
      parse_with rename_command (codes "/rename ") d refl (λ e. cc) refl small
      ∙ read_argument-end is_valid_display_name display_name_len _ _ _ _ error d (0 ∷ back) v
          (IsSmall-move front (codes "/rename ") d small)
      ∙ check_rest-view _ _ (0 ∷ back) error
  parse_text_of help v small =
      parse_plain help_command (text_of help) refl (λ e. cc) refl small
      ∙ check_rest-view _ _ (0 ∷ back) error
  parse_text_of clear v small =
      parse_plain clear_command (text_of clear) refl (λ e. cc) refl small
      ∙ check_rest-view _ _ (0 ∷ back) error
  parse_text_of leave v small =
      parse_plain exit_command (text_of leave) refl (λ e. cc) refl small
      ∙ check_rest-view _ _ (0 ∷ back) error

-- A request typed as its line, with any blanks around it that the buffer holds, is parsed into its
-- command, with no error; what lies behind the line's NUL does not matter. The trie is the one that
-- `command_setup` makes.
pub command_parse-text_of :
    (i j : ℕ) (r : Request) (rest : List ℕ) (error : Error)
    → IsRequest r
    → i + (length (text_of r) + j) < bytes_size
    → command_parse command_trie (padded i j (text_of r) ++ (0 ∷ rest)) error
      ≡ some (command_of r, error)
command_parse-text_of i j r rest error v small =
    command_parse-padded i j (text_of r) (text_of-IsCore r v) small command_trie rest error
    ∙ parse_text_of (blanks i) _ error r v (omega (arith, length-replicate {A = ℕ} i b' '))
