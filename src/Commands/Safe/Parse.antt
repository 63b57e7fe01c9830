-- ===== src/Commands/Safe/Parse.antt =====
-- `command_parse` from the arguments up to the line.
use ipk2024_projekt.Base.{
  Any, List, Returns, Returns-access, Returns-bind, Returns-from, Returns-if, Returns-ret, [],
  access, ap, arith, drop, false, get_elem?, length, length-append, length-drop, length-replicate,
  negsuc, refl, replicate, some, ℕ, ℤ, ◌++◌, ◌+◌, ◌-◌, ◌<◌, ◌==◌, ◌∙◌, ◌∷◌, ◌≡◌, ◌≤◌,
}
use ipk2024_projekt.Bytes.{bytes_get, bytes_size}
use ipk2024_projekt.Bytes.View.{Fills, bytes_get-view, view}
use ipk2024_projekt.Trie.{trie_match_prefix}
use ipk2024_projekt.Commands.{
  command_char_to_index, command_parse, command_prefix_length, command_type, no_command,
  parse_trimmed, zero_command,
}
use ipk2024_projekt.Commands.Setup.{command_trie}
use ipk2024_projekt.Commands.Depth.{match-depth}
use ipk2024_projekt.Commands.Trimmed.{
  IsCore, behind, blanks, command_parse-padded, first_blank, length-padded, padded,
}
use ipk2024_projekt.Commands.Safe.Arguments.{parse_arguments-Goes, zero_command-IsFitCommand}
use ipk2024_projekt.Commands.Safe.{
  IsFitCommand, IsSlice, bytes_skip_first_n-IsSlice, reject-Returns, slice_byte,
}

-- The value that a match finds for a trimmed slice, and no value for a slice without a slash.
abbrev Named : List ℕ → ℤ → Type 0
Named core v = command_prefix_length (command_type v) ≤ length core

module _ (front core back : List ℕ) (fills : Fills front core (0 ∷ back))
    (nonempty : 0 < length core) where
  abbrev whole : IsSlice (view front core (0 ∷ back))
  whole = record {
    front = front;
    slice = core;
    back = 0 ∷ back;
    is_view = refl;
    fills = fills;
    room = omega arith;
  }

  slash-matched :
      (v : ℤ) × (trie_match_prefix command_char_to_index command_trie
          (drop 1 (bytes_get (view front core (0 ∷ back))))
        ≡ some v)
      × Named core v
  slash-matched = go core nonempty
    where
      go :
          (c : List ℕ)
          → 0 < length c
          → (v : ℤ) × (trie_match_prefix command_char_to_index command_trie
                (drop 1 (bytes_get (view front c (0 ∷ back))))
              ≡ some v)
            × Named c v
      go [] h = absurd (omega arith)
      go (x ∷ tail) h =
          let (v, ran, short) = match-depth tail back in
          (
            v,
            ap (λ s. trie_match_prefix command_char_to_index command_trie (drop 1 s))
                  (bytes_get-view front (x ∷ tail) (0 ∷ back))
                ∙ ran,
            short,
          )

  parse_trimmed-Returns :
      Returns Any IsFitCommand (parse_trimmed command_trie (view front core (0 ∷ back)))
  unfolding parse_trimmed
  parse_trimmed-Returns =
      let b = view front core (0 ∷ back) in
      let (x, first) = slice_byte b whole 0 (omega arith) in
      let (v, ran, named) = slash-matched in
      Returns-if (b.len == 0) _ _
        (λ e. reject-Returns zero_command (zero_command-IsFitCommand no_command))
        λ e. Returns-from (access (get_elem? (bytes_get b) 0)) _ (Returns-access _ x first tt) λ ch.
          Returns-bind {R = Named core} _ _
            (Returns-if (ch == b'/') _ _ (λ e. Returns-access _ v ran named)
              (λ e. Returns-ret (negsuc 0) (omega arith)))
            λ m within.
              let (y, ending) =
                slice_byte b whole (command_prefix_length (command_type m)) within in
              Returns-from
                (access (get_elem? (bytes_get b) (command_prefix_length (command_type m)))) _
                (Returns-access _ y ending tt)
                λ end.
                  Returns-if (end == b' ') _ _
                    (λ e.
                      parse_arguments-Goes (command_type m) _ _
                        (zero_command-IsFitCommand (command_type m))
                        (bytes_skip_first_n-IsSlice b _ whole))
                    λ e.
                      Returns-if (end == 0) _ _
                        (λ e.
                          parse_arguments-Goes (command_type m) _ _
                            (zero_command-IsFitCommand (command_type m))
                            (bytes_skip_first_n-IsSlice b _ whole))
                        (λ e.
                          parse_arguments-Goes no_command zero_command b
                            (zero_command-IsFitCommand no_command) whole)

-- A line that the buffer holds, with a text between its blanks, makes `command_parse` return a command
-- whose strings are within the limits.
pub command_parse-Returns :
    (i j : ℕ) (core rest : List ℕ)
    → IsCore core
    → i + (length core + j) < bytes_size
    → Returns Any IsFitCommand (command_parse command_trie (padded i j core ++ (0 ∷ rest)))
command_parse-Returns i j core rest ok small = record {
  at = λ e any.
      let (cmd, e', ran, _, fit) = parsed.at e tt in
      (cmd, e', command_parse-padded i j core ok small command_trie rest e ∙ ran, tt, fit);
}
  where
    nonempty : (c : List ℕ) → first_blank c ≡ false → 0 < length c
    nonempty [] h = cc
    nonempty (x ∷ c) h = omega arith

    parsed :
        Returns Any IsFitCommand
          (parse_trimmed command_trie (view (blanks i) core (behind i j core ok small)))
    parsed =
        parse_trimmed-Returns (blanks i) core
          (drop 1 (blanks j ++ replicate (bytes_size - length (padded i j core)) 0))
          (omega (
            arith,
            small,
            length-padded i j core,
            length-replicate {A = ℕ} i b' ',
            length-replicate {A = ℕ} j b' ',
            length-replicate {A = ℕ} (bytes_size - length (padded i j core)) 0,
            length-drop 1 (blanks j ++ replicate (bytes_size - length (padded i j core)) 0),
            length-append (blanks j) (replicate (bytes_size - length (padded i j core)) 0),
          ))
          (nonempty core ok.first)
