-- ===== src/Commands/Setup.antt =====
-- The trie that `command_setup` makes, and the command that it finds for each name.
use ipk2024_projekt.Base.{
  List, Option, [], ap, arith, codes, length, none, pos, refl, some, ℕ, ℤ, ◌++◌, ◌+◌, ◌<◌, ◌≡◌, ◌≢◌,
}
use ipk2024_projekt.Trie.{
  Memory, Trie, no_children, node, null, plenty, trie_arr_len, trie_insert, trie_match_prefix,
  trie_new,
}
use ipk2024_projekt.Trie.Free.{nodes}
use ipk2024_projekt.Trie.Leaf.{match-leaf}
use ipk2024_projekt.Commands.{
  CommandType, auth_command, clear_command, command_char_to_index, command_setup, exit_command,
  help_command, insert_commands, join_command, no_command, rename_command, to_value,
}

abbrev made : Option (Trie × Memory) → Trie
made none = null
made (some (t, m)) = t

-- COMMAND_TRIE after a setup that got all its memory.
unfoldable pub command_trie : Trie
command_trie = made (command_setup (plenty 0))

pub command_setup-command_trie :
    (n : ℕ) → command_setup (plenty n) ≡ some (command_trie, plenty (nodes command_trie + n))
unfolding command_trie command_setup insert_commands trie_insert command_char_to_index trie_new
    nodes
command_setup-command_trie n = ap (λ k. some (command_trie, plenty k)) (omega arith)

pub index_lt : (ch i : ℕ) → command_char_to_index ch ≡ pos i → i < trie_arr_len
unfolding command_char_to_index
index_lt ch i e = ground arith

leaf :
    (value : ℤ) (str : List ℕ)
    → 0 < length str
    → trie_match_prefix command_char_to_index (node value (no_children trie_arr_len)) str
      ≡ some value
leaf = match-leaf command_char_to_index index_lt

abbrev pub name_of : CommandType → List ℕ
name_of no_command = []
name_of auth_command = codes "auth"
name_of join_command = codes "join"
name_of rename_command = codes "rename"
name_of help_command = codes "help"
name_of clear_command = codes "clear"
name_of exit_command = codes "exit"

-- A text that begins with the name of a command is told as that command, whatever follows.
pub match-name_of :
    (type : CommandType) (str : List ℕ)
    → type ≢ no_command
    → 0 < length str
    → trie_match_prefix command_char_to_index command_trie (name_of type ++ str)
      ≡ some (pos (to_value type))
unfolding command_trie command_setup insert_commands trie_insert command_char_to_index trie_new
match-name_of no_command str named more = absurd (named refl)
match-name_of auth_command str named more = unfold trie_match_prefix in leaf (pos 1) str more
match-name_of join_command str named more = unfold trie_match_prefix in leaf (pos 2) str more
match-name_of rename_command str named more = unfold trie_match_prefix in leaf (pos 3) str more
match-name_of help_command str named more = unfold trie_match_prefix in leaf (pos 4) str more
match-name_of clear_command str named more = unfold trie_match_prefix in leaf (pos 5) str more
match-name_of exit_command str named more = unfold trie_match_prefix in leaf (pos 6) str more
