-- ===== src/Tests/Tries.antt =====
-- The trie as a map.
use ipk2024_projekt.Base.{[], arith, codes, pos, refl, ◌∷◌, ◌≢◌}
use ipk2024_projekt.Trie.{null, trie_insert, trie_new}
use ipk2024_projekt.Trie.Nodes.{IsTrie}
use ipk2024_projekt.Trie.Map.{Inserts, trie_insert_lem}
use ipk2024_projekt.Trie.Match.{Finds, trie_match_prefix_lem}
use ipk2024_projekt.Commands.{command_char_to_index, command_setup, insert_commands}
use ipk2024_projekt.Commands.Setup.{command_trie, index_lt}

command_trie-IsTrie : IsTrie command_trie
unfolding IsTrie command_trie command_setup insert_commands trie_insert command_char_to_index
    trie_new
command_trie-IsTrie = ground arith

command_trie-root : command_trie ≢ null
unfolding command_trie command_setup insert_commands trie_insert command_char_to_index trie_new
command_trie-root e = cc

trie_insert_lem_example :
    Inserts command_char_to_index command_trie (codes "list ") (pos 7) (11 ∷ 8 ∷ 18 ∷ 19 ∷ []) 0
unfolding command_char_to_index
trie_insert_lem_example =
    trie_insert_lem command_char_to_index index_lt command_trie (codes "list ")
      (11 ∷ 8 ∷ 18 ∷ 19 ∷ []) (pos 7) 0 command_trie-root command_trie-IsTrie refl

trie_match_prefix_lem_example :
    Finds command_char_to_index command_trie (codes "joint ") (9 ∷ 14 ∷ 8 ∷ 13 ∷ 19 ∷ [])
unfolding command_char_to_index
trie_match_prefix_lem_example =
    trie_match_prefix_lem command_char_to_index index_lt command_trie (codes "joint ")
      (9 ∷ 14 ∷ 8 ∷ 13 ∷ 19 ∷ []) command_trie-root command_trie-IsTrie refl
