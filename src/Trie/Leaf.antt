-- ===== src/Trie/Leaf.antt =====
-- A match that has come to a node without children ends there.
use ipk2024_projekt.Base.{
  List, [], arith, length, negsuc, pos, refl, some, suc, zero, ℕ, ℤ, ◌<◌, ◌∷◌, ◌≡◌,
}
use ipk2024_projekt.Trie.{get_child, no_children, node, null, trie_arr_len, trie_match_prefix}

get_child-no_children : (i n : ℕ) → i < n → get_child i (no_children n) ≡ some null
get_child-no_children i zero h = absurd (omega arith)
get_child-no_children zero (suc n) h = refl
get_child-no_children (suc i) (suc n) h = get_child-no_children i n (omega arith)

-- An index function of the program gives no index over the size of the array.
module _ (to_index : ℕ → ℤ) (bounded : (ch i : ℕ) → to_index ch ≡ pos i → i < trie_arr_len)
    (value : ℤ) where
  match-node :
      (ch : ℕ) (str : List ℕ)
      → trie_match_prefix to_index (node value (no_children trie_arr_len)) (ch ∷ str) ≡ some value
  unfolding trie_match_prefix
  match-node ch str = go (to_index ch) refl
    where
      go :
          (r : ℤ)
          → to_index ch ≡ r
          → trie_match_prefix to_index (node value (no_children trie_arr_len)) (ch ∷ str)
            ≡ some value
      go (negsuc n) e = rw (e, trie_match_prefix)
      go (pos i) e =
          rw (e, trie_match_prefix, get_child-no_children i trie_arr_len (bounded ch i e))

  -- At a node with no children the match ends, whatever follows.
  pub match-leaf :
      (str : List ℕ)
      → 0 < length str
      → trie_match_prefix to_index (node value (no_children trie_arr_len)) str ≡ some value
  match-leaf [] more = absurd (omega arith)
  match-leaf (ch ∷ str) more = match-node ch str
