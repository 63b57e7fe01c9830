-- ===== src/Trie/Match.antt =====
-- What a match finds in the map from paths to values that a trie is.
use ipk2024_projekt.Base.{
  List, [], arith, inl, inr, length, negsuc, none, pos, refl, some, subst, suc, sym, take, zero, ℕ,
  ℤ, ◌<◌, ◌∷◌, ◌≡◌, ◌≢◌, ◌≤◌,
}
use ipk2024_projekt.Trie.{Children, Trie, get_child, node, null, trie_arr_len, trie_match_prefix}
use ipk2024_projekt.Trie.Nodes.{IsTrie, get_child-IsTrie}
use ipk2024_projekt.Trie.Map.{path_of, path_of_cases, value_at}

-- What a match of a text at the path `p` finds: the value of the longest front of `p` at which the trie
-- has a node.
abbrev pub Finds : (ℕ → ℤ) → Trie → List ℕ → List ℕ → Type 0
Finds to_index t str p =
    (k : ℕ) × (v : ℤ) × (trie_match_prefix to_index t str ≡ some v)
    × (k ≤ length p)
    × (value_at (take k p) t ≡ some v)
    × ((j : ℕ) → k < j → j ≤ length p → value_at (take j p) t ≡ none)

module _ (to_index : ℕ → ℤ) (value : ℤ) (kids : Children) (ch : ℕ) (str : List ℕ) where
  found_here : (k : ℕ) → to_index ch ≡ negsuc k → Finds to_index (node value kids) (ch ∷ str) []
  unfolding trie_match_prefix
  found_here k e = (
    0,
    value,
    rw (e, trie_match_prefix) refl,
    omega arith,
    refl,
    λ j more less. absurd (omega arith),
  )

  found_below :
      (i : ℕ) (p : List ℕ)
      → to_index ch ≡ pos i
      → (entry : Trie) → get_child i kids ≡ some entry
      → IsTrie entry
      → ((v : ℤ) (c : Children) → IsTrie (node v c) → Finds to_index (node v c) str p)
      → Finds to_index (node value kids) (ch ∷ str) (i ∷ p)
  unfolding trie_match_prefix
  found_below i p e null got w rest =
      (0, value, rw (e, trie_match_prefix, got) refl, omega arith, refl, longer)
    where
      longer :
          (j : ℕ) → 0 < j → j ≤ suc (length p) → value_at (take j (i ∷ p)) (node value kids) ≡ none
      longer zero more less = absurd (omega arith)
      longer (suc j) more less = ground (arith, got)
  found_below i p e (node v c) got w rest =
      let (k, u, ran, short, at, none_longer) = rest v c w in
      (
        suc k,
        u,
        rw (e, trie_match_prefix, got) ran,
        omega (arith, short),
        ground (arith, got, at),
        longer k none_longer,
      )
    where
      longer :
          (k : ℕ)
          → ((j : ℕ) → k < j → j ≤ length p → value_at (take j p) (node v c) ≡ none)
          → (j : ℕ) → suc k < j
          → j ≤ suc (length p)
          → value_at (take j (i ∷ p)) (node value kids) ≡ none
      longer k h zero more less = absurd (omega arith)
      longer k h (suc j) more less = ground (arith, got, h j (omega arith) (omega arith))

module _ (to_index : ℕ → ℤ) (bounded : (ch i : ℕ) → to_index ch ≡ pos i → i < trie_arr_len) where
  match_node :
      (str p : List ℕ) (value : ℤ) (kids : Children)
      → IsTrie (node value kids)
      → path_of to_index str ≡ some p
      → Finds to_index (node value kids) str p
  unfolding IsTrie
  match_node [] p value kids whole e = cc
  match_node (ch ∷ str) p value kids whole e = elim (path_of_cases to_index ch str p e) [
    | inl (k, h, q) ↦
        subst (Finds to_index (node value kids) (ch ∷ str)) (sym q)
          (found_here to_index value kids ch str k h)
    | inr (i, p', h, e', q) ↦
        let (entry, got, w) =
          get_child-IsTrie i kids (omega (arith, bounded ch i h, whole.0)) (whole.1) in
        subst (Finds to_index (node value kids) (ch ∷ str)) (sym q) (
          found_below to_index value kids ch str i p' h entry got w
            (λ v c k. match_node str p' v c k e'))
  ]

  -- In a trie whose nodes all have the full array of children, if no index is over its size, a match
  -- of a text that names a path finds the value of the longest front of this path at which the trie
  -- has a node.
  pub trie_match_prefix_lem :
      (t : Trie) (str p : List ℕ)
      → t ≢ null
      → IsTrie t
      → path_of to_index str ≡ some p
      → Finds to_index t str p
  trie_match_prefix_lem null str p root whole e = absurd (root refl)
  trie_match_prefix_lem (node value kids) str p root whole e = match_node str p value kids whole e
