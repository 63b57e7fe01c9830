-- ===== src/Trie/Free.antt =====
-- How many blocks a trie has, and what handing it back does.
use ipk2024_projekt.Base.{ap, arith, some, suc, ℕ, ◌+◌, ◌-◌, ◌≡◌, ◌≤◌}
use ipk2024_projekt.Trie.{Children, Memory, Trie, child, free_children, nil, node, null, trie_free}

unfoldable mutual
  pub nodes : Trie → ℕ
  nodes null = 0
  nodes (node value kids) = suc (nodes_of kids)

  pub nodes_of : Children → ℕ
  nodes_of nil = 0
  nodes_of (child t kids) = nodes t + nodes_of kids

mutual
  unfolding trie_free nodes

  -- A trie of which no node was freed is freed whole, and its blocks alone.
  pub trie_free_lem :
      (t : Trie) (m : Memory)
      → nodes t ≤ m.blocks
      → trie_free t m ≡ some (tt, record m { blocks = m.blocks - nodes t })
  trie_free_lem null m h = ap (λ n. some (tt, record m { blocks = n })) (omega arith)
  trie_free_lem (node value kids) m h = ground (arith, free_children_lem kids m (omega arith), h)

  pub free_children_lem :
      (kids : Children) (m : Memory)
      → nodes_of kids ≤ m.blocks
      → free_children kids m ≡ some (tt, record m { blocks = m.blocks - nodes_of kids })
  free_children_lem nil m h = ap (λ n. some (tt, record m { blocks = n })) (omega arith)
  free_children_lem (child t kids) m h = ground (
    arith,
    trie_free_lem t m (omega arith),
    free_children_lem kids (record m { blocks = m.blocks - nodes t }) (omega arith),
  )
