-- ===== src/Trie/Map.antt =====
-- A trie as a map from paths to values, and what `trie_insert` changes of it.
use ipk2024_projekt.Base.{
  Bool-cases, List, Option, [], ap, arith, if◌then◌else◌, inl, inr, negsuc, none, pos, refl, some,
  subst, suc, sym, zero, ℕ, ℤ, ◌+◌, ◌<◌, ◌==◌, ◌∙◌, ◌∷◌, ◌≡◌, ◌≢◌, ◌⊎◌,
}
use ipk2024_projekt.Trie.{
  Children, Trie, get_child, no_children, node, null, plenty, set_child, sub_trie, trie_arr_len,
  trie_insert, trie_new,
}
use ipk2024_projekt.Trie.Free.{nodes}
use ipk2024_projekt.Trie.Nodes.{
  IsTrie, get_child-IsTrie, get_child-set_child, no_children-AreTries, nodes_of-no_children,
  nodes_of-set_child, set_child-AreTries, size-set_child,
}

-- The indices of the bytes of a text up to the first byte that has none; there must be one.
abbrev pub path_of : (ℕ → ℤ) → List ℕ → Option (List ℕ)
path_of to_index [] = none
path_of to_index (ch ∷ str) = elim (to_index ch) [
  | negsuc _ ↦ some []
  | pos i ↦ elim (path_of to_index str) [ none ↦ none | some p ↦ some (i ∷ p) ]
]

-- The value of the node at the end of a path, if the trie has that node.
abbrev pub value_at : List ℕ → Trie → Option ℤ
value_at p null = none
value_at [] (node value kids) = some value
value_at (i ∷ p) (node value kids) = elim (get_child i kids) [ none ↦ none | some t ↦ value_at p t ]

-- What stands at the path `q` behind an insertion at the path `p`, if `old` stood there before: at `p`
-- itself the value, at a front of `p` what was there, or -1 if there was no node, elsewhere `old`.
abbrev pub inserted : List ℕ → ℤ → List ℕ → Option ℤ → Option ℤ
inserted [] value [] old = some value
inserted [] value (j ∷ q) old = old
inserted (i ∷ p) value [] none = some (negsuc 0)
inserted (i ∷ p) value [] (some v) = some v
inserted (i ∷ p) value (j ∷ q) old = if i == j then inserted p value q old else old

value_at-no_children :
    (j n : ℕ) (q : List ℕ) (value : ℤ) → value_at (j ∷ q) (node value (no_children n)) ≡ none
value_at-no_children j zero q value = refl
value_at-no_children zero (suc n) q value = refl
value_at-no_children (suc j) (suc n) q value = value_at-no_children j n q value

-- A node that was just made differs from none only in what an insertion stores.
inserted-no_children :
    (p q : List ℕ) (value : ℤ) (n : ℕ)
    → inserted p value q (value_at q (node (negsuc 0) (no_children n))) ≡ inserted p value q none
inserted-no_children [] [] value n = refl
inserted-no_children [] (j ∷ q) value n = value_at-no_children j n q (negsuc 0)
inserted-no_children (i ∷ p) [] value n = refl
inserted-no_children (i ∷ p) (j ∷ q) value n =
    ap (inserted (i ∷ p) value (j ∷ q)) (value_at-no_children j n q (negsuc 0))

-- What an insertion at the path `p` makes of a trie, where `n` blocks are not freed.
abbrev pub Inserts : (ℕ → ℤ) → Trie → List ℕ → ℤ → List ℕ → ℕ → Type 0
Inserts to_index t str value p n =
    (t' : Trie) × (n' : ℕ) × (trie_insert to_index t str value (plenty n) ≡ some (t', plenty n'))
    × IsTrie t'
    × (n' + nodes t ≡ n + nodes t')
    × ((q : List ℕ) → value_at q t' ≡ inserted p value q (value_at q t))

value_at-set_child :
    (i j : ℕ) (p q : List ℕ) (value old : ℤ) (kids : Children) (entry sub : Trie)
    → get_child i kids ≡ some entry
    → value_at q sub ≡ inserted p value q (value_at q entry)
    → value_at (j ∷ q) (node old (set_child i sub kids))
      ≡ inserted (i ∷ p) value (j ∷ q) (value_at (j ∷ q) (node old kids))
value_at-set_child i j p q value old kids entry sub got e = elim (Bool-cases (i == j)) [
  | inl same ↦
      let eq : i ≡ j = ground (arith, same) in
      let got' : get_child j kids ≡ some entry = ground (arith, eq, got) in
      ground (arith, get_child-set_child i j sub entry kids got, same, got', e)
  | inr other ↦ ground (arith, get_child-set_child i j sub entry kids got, other)
]

sub_trie-null :
    (n : ℕ)
    → sub_trie null (plenty n)
      ≡ some (some (node (negsuc 0) (no_children trie_arr_len)), plenty (suc n))
unfolding trie_new
sub_trie-null n = refl

module _ (to_index : ℕ → ℤ) (value old : ℤ) (kids : Children) (n : ℕ)
    (whole : IsTrie (node old kids)) (ch : ℕ) (str : List ℕ) where
  stored : (k : ℕ) → to_index ch ≡ negsuc k → Inserts to_index (node old kids) (ch ∷ str) value [] n
  unfolding trie_insert IsTrie nodes
  stored k e = (node value kids, n, rw (e, trie_insert) refl, whole, refl, at)
    where
      at :
          (q : List ℕ)
          → value_at q (node value kids) ≡ inserted [] value q (value_at q (node old kids))
      at [] = refl
      at (j ∷ q) = refl

  module _ (i n₁ : ℕ) (p : List ℕ) (entry sub : Trie) (e : to_index ch ≡ pos i)
      (got : get_child i kids ≡ some entry)
      (made : sub_trie entry (plenty n) ≡ some (some sub, plenty n₁))
      (counted : n₁ + nodes entry ≡ n + nodes sub)
      (same : (q : List ℕ)
        → inserted p value q (value_at q sub) ≡ inserted p value q (value_at q entry)) where
    went_on :
        Inserts to_index sub str value p n₁
        → Inserts to_index (node old kids) (ch ∷ str) value (i ∷ p) n
    unfolding trie_insert IsTrie nodes
    went_on (sub', n', ran, w, c, values) = (
      node old (set_child i sub' kids),
      n',
      rw (e, trie_insert, got, made, ran) refl,
      (size-set_child i sub' kids ∙ whole.0, set_child-AreTries i sub' kids w whole.1),
      omega (arith, nodes_of-set_child i sub' entry kids got, counted, c),
      at,
    )
      where
        at :
            (q : List ℕ)
            → value_at q (node old (set_child i sub' kids))
              ≡ inserted (i ∷ p) value q (value_at q (node old kids))
        at [] = refl
        at (j ∷ q) = value_at-set_child i j p q value old kids entry sub' got (values q ∙ same q)

  inserted_below :
      (i : ℕ) (p : List ℕ)
      → to_index ch ≡ pos i
      → (entry : Trie) → get_child i kids ≡ some entry
      → IsTrie entry
      → ((v : ℤ) (c : Children) (m : ℕ)
          → IsTrie (node v c)
          → Inserts to_index (node v c) str value p m)
      → Inserts to_index (node old kids) (ch ∷ str) value (i ∷ p) n
  unfolding IsTrie nodes
  inserted_below i p e null got w rest =
      went_on i (suc n) p null (node (negsuc 0) (no_children trie_arr_len)) e got (sub_trie-null n)
        (omega (arith, nodes_of-no_children trie_arr_len))
        (λ q. inserted-no_children p q value trie_arr_len)
        (rest (negsuc 0) (no_children trie_arr_len) (suc n) (no_children-AreTries trie_arr_len))
  inserted_below i p e (node v c) got w rest =
      went_on i n p (node v c) (node v c) e got refl refl (λ q. refl) (rest v c n w)

-- A text that names a path has none, or an index and a path behind it.
pub path_of_cases :
    (to_index : ℕ → ℤ) (ch : ℕ) (str p : List ℕ)
    → path_of to_index (ch ∷ str) ≡ some p
    → ((k : ℕ) × (to_index ch ≡ negsuc k) × (p ≡ []))
      ⊎ ((i : ℕ) × (p' : List ℕ) × (to_index ch ≡ pos i)
          × (path_of to_index str ≡ some p')
          × (p ≡ i ∷ p'))
path_of_cases to_index ch str p e = go (to_index ch) refl (path_of to_index str) refl
  where
    go :
        (r : ℤ)
        → to_index ch ≡ r
        → (rest : Option (List ℕ)) → path_of to_index str ≡ rest
        → ((k : ℕ) × (to_index ch ≡ negsuc k) × (p ≡ []))
          ⊎ ((i : ℕ) × (p' : List ℕ) × (to_index ch ≡ pos i)
              × (path_of to_index str ≡ some p')
              × (p ≡ i ∷ p'))
    go (negsuc k) h rest hr = inl (k, h, ground (arith, e, h))
    go (pos i) h none hr = absurd (ground (arith, e, h, hr))
    go (pos i) h (some p') hr = inr (i, p', h, hr, ground (arith, e, h, hr))

module _ (to_index : ℕ → ℤ) (bounded : (ch i : ℕ) → to_index ch ≡ pos i → i < trie_arr_len) where
  insert_node :
      (str p : List ℕ) (value old : ℤ) (kids : Children) (n : ℕ)
      → IsTrie (node old kids)
      → path_of to_index str ≡ some p
      → Inserts to_index (node old kids) str value p n
  unfolding IsTrie nodes
  insert_node [] p value old kids n whole e = cc
  insert_node (ch ∷ str) p value old kids n whole e = elim (path_of_cases to_index ch str p e) [
    | inl (k, h, q) ↦
        subst (λ p. Inserts to_index (node old kids) (ch ∷ str) value p n) (sym q)
          (stored to_index value old kids n whole ch str k h)
    | inr (i, p', h, e', q) ↦
        let (entry, got, w) =
          get_child-IsTrie i kids (omega (arith, bounded ch i h, whole.0)) (whole.1) in
        subst (λ p. Inserts to_index (node old kids) (ch ∷ str) value p n) (sym q)
          (inserted_below to_index value old kids n whole ch str i p' h entry got w
            (λ v c m k. insert_node str p' value v c m k e'))
  ]

  -- With memory enough and no error before, inserting a value at the path of a text makes a trie that
  -- has the value there, -1 at the fronts of the path where there was no node, and what was there at
  -- every other path; it takes one block for each node that it makes. Each node of the trie has the
  -- full array of children, before and behind, and no index is over its size.
  pub trie_insert_lem :
      (t : Trie) (str p : List ℕ) (value : ℤ) (n : ℕ)
      → t ≢ null
      → IsTrie t
      → path_of to_index str ≡ some p
      → Inserts to_index t str value p n
  trie_insert_lem null str p value n root whole e = absurd (root refl)
  trie_insert_lem (node old kids) str p value n root whole e =
      insert_node str p value old kids n whole e
