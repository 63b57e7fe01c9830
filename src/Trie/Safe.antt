-- ===== src/Trie/Safe.antt =====
-- Where a match reads, in the trie and in its text.
use ipk2024_projekt.Base.{
  Bool, List, [], arith, false, length, negsuc, none, pos, refl, some, suc, true, zero, ℕ, ℤ, ◌&&◌,
  ◌<◌, ◌==◌, ◌∷◌, ◌≡◌, ◌≢◌, ◌≤◌,
}
use ipk2024_projekt.Trie.{
  Children, Trie, child, get_child, nil, node, null, trie_arr_len, trie_match_prefix,
}

abbrev number_of : Children → ℕ
number_of nil = 0
number_of (child t kids) = suc (number_of kids)

abbrev each_child : (Trie → Bool) → Children → Bool
each_child f nil = true
each_child f (child t kids) = f t && each_child f kids

-- The trie has at most `h` nodes on a way down, and an array of the full size at each.
abbrev pub is_full : ℕ → Trie → Bool
is_full h null = true
is_full zero (node value kids) = false
is_full (suc h) (node value kids) = number_of kids == trie_arr_len && each_child (is_full h) kids

get_child-each :
    (f : Trie → Bool) (i : ℕ) (kids : Children)
    → each_child f kids ≡ true
    → i < number_of kids
    → (t : Trie) × (get_child i kids ≡ some t) × (f t ≡ true)
get_child-each f i nil all h = absurd (omega arith)
get_child-each f zero (child t kids) all h = (t, refl, ground (arith, all))
get_child-each f (suc i) (child t kids) all h =
    get_child-each f i kids (ground (arith, all)) (omega arith)

module _ (to_index : ℕ → ℤ) (bounded : (ch i : ℕ) → to_index ch ≡ pos i → i < trie_arr_len) where
  -- One step, where the match goes on safely at every node that is full.
  match_step :
      (h : ℕ) (value : ℤ) (kids : Children) (ch : ℕ) (str : List ℕ)
      → is_full (suc h) (node value kids) ≡ true
      → ((v : ℤ) (c : Children)
          → is_full h (node v c) ≡ true
          → trie_match_prefix to_index (node v c) str ≢ none)
      → trie_match_prefix to_index (node value kids) (ch ∷ str) ≢ none
  unfolding trie_match_prefix
  match_step h value kids ch str full go_on = at_index (to_index ch) refl
    where
      below :
          (i : ℕ) (t : Trie)
          → to_index ch ≡ pos i
          → get_child i kids ≡ some t
          → is_full h t ≡ true
          → trie_match_prefix to_index (node value kids) (ch ∷ str) ≢ none
      below i null e got ok = rw (trie_match_prefix, e, got) λ fault. cc
      below i (node v c) e got ok = rw (trie_match_prefix, e, got) (go_on v c ok)

      at_index :
          (r : ℤ) → to_index ch ≡ r → trie_match_prefix to_index (node value kids) (ch ∷ str) ≢ none
      at_index (negsuc n) e = rw (trie_match_prefix, e) λ fault. cc
      at_index (pos i) e =
          let (t, got, ok) =
            get_child-each (is_full h) i kids (ground (arith, full))
              (ground (arith, full, bounded ch i e)) in
          below i t e got ok

  pub match-safe :
      (h : ℕ) (value : ℤ) (kids : Children) (str : List ℕ)
      → is_full h (node value kids) ≡ true
      → h ≤ length str
      → trie_match_prefix to_index (node value kids) str ≢ none
  match-safe zero value kids str full long = cc
  match-safe (suc h) value kids [] full long = absurd (omega arith)
  match-safe (suc h) value kids (ch ∷ str) full long =
      match_step h value kids ch str full (λ v c ok. match-safe h v c str ok (omega (arith, long)))
