-- ===== src/Commands/Depth.antt =====
-- How far behind the slash the name of a command reaches that a match finds.
use ipk2024_projekt.Base.{
  Bool, List, Option, [], arith, leb, length, length-take, negsuc, none, pos, refl, some, suc, take,
  true, within, zero, ℕ, ℤ, ◌&&◌, ◌++◌, ◌+◌, ◌∷◌, ◌≡◌, ◌≢◌, ◌≤◌,
}
use ipk2024_projekt.Trie.{
  Children, Trie, child, get_child, nil, node, null, trie_insert, trie_match_prefix, trie_new,
}
use ipk2024_projekt.Trie.Nodes.{IsTrie}
use ipk2024_projekt.Trie.Map.{path_of, value_at}
use ipk2024_projekt.Trie.Match.{trie_match_prefix_lem}
use ipk2024_projekt.Commands.{
  command_char_to_index, command_prefix_length, command_setup, command_type, insert_commands,
}
use ipk2024_projekt.Commands.Setup.{command_trie, index_lt}

pub command_trie-IsTrie : IsTrie command_trie
unfolding IsTrie command_trie command_setup insert_commands trie_insert command_char_to_index
    trie_new
command_trie-IsTrie = ground arith

pub command_trie-root : command_trie ≢ null
unfolding command_trie command_setup insert_commands trie_insert command_char_to_index trie_new
command_trie-root e = cc

-- Every node at least `d` bytes behind the slash has a command whose name ends there or before.
unfoldable mutual
  is_deep : ℕ → Trie → Bool
  is_deep d null = true
  is_deep d (node value kids) =
      leb (command_prefix_length (command_type value)) d && are_deep (suc d) kids

  are_deep : ℕ → Children → Bool
  are_deep d nil = true
  are_deep d (child t kids) = is_deep d t && are_deep d kids

command_trie_deep : is_deep 1 command_trie ≡ true
unfolding is_deep command_trie command_setup insert_commands trie_insert command_char_to_index
    trie_new
command_trie_deep = ground arith

get_child-deep :
    (d i : ℕ) (kids : Children) (t : Trie)
    → are_deep d kids ≡ true
    → get_child i kids ≡ some t
    → is_deep d t ≡ true
unfolding is_deep
get_child-deep d i nil t h got = cc
get_child-deep d zero (child u kids) t h got = ground (arith, h, got)
get_child-deep d (suc i) (child u kids) t h got = get_child-deep d i kids t (ground (arith, h)) got

child_at :
    (i : ℕ) (q : List ℕ) (value : ℤ) (kids : Children) (v : ℤ)
    → value_at (i ∷ q) (node value kids) ≡ some v
    → (t : Trie) × (get_child i kids ≡ some t) × (value_at q t ≡ some v)
child_at i q value kids v e = go (get_child i kids) refl
  where
    go :
        (r : Option Trie)
        → get_child i kids ≡ r
        → (t : Trie) × (get_child i kids ≡ some t) × (value_at q t ≡ some v)
    go none got = absurd (ground (arith, e, got))
    go (some t) got = (t, got, ground (arith, e, got))

value_at-deep :
    (d : ℕ) (q : List ℕ) (t : Trie) (v : ℤ)
    → is_deep d t ≡ true
    → value_at q t ≡ some v
    → command_prefix_length (command_type v) ≤ d + length q
unfolding is_deep
value_at-deep d q null v h e = cc
value_at-deep d [] (node value kids) v h e = ground (arith, h, e)
value_at-deep d (i ∷ q) (node value kids) v h e =
    let (t, got, e') = child_at i q value kids v e in
    let deep : are_deep (suc d) kids ≡ true = ground (arith, h) in
    omega (arith, value_at-deep (suc d) q t v (get_child-deep (suc d) i kids t deep got) e')

-- A text that goes on to a NUL, and the text with one byte more.
longer :
    (x : ℕ) (text rest : List ℕ)
    → ((p : List ℕ) × (path_of command_char_to_index (text ++ (0 ∷ rest)) ≡ some p)
        × (length p ≤ length text))
    → (p : List ℕ) × (path_of command_char_to_index (x ∷ (text ++ (0 ∷ rest))) ≡ some p)
      × (length p ≤ suc (length text))
longer x text rest (p, e, short) = go (command_char_to_index x) refl
  where
    go :
        (r : ℤ)
        → command_char_to_index x ≡ r
        → (p : List ℕ) × (path_of command_char_to_index (x ∷ (text ++ (0 ∷ rest))) ≡ some p)
          × (length p ≤ suc (length text))
    go (negsuc n) h = ([], ground (arith, h), omega arith)
    go (pos i) h = (i ∷ p, ground (arith, h, e), omega (arith, short))

-- A text with a NUL in it names a path no longer than what stands in front of the NUL.
path_of-nul :
    (text rest : List ℕ)
    → (p : List ℕ) × (path_of command_char_to_index (text ++ (0 ∷ rest)) ≡ some p)
      × (length p ≤ length text)
unfolding command_char_to_index
path_of-nul [] rest = ([], refl, omega arith)
path_of-nul (x ∷ text) rest = longer x text rest (path_of-nul text rest)

-- The command that a match finds has a name that the text in front of its NUL holds.
pub match-depth :
    (text rest : List ℕ)
    → (v : ℤ) × (trie_match_prefix command_char_to_index command_trie (text ++ (0 ∷ rest)) ≡ some v)
      × (command_prefix_length (command_type v) ≤ suc (length text))
match-depth text rest =
    let (p, path, short) = path_of-nul text rest in
    let (k, v, ran, within, at, longest) =
      trie_match_prefix_lem command_char_to_index index_lt command_trie (text ++ (0 ∷ rest)) p
        command_trie-root command_trie-IsTrie path in
    (
      v,
      ran,
      omega (
        arith,
        short,
        value_at-deep 1 (take k p) command_trie v command_trie_deep at,
        length-take k p,
      ),
    )
