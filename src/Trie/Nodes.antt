-- ===== src/Trie/Nodes.antt =====
-- The array of children that every node has, and what a store in it changes.
use ipk2024_projekt.Base.{ap, arith, if◌then◌else◌, refl, some, suc, zero, ℕ, ◌+◌, ◌<◌, ◌==◌, ◌≡◌}
use ipk2024_projekt.Trie.{
  Children, Trie, child, get_child, nil, no_children, node, null, set_child, trie_arr_len,
}
use ipk2024_projekt.Trie.Free.{nodes, nodes_of}

abbrev pub size : Children → ℕ
size nil = 0
size (child t kids) = suc (size kids)

-- Every node has an array of the full size.
unfoldable mutual
  pub IsTrie : Trie → Type 0
  IsTrie null = Unit {0}
  IsTrie (node value kids) = (size kids ≡ trie_arr_len) × AreTries kids

  pub AreTries : Children → Type 0
  AreTries nil = Unit {0}
  AreTries (child t kids) = IsTrie t × AreTries kids

pub get_child-IsTrie :
    (i : ℕ) (kids : Children)
    → i < size kids
    → AreTries kids
    → (t : Trie) × (get_child i kids ≡ some t) × IsTrie t
unfolding IsTrie
get_child-IsTrie i nil h k = absurd (omega arith)
get_child-IsTrie zero (child t kids) h (k, ks) = (t, refl, k)
get_child-IsTrie (suc i) (child t kids) h (k, ks) = get_child-IsTrie i kids (omega arith) ks

pub size-set_child : (i : ℕ) (t : Trie) (kids : Children) → size (set_child i t kids) ≡ size kids
size-set_child i t nil = refl
size-set_child zero t (child old kids) = refl
size-set_child (suc i) t (child old kids) = ap suc (size-set_child i t kids)

pub set_child-AreTries :
    (i : ℕ) (t : Trie) (kids : Children) → IsTrie t → AreTries kids → AreTries (set_child i t kids)
unfolding IsTrie
set_child-AreTries i t nil h k = tt
set_child-AreTries zero t (child old kids) h (k, ks) = (h, ks)
set_child-AreTries (suc i) t (child old kids) h (k, ks) = (k, set_child-AreTries i t kids h ks)

pub get_child-set_child :
    (i j : ℕ) (t old : Trie) (kids : Children)
    → get_child i kids ≡ some old
    → get_child j (set_child i t kids) ≡ (if i == j then some t else get_child j kids)
get_child-set_child i j t old nil h = cc
get_child-set_child zero zero t old (child u kids) h = refl
get_child-set_child zero (suc j) t old (child u kids) h = ground arith
get_child-set_child (suc i) zero t old (child u kids) h = ground arith
get_child-set_child (suc i) (suc j) t old (child u kids) h =
    ground (arith, get_child-set_child i j t old kids h)

pub nodes_of-set_child :
    (i : ℕ) (t old : Trie) (kids : Children)
    → get_child i kids ≡ some old
    → nodes_of (set_child i t kids) + nodes old ≡ nodes_of kids + nodes t
unfolding nodes
nodes_of-set_child i t old nil h = cc
nodes_of-set_child zero t old (child u kids) h = ground (arith, h)
nodes_of-set_child (suc i) t old (child u kids) h = omega (arith, nodes_of-set_child i t old kids h)

pub no_children-AreTries : (n : ℕ) → (size (no_children n) ≡ n) × AreTries (no_children n)
unfolding IsTrie
no_children-AreTries zero = (refl, tt)
no_children-AreTries (suc n) = let (s, k) = no_children-AreTries n in (ap suc s, (tt, k))

pub nodes_of-no_children : (n : ℕ) → nodes_of (no_children n) ≡ 0
unfolding nodes
nodes_of-no_children zero = refl
nodes_of-no_children (suc n) = omega (arith, nodes_of-no_children n)
