-- ===== src/Trie.antt =====
-- src/trie.h and src/trie.c: a trie over an alphabet of TRIE_ARR_LEN letters.
-- Every node holds the function that its root was made with, so it is an argument here. A string is
-- the bytes that can be read at its pointer, its NUL among them; a read behind them is a fault.
pub mod Leaf
pub mod Safe
pub mod Free
pub mod Nodes
pub mod Map
pub mod Match
use ipk2024_projekt.Base.{
  Bool, List, M, Option, [], false, if◌then◌else◌, negsuc, none, pos, ret, some, suc, true, zero, ℕ,
  ℤ, ◌>>=◌, ◌>>◌, ◌∷◌,
}
use ipk2024_projekt.Error.{Error, is_set, no_error, out_of_memory}

abbrev pub trie_arr_len : ℕ
trie_arr_len = 27

-- `null` is the NULL pointer, and the children are an array of pointers.
mutual
  pub data Trie : Type 0 where
    null : Trie
    node : ℤ → Children → Trie

  pub data Children : Type 0 where
    nil : Children
    child : Trie → Children → Children

-- The globals of the allocating functions: ERROR, whether each call of `malloc` to come fails, and how
-- many blocks are not freed yet.
pub record Memory : Type 0 where
  pub error : Error
  pub denials : List Bool
  pub blocks : ℕ

-- No error, and no allocation fails; `n` blocks are not freed.
abbrev pub plenty : ℕ → Memory
plenty n = record { error = no_error; denials = []; blocks = n }

-- `memset` to zero.
abbrev pub no_children : ℕ → Children
no_children zero = nil
no_children (suc n) = child null (no_children n)

abbrev pub malloc : M Memory Bool
malloc m = elim m.denials [
  | [] ↦ some (true, record m { blocks = suc m.blocks })
  | denied ∷ rest ↦ elim denied [
    | true ↦ some (false, record m { denials = rest })
    | false ↦ some (true, record m { denials = rest; blocks = suc m.blocks })
  ]
]

-- `free` of a block; there must be one.
abbrev pub free : M Memory (Unit {0})
free m = elim m.blocks [ zero ↦ none | suc n ↦ some (tt, record m { blocks = n }) ]

unfoldable pub trie_new : M Memory Trie
trie_new = do
  given ← malloc
  if given then ret (node (negsuc 0) (no_children trie_arr_len)) else λ m.
      some (null, record m { error = out_of_memory })

abbrev pub get_child : ℕ → Children → Option Trie
get_child i nil = none
get_child zero (child t kids) = some t
get_child (suc i) (child t kids) = get_child i kids

abbrev pub set_child : ℕ → Trie → Children → Children
set_child i t nil = nil
set_child zero t (child old kids) = child t kids
set_child (suc i) t (child old kids) = child old (set_child i t kids)

-- The child to go on with: it is made if there is none, and `none` means that an error was set.
abbrev pub sub_trie : Trie → M Memory (Option Trie)
sub_trie (node value kids) m = some (some (node value kids), m)
sub_trie null m = elim (trie_new m) [
  | none ↦ none
  | some (t, m') ↦ some ((if is_set m'.error then none else some t), m')
]

-- The trie with the value inserted stands for the nodes that the source changes in place.
unfoldable pub trie_insert : (ℕ → ℤ) → Trie → List ℕ → ℤ → M Memory Trie
trie_insert to_index null str value m = none
trie_insert to_index (node old kids) [] value m = none
trie_insert to_index (node old kids) (ch ∷ str) value m = elim (to_index ch) [
  | negsuc _ ↦ some (node value kids, m)
  | pos index ↦ elim (get_child index kids) [
    | none ↦ none
    | some entry ↦ elim (sub_trie entry m) [
      | none ↦ none
      | some (made, m') ↦ elim made [
        | none ↦ some (node old kids, m')
        | some sub ↦ elim (trie_insert to_index sub str value m') [
          | none ↦ none
          | some (sub', m'') ↦ some (node old (set_child index sub' kids), m'')
        ]
      ]
    ]
  ]
]

unfoldable pub trie_match_prefix : (ℕ → ℤ) → Trie → List ℕ → Option ℤ
trie_match_prefix to_index null str = none
trie_match_prefix to_index (node value kids) [] = none
trie_match_prefix to_index (node value kids) (ch ∷ str) = elim (to_index ch) [
  | negsuc _ ↦ some value
  | pos index ↦ elim (get_child index kids) [
    | none ↦ none
    | some null ↦ some value
    | some (node v c) ↦ trie_match_prefix to_index (node v c) str
  ]
]

-- The children first, and then the node itself.
unfoldable mutual
  pub trie_free : Trie → M Memory (Unit {0})
  trie_free null = ret tt
  trie_free (node value kids) = do free_children kids; free

  -- The loop over the array of the children.
  pub free_children : Children → M Memory (Unit {0})
  free_children nil = ret tt
  free_children (child t kids) = do trie_free t; free_children kids
