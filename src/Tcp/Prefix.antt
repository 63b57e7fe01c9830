-- ===== src/Tcp/Prefix.antt =====
-- The trie that `tcp_setup` makes, and the type that it finds for each kind of line.
use ipk2024_projekt.Base.{
  List, Option, ap, arith, codes, length, none, pos, some, ℕ, ℤ, ◌++◌, ◌+◌, ◌<◌, ◌≡◌,
}
use ipk2024_projekt.Trie.{
  Memory, Trie, no_children, node, null, plenty, trie_arr_len, trie_insert, trie_match_prefix,
  trie_new,
}
use ipk2024_projekt.Trie.Free.{nodes}
use ipk2024_projekt.Trie.Leaf.{match-leaf}
use ipk2024_projekt.Tcp.{insert_prefixes, tcp_prefix_index, tcp_setup}

abbrev got : Option (Trie × Memory) → Trie
got none = null
got (some (t, m)) = t

-- TCP_TRIE after a setup that got all its memory.
unfoldable pub tcp_trie : Trie
tcp_trie = got (tcp_setup (plenty 0))

pub tcp_setup-tcp_trie :
    (n : ℕ) → tcp_setup (plenty n) ≡ some (tcp_trie, plenty (nodes tcp_trie + n))
unfolding tcp_trie tcp_setup insert_prefixes trie_insert tcp_prefix_index trie_new nodes
tcp_setup-tcp_trie n = ap (λ k. some (tcp_trie, plenty k)) (omega arith)

pub index_lt : (ch i : ℕ) → tcp_prefix_index ch ≡ pos i → i < trie_arr_len
unfolding tcp_prefix_index
index_lt ch i e = ground arith

leaf :
    (value : ℤ) (str : List ℕ)
    → 0 < length str
    → trie_match_prefix tcp_prefix_index (node value (no_children trie_arr_len)) str ≡ some value
leaf = match-leaf tcp_prefix_index index_lt

-- Each kind of line is told by the bytes that it begins with, and the line of BYE by three of them.
module _ (str : List ℕ) (more : 0 < length str) where
  pub match-join :
      trie_match_prefix tcp_prefix_index tcp_trie (codes "JOIN " ++ str) ≡ some (pos 0x03)
  unfolding tcp_trie tcp_setup insert_prefixes trie_insert tcp_prefix_index trie_new
  match-join = unfold trie_match_prefix in leaf (pos 0x03) str more

  pub match-auth :
      trie_match_prefix tcp_prefix_index tcp_trie (codes "AUTH " ++ str) ≡ some (pos 0x02)
  unfolding tcp_trie tcp_setup insert_prefixes trie_insert tcp_prefix_index trie_new
  match-auth = unfold trie_match_prefix in leaf (pos 0x02) str more

  pub match-message :
      trie_match_prefix tcp_prefix_index tcp_trie (codes "MSG FROM " ++ str) ≡ some (pos 0x04)
  unfolding tcp_trie tcp_setup insert_prefixes trie_insert tcp_prefix_index trie_new
  match-message = unfold trie_match_prefix in leaf (pos 0x04) str more

  pub match-err :
      trie_match_prefix tcp_prefix_index tcp_trie (codes "ERR FROM " ++ str) ≡ some (pos 0xfe)
  unfolding tcp_trie tcp_setup insert_prefixes trie_insert tcp_prefix_index trie_new
  match-err = unfold trie_match_prefix in leaf (pos 0xfe) str more

  pub match-reply :
      trie_match_prefix tcp_prefix_index tcp_trie (codes "REPLY " ++ str) ≡ some (pos 0x01)
  unfolding tcp_trie tcp_setup insert_prefixes trie_insert tcp_prefix_index trie_new
  match-reply = unfold trie_match_prefix in leaf (pos 0x01) str more

  pub match-bye : trie_match_prefix tcp_prefix_index tcp_trie (codes "BYE" ++ str) ≡ some (pos 0xff)
  unfolding tcp_trie tcp_setup insert_prefixes trie_insert tcp_prefix_index trie_new
  match-bye = unfold trie_match_prefix in leaf (pos 0xff) str more
