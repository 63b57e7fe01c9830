-- ===== src/Tcp/Bye.antt =====
-- The line of BYE is told by its first three bytes, and its end is skipped without a look at it.
use ipk2024_projekt.Base.{
  List, [], arith, codes, drop-ge, length, length-append, some, ℕ, ◌++◌, ◌<◌, ◌≡◌, ◌≤◌,
}
use ipk2024_projekt.Error.{Error}
use ipk2024_projekt.Bytes.View.{bytes_skip_first_n_lem, view}
use ipk2024_projekt.Payload.{Payload, bye}
use ipk2024_projekt.Tcp.{deserialize_type, finish, tcp_deserialize}
use ipk2024_projekt.Tcp.Prefix.{match-bye, tcp_trie}

-- A slice of BYE and at most two more bytes, whatever they are, is taken for a BYE with no error.
pub tcp_bye_any_end :
    (uninit : Payload) (tail back : List ℕ) (error : Error)
    → length tail ≤ 2
    → 0 < length back
    → tcp_deserialize uninit tcp_trie (view [] (codes "BYE" ++ tail) back) error
      ≡ some (record uninit { type = bye }, error)
unfolding tcp_deserialize deserialize_type finish
tcp_bye_any_end uninit tail back error h more = rw (
  match-bye (tail ++ back) (omega (arith, length-append tail back)),
  bytes_skip_first_n_lem [] (codes "BYE" ++ tail) back 5 (omega arith),
  drop-ge 2 tail h,
)
