-- ===== src/Args.antt =====
-- src/args.c: the arguments of the command line, as the client is built (without SERVER_F). A string
-- is the list of its bytes without the NUL; the messages on stderr are left out.
pub mod Number
pub mod Full
pub mod Options
use ipk2024_projekt.Base.{
  Bool, List, [], codes, drop, false, get_elem?, if◌then◌else◌, length, ltb, negsuc, none, not, pos,
  ret, some, true, ℕ, ℤ, ◌%◌, ◌&&◌, ◌*◌, ◌+◌, ◌-◌, ◌==◌, ◌>>=◌, ◌>>◌, ◌||◌, ◌∷◌,
}
use ipk2024_projekt.Error.{Error, Exec, duplicated_argument, invalid_argument, set_error}
use ipk2024_projekt.World.{Args, tcp, udp}

-- The loop, with what was read so far. An `int` holds the next value, as the last one is a 16-bit
-- number.
unfoldable pub parse_digits : ℕ → List ℕ → ℤ
parse_digits num [] = pos num
parse_digits num (ch ∷ str) =
    let num' = num * 10 + (ch - b'0') in
    let rest = parse_digits num' str in
    if ltb ch b'0' || ltb b'9' ch then negsuc 0 else if ltb 65535 num' then negsuc 0 else rest

unfoldable pub parse_16bit_number : List ℕ → ℤ
parse_16bit_number str = parse_digits 0 str

-- `strcmp(a, b) == 0`
abbrev pub same_str : List ℕ → List ℕ → Bool
same_str [] [] = true
same_str (x ∷ a) (y ∷ b) = x == y && same_str a b
same_str _ _ = false

-- A byte of a string, or the NUL behind it.
abbrev char_at : List ℕ → ℕ → ℕ
char_at str i = elim (get_elem? str i) [ none ↦ 0 | some ch ↦ ch ]

-- The local variables of the loop.
pub record Parsing : Type 0 where
  pub args : Args
  pub got_port : Bool
  pub got_host : Bool
  pub got_mode : Bool
  pub got_timeout : Bool
  pub got_udp_retransmissions : Bool

-- `set_error(type); return args`
abbrev pub give_up : Error → Parsing → Exec Args
give_up type p = do set_error type; ret p.args

-- A case that takes a number: `refused` is its test on it, and `next` gets it.
unfoldable pub parse_number : (ℕ → Bool) → Bool → List ℕ → Parsing → (ℕ → Exec Args) → Exec Args
parse_number refused got val p next =
    if got then give_up duplicated_argument p else elim (parse_16bit_number val) [
      | negsuc _ ↦ give_up invalid_argument p
      | pos num ↦ if refused num then give_up invalid_argument p else next num
    ]

unfoldable pub parse_port : List ℕ → Parsing → (Parsing → Exec Args) → Exec Args
parse_port val p next =
    parse_number (λ num. false) p.got_port val p
      λ num. next (record p { args = record (p.args) { port = num }; got_port = true })

unfoldable pub parse_timeout : List ℕ → Parsing → (Parsing → Exec Args) → Exec Args
parse_timeout val p next =
    parse_number (λ num. false) p.got_timeout val p
      λ num. next (record p { args = record (p.args) { udp_timeout = num }; got_timeout = true })

unfoldable pub parse_retransmissions : List ℕ → Parsing → (Parsing → Exec Args) → Exec Args
parse_retransmissions val p next =
    parse_number (λ num. ltb 255 num) p.got_udp_retransmissions val p
      λ num. next (record p {
        args = record (p.args) { udp_retransmissions = num };
        got_udp_retransmissions = true;
      })

unfoldable pub parse_host : List ℕ → Parsing → (Parsing → Exec Args) → Exec Args
parse_host val p next =
    if p.got_host
    then give_up duplicated_argument p
    else next (record p { args = record (p.args) { host = val }; got_host = true })

unfoldable pub parse_mode : List ℕ → Parsing → (Parsing → Exec Args) → Exec Args
parse_mode val p next =
    if p.got_mode
    then give_up duplicated_argument p
    else if same_str val (codes "udp")
    then next (record p { args = record (p.args) { mode = udp }; got_mode = true })
    else if same_str val (codes "tcp")
    then next (record p { args = record (p.args) { mode = tcp }; got_mode = true })
    else give_up invalid_argument p

-- The switch on the second byte of the key; `next` is the rest of the loop.
unfoldable pub parse_option : ℕ → List ℕ → Parsing → (Parsing → Exec Args) → Exec Args
parse_option ch val p next =
    if ch == b's'
    then parse_host val p next
    else if ch == b'p'
    then parse_port val p next
    else if ch == b't'
    then parse_mode val p next
    else if ch == b'd'
    then parse_timeout val p next
    else if ch == b'r'
    then parse_retransmissions val p next
    else give_up invalid_argument p

-- The checks behind the loop.
unfoldable pub parse_end : Parsing → Exec Args
parse_end p = do
  if not p.got_host then set_error invalid_argument else ret tt
  if not p.got_mode then set_error invalid_argument else ret tt
  ret p.args

-- The loop over the keys and values from `argv[1]` on.
unfoldable pub parse_options : List (List ℕ) → Parsing → Exec Args
parse_options (key ∷ val ∷ rest) p =
    if not (length key == 2) && not (char_at key 0 == b'-')
    then give_up invalid_argument p
    else parse_option (char_at key 1) val p λ p'. parse_options rest p'
parse_options _ p = parse_end p

-- `args = uninit` holds whatever the memory of the local variable did before.
unfoldable pub parse_args : Args → List (List ℕ) → Exec Args
parse_args uninit argv =
    if length argv == 2
      && elim (get_elem? argv 1) [ none ↦ false | some arg ↦ same_str arg (codes "-h") ]
    then ret (record uninit { help = true })
    else if length argv % 2 == 0 || ltb (length argv) 5
    then (do set_error invalid_argument; ret uninit)
    else parse_options (drop 1 argv) record {
      args = record uninit {
        port = 4567;
        udp_timeout = 250;
        udp_retransmissions = 3;
        help = false;
      };
      got_port = false;
      got_host = false;
      got_mode = false;
      got_timeout = false;
      got_udp_retransmissions = false;
    }
