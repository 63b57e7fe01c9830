-- ===== src/Args/Full.antt =====
-- A command line that gives every option, in the order -s, -t, -p, -d, -r.
use ipk2024_projekt.Base.{
  List, [], arith, codes, false, le→ltb, pos, some, true, ℕ, ◌<◌, ◌^◌, ◌∷◌, ◌≡◌,
}
use ipk2024_projekt.Error.{no_error}
use ipk2024_projekt.World.{Args, Mode, tcp, udp}
use ipk2024_projekt.Args.Number.{is_numeral, parse_16bit_number_lem, value}
use ipk2024_projekt.Args.{
  parse_16bit_number, parse_args, parse_end, parse_host, parse_mode, parse_number, parse_option,
  parse_options, parse_port, parse_retransmissions, parse_timeout,
}

abbrev pub mode_text : Mode → List ℕ
mode_text udp = codes "udp"
mode_text tcp = codes "tcp"

abbrev pub key : ℕ → List ℕ
key ch = b'-' ∷ ch ∷ []

-- The options of the client behind the name of the program.
abbrev pub command_line : List ℕ → List ℕ → Mode → List ℕ → List ℕ → List ℕ → List (List ℕ)
command_line name host mode port timeout retries =
    name
    ∷ key b's'
    ∷ host
    ∷ key b't'
    ∷ mode_text mode
    ∷ key b'p'
    ∷ port
    ∷ key b'd'
    ∷ timeout
    ∷ key b'r'
    ∷ retries
    ∷ []

module _ (str : List ℕ) (digits : is_numeral str ≡ true) where
  numeral : value str < 2 ^ 16 → parse_16bit_number str ≡ pos (value str)
  numeral small = ground (arith, parse_16bit_number_lem str)

-- A command line with each option once, in the order -s, -t, -p, -d, -r, whose numbers are decimal numerals, of 16 bits and of 8 bits
-- for the retransmissions, gives exactly these arguments, and no error.
pub parse_args-command_line :
    (uninit : Args) (name host port timeout retries : List ℕ) (mode : Mode)
    → is_numeral port ≡ true
    → is_numeral timeout ≡ true
    → is_numeral retries ≡ true
    → value port < 2 ^ 16
    → value timeout < 2 ^ 16
    → value retries < 2 ^ 8
    → parse_args uninit (command_line name host mode port timeout retries) no_error
      ≡ some (
        record {
          mode = mode;
          host = host;
          port = value port;
          udp_timeout = value timeout;
          udp_retransmissions = value retries;
          help = false;
        },
        no_error,
      )
unfolding parse_args parse_options parse_option parse_host parse_mode parse_port parse_timeout
    parse_retransmissions parse_number parse_end
parse_args-command_line uninit name host port timeout retries udp dp dt dr p t r = rw (
  numeral port dp p,
  numeral timeout dt t,
  numeral retries dr (omega arith),
  le→ltb 255 (value retries) (omega arith),
)
parse_args-command_line uninit name host port timeout retries tcp dp dt dr p t r = rw (
  numeral port dp p,
  numeral timeout dt t,
  numeral retries dr (omega arith),
  le→ltb 255 (value retries) (omega arith),
)
