-- ===== src/Tests/Arguments.antt =====
-- The command line of the client.
use ipk2024_projekt.Base.{
  All, List, [], arith, inl, inr, ◌⊎◌, codes, false, if◌then◌else◌, ltb, negsuc, pos, refl, some,
  true, ◌&&◌, ◌^◌, ◌∷◌, ◌≡◌,
}
use ipk2024_projekt.Error.{duplicated_argument, invalid_argument, no_error}
use ipk2024_projekt.World.{Args, tcp, udp}
use ipk2024_projekt.Args.Number.{is_numeral, parse_16bit_number_lem, value}
use ipk2024_projekt.Args.Options.Parsed.{parse_args-words}
use ipk2024_projekt.Args.Options.{
  Includes, Opt, Says, host_is, mode_is, port_is, port_kind, retries_is, retries_kind, timeout_kind,
  words,
}
use ipk2024_projekt.Args.{
  parse_16bit_number, parse_args, parse_digits, parse_end, parse_host, parse_number, parse_option,
  parse_options, parse_port,
}

abbrev some_args : Args
some_args = record {
  mode = tcp;
  host = [];
  port = 1;
  udp_timeout = 2;
  udp_retransmissions = 7;
  help = true;
}

parse_16bit_number_lem_example : parse_16bit_number (codes "65536") ≡ (
    if is_numeral (codes "65536") && ltb (value (codes "65536")) (2 ^ 16)
    then pos (value (codes "65536"))
    else negsuc 0)
parse_16bit_number_lem_example = parse_16bit_number_lem (codes "65536")

-- The mode first, a port in front of the host, and no timeout.
abbrev some_opts : List Opt
some_opts =
    mode_is udp ∷ port_is (codes "80") ∷ host_is (codes "localhost") ∷ retries_is (codes "9") ∷ []

parse_args-words_example :
    (args : Args) × (parse_args some_args (codes "ipk24chat-client" ∷ words some_opts) no_error
      ≡ some (args, no_error))
    × All (Says args) some_opts
    × (Includes port_kind some_opts ⊎ (args.port ≡ 4567))
    × (Includes timeout_kind some_opts ⊎ (args.udp_timeout ≡ 250))
    × (Includes retries_kind some_opts ⊎ (args.udp_retransmissions ≡ 3))
    × (args.help ≡ false)
parse_args-words_example =
    parse_args-words some_args (codes "ipk24chat-client") some_opts
      (tt, ((refl, omega arith), (tt, ((refl, omega arith), tt))))
      (
        ((λ e. cc e), ((λ e. cc e), ((λ e. cc e), tt))),
        (((λ e. cc e), ((λ e. cc e), tt)), (((λ e. cc e), tt), (tt, tt))),
      )
      (inr (inr (inl refl))) (inl refl)

-- A host alone is refused, as the mode is missing; an option given twice is refused at once.
parse_args-no_mode :
    parse_args some_args (codes "c" ∷ codes "-s" ∷ codes "a" ∷ codes "-p" ∷ codes "9" ∷ []) no_error
    ≡ some (
      record {
        mode = tcp;
        host = codes "a";
        port = 9;
        udp_timeout = 250;
        udp_retransmissions = 3;
        help = false;
      },
      invalid_argument,
    )
unfolding parse_args parse_options parse_option parse_host parse_port parse_number parse_end
    parse_16bit_number parse_digits
parse_args-no_mode = refl

parse_args-twice :
    parse_args some_args (codes "c" ∷ codes "-s" ∷ codes "a" ∷ codes "-s" ∷ codes "b" ∷ []) no_error
    ≡ some (
      record {
        mode = tcp;
        host = codes "a";
        port = 4567;
        udp_timeout = 250;
        udp_retransmissions = 3;
        help = false;
      },
      duplicated_argument,
    )
unfolding parse_args parse_options parse_option parse_host
parse_args-twice = refl
