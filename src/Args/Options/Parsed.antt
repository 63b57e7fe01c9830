-- ===== src/Args/Options/Parsed.antt =====
-- What parse_args makes of a command line of options in any order.
use ipk2024_projekt.Base.{
  All, List, [], arith, codes, false, inl, inr, length, le→ltb, pos, refl, some, true, within, ℕ,
  ◌*◌, ◌<◌, ◌^◌, ◌∙◌, ◌∷◌, ◌≡◌, ◌≤◌, ◌⊎◌,
}
use ipk2024_projekt.Error.{Error, no_error}
use ipk2024_projekt.World.{Args, tcp, udp}
use ipk2024_projekt.Args.Number.{is_numeral, parse_16bit_number_lem, value}
use ipk2024_projekt.Args.{
  Parsing, parse_16bit_number, parse_args, parse_end, parse_host, parse_mode, parse_number,
  parse_option, parse_options, parse_port, parse_retransmissions, parse_timeout,
}
use ipk2024_projekt.Args.Options.{
  Includes, IsDistinct, IsWithin, Opt, Says, given_or_kept, got, got_included, host_is, host_kind,
  kind_of, mode_is, mode_kind, port_is, port_kind, retries_is, retries_kind, set, settled,
  settled-Says, settled_help, still_new, timeout_is, timeout_kind, words,
}

numeral :
    (str : List ℕ)
    → is_numeral str ≡ true
    → value str < 2 ^ 16
    → parse_16bit_number str ≡ pos (value str)
numeral str digits small = ground (arith, parse_16bit_number_lem str)

-- One option of a kind that was not met yet.
one_option :
    (o : Opt) (opts : List Opt) (p : Parsing) (error : Error)
    → IsWithin o
    → got (kind_of o) p ≡ false
    → parse_options (words (o ∷ opts)) p error ≡ parse_options (words opts) (set o p) error
unfolding parse_options parse_option parse_host parse_mode parse_port parse_timeout
    parse_retransmissions parse_number
one_option (host_is host) opts p error h new = rw new refl
one_option (mode_is udp) opts p error h new = rw new refl
one_option (mode_is tcp) opts p error h new = rw new refl
one_option (port_is port) opts p error (d, v) new = rw (new, numeral port d v) refl
one_option (timeout_is timeout) opts p error (d, v) new = rw (new, numeral timeout d v) refl
one_option (retries_is retries) opts p error (d, v) new =
    rw (new, numeral retries d (omega arith), le→ltb 255 (value retries) (omega arith)) refl

-- The loop over options of different kinds.
run_options :
    (opts : List Opt) (p : Parsing) (error : Error)
    → All IsWithin opts
    → IsDistinct opts
    → All (λ o. got (kind_of o) p ≡ false) opts
    → parse_options (words opts) p error ≡ parse_end (settled opts p) error
unfolding parse_options
run_options [] p error within d new = refl
run_options (o ∷ opts) p error (h, within) (lacks, d) (n, new) =
    one_option o opts p error h n
    ∙ run_options opts (set o p) error within d (still_new o opts p lacks new)

length-words : (opts : List Opt) → length (words opts) ≡ 2 * length opts
length-words [] = refl
length-words (host_is host ∷ opts) = omega (arith, length-words opts)
length-words (mode_is mode ∷ opts) = omega (arith, length-words opts)
length-words (port_is port ∷ opts) = omega (arith, length-words opts)
length-words (timeout_is timeout ∷ opts) = omega (arith, length-words opts)
length-words (retries_is retries ∷ opts) = omega (arith, length-words opts)

two_options :
    (opts : List Opt) → Includes host_kind opts → Includes mode_kind opts → 2 ≤ length opts
two_options [] h m = absurd h
two_options (o ∷ []) (inl h) (inl m) = absurd (ground (arith, h, m))
two_options (o ∷ []) (inr h) m = absurd h
two_options (o ∷ []) (inl h) (inr m) = absurd m
two_options (o ∷ (q ∷ opts)) h m = omega arith

-- The local variables before the loop.
abbrev begun : Args → Parsing
begun uninit = record {
  args = record uninit { port = 4567; udp_timeout = 250; udp_retransmissions = 3; help = false };
  got_port = false;
  got_host = false;
  got_mode = false;
  got_timeout = false;
  got_udp_retransmissions = false;
}

unmet : (uninit : Args) (opts : List Opt) → All (λ o. got (kind_of o) (begun uninit) ≡ false) opts
unmet uninit [] = tt
unmet uninit (o ∷ opts) = (ground arith, unmet uninit opts)

-- Options in any order, each of the five kinds at most once, a host and a mode among them, whose numbers
-- are decimal numerals or empty, of 16 bits and of 8 bits for the retransmissions, give the arguments
-- that they say, and no error. A port, a timeout and a number of retransmissions that are not given are
-- 4567, 250 and 3.
pub parse_args-words :
    (uninit : Args) (name : List ℕ) (opts : List Opt)
    → All IsWithin opts
    → IsDistinct opts
    → Includes host_kind opts
    → Includes mode_kind opts
    → (args : Args) × (parse_args uninit (name ∷ words opts) no_error ≡ some (args, no_error))
      × All (Says args) opts
      × (Includes port_kind opts ⊎ (args.port ≡ 4567))
      × (Includes timeout_kind opts ⊎ (args.udp_timeout ≡ 250))
      × (Includes retries_kind opts ⊎ (args.udp_retransmissions ≡ 3))
      × (args.help ≡ false)
unfolding parse_args parse_end
parse_args-words uninit name opts within d host mode =
    let p = settled opts (begun uninit) in
    (
      p.args,
      ground (
        arith,
        length-words opts,
        two_options opts host mode,
        run_options opts (begun uninit) no_error within d (unmet uninit opts),
        got_included host_kind opts (begun uninit) host,
        got_included mode_kind opts (begun uninit) mode,
      ),
      settled-Says opts (begun uninit) d,
      given_or_kept (port_is (codes "4567")) opts (begun uninit) refl,
      given_or_kept (timeout_is (codes "250")) opts (begun uninit) refl,
      given_or_kept (retries_is (codes "3")) opts (begun uninit) refl,
      settled_help opts (begun uninit),
    )
