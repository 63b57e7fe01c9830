-- ===== src/Args/Options.antt =====
-- The options of a command line, in any order, and the arguments that they say.
use ipk2024_projekt.Base.{
  All, Bool, List, [], arith, codes, false, inl, inr, length, le→ltb, pos, refl, some, subst, sym,
  true, within, ℕ, ◌*◌, ◌<◌, ◌^◌, ◌∙◌, ◌∷◌, ◌≡◌, ◌≢◌, ◌≤◌, ◌⊎◌,
}
use ipk2024_projekt.Error.{Error, no_error}
use ipk2024_projekt.World.{Args, Mode, tcp, udp}
use ipk2024_projekt.Args.Number.{is_numeral, parse_16bit_number_lem, value}
use ipk2024_projekt.Args.{
  Parsing, parse_16bit_number, parse_args, parse_end, parse_host, parse_mode, parse_number,
  parse_option, parse_options, parse_port, parse_retransmissions, parse_timeout,
}
use ipk2024_projekt.Args.Full.{key, mode_text}
pub mod Parsed

pub data Opt : Type 0 where
  host_is : List ℕ → Opt
  mode_is : Mode → Opt
  port_is timeout_is retries_is : List ℕ → Opt

pub data Kind : Type 0 where
  host_kind mode_kind port_kind timeout_kind retries_kind : Kind

abbrev pub kind_of : Opt → Kind
kind_of (host_is host) = host_kind
kind_of (mode_is mode) = mode_kind
kind_of (port_is port) = port_kind
kind_of (timeout_is timeout) = timeout_kind
kind_of (retries_is retries) = retries_kind

-- The key and the value of each option.
abbrev pub words : List Opt → List (List ℕ)
words [] = []
words (host_is host ∷ opts) = key b's' ∷ host ∷ words opts
words (mode_is mode ∷ opts) = key b't' ∷ mode_text mode ∷ words opts
words (port_is port ∷ opts) = key b'p' ∷ port ∷ words opts
words (timeout_is timeout ∷ opts) = key b'd' ∷ timeout ∷ words opts
words (retries_is retries ∷ opts) = key b'r' ∷ retries ∷ words opts

-- A number is a numeral within the limit.
abbrev pub IsWithin : Opt → Type 0
IsWithin (host_is host) = Unit {0}
IsWithin (mode_is mode) = Unit {0}
IsWithin (port_is port) = (is_numeral port ≡ true) × (value port < 2 ^ 16)
IsWithin (timeout_is timeout) = (is_numeral timeout ≡ true) × (value timeout < 2 ^ 16)
IsWithin (retries_is retries) = (is_numeral retries ≡ true) × (value retries < 2 ^ 8)

-- What an option asks of the arguments.
abbrev pub Says : Args → Opt → Type 0
Says args (host_is host) = args.host ≡ host
Says args (mode_is mode) = args.mode ≡ mode
Says args (port_is port) = args.port ≡ value port
Says args (timeout_is timeout) = args.udp_timeout ≡ value timeout
Says args (retries_is retries) = args.udp_retransmissions ≡ value retries

-- No option of this kind, and no kind twice.
abbrev pub Lacks : Kind → List Opt → Type 0
Lacks k opts = All (λ o. kind_of o ≢ k) opts

abbrev pub IsDistinct : List Opt → Type 0
IsDistinct [] = Unit {0}
IsDistinct (o ∷ opts) = Lacks (kind_of o) opts × IsDistinct opts

abbrev pub got : Kind → Parsing → Bool
got host_kind p = p.got_host
got mode_kind p = p.got_mode
got port_kind p = p.got_port
got timeout_kind p = p.got_timeout
got retries_kind p = p.got_udp_retransmissions

-- The local variables behind an option, and behind all of them.
abbrev pub set : Opt → Parsing → Parsing
set (host_is host) p = record p { args = record (p.args) { host = host }; got_host = true }
set (mode_is mode) p = record p { args = record (p.args) { mode = mode }; got_mode = true }
set (port_is port) p = record p { args = record (p.args) { port = value port }; got_port = true }
set (timeout_is timeout) p = record p {
  args = record (p.args) { udp_timeout = value timeout };
  got_timeout = true;
}
set (retries_is retries) p = record p {
  args = record (p.args) { udp_retransmissions = value retries };
  got_udp_retransmissions = true;
}

abbrev pub settled : List Opt → Parsing → Parsing
settled [] p = p
settled (o ∷ opts) p = settled opts (set o p)

got-set : (o : Opt) (k : Kind) (p : Parsing) → kind_of o ≢ k → got k (set o p) ≡ got k p
got-set o k p ne = ground (arith, ne)

Says-set :
    (o q : Opt) (p : Parsing) → kind_of q ≢ kind_of o → Says p.args o → Says ((set q p).args) o
Says-set o q p ne h = ground (arith, ne, h)

-- What the options behind it do not speak of stays.
kept :
    (o : Opt) (opts : List Opt) (p : Parsing)
    → Lacks (kind_of o) opts
    → Says p.args o
    → Says ((settled opts p).args) o
kept o [] p lacks h = h
kept o (q ∷ opts) p (ne, lacks) h = kept o opts (set q p) lacks (Says-set o q p ne h)

set-Says : (o : Opt) (p : Parsing) → Says ((set o p).args) o
set-Says (host_is host) p = refl
set-Says (mode_is mode) p = refl
set-Says (port_is port) p = refl
set-Says (timeout_is timeout) p = refl
set-Says (retries_is retries) p = refl

pub settled-Says :
    (opts : List Opt) (p : Parsing) → IsDistinct opts → All (Says ((settled opts p).args)) opts
settled-Says [] p d = tt
settled-Says (o ∷ opts) p (lacks, d) =
    (kept o opts (set o p) lacks (set-Says o p), settled-Says opts (set o p) d)

set_help : (o : Opt) (p : Parsing) → (set o p).args.help ≡ p.args.help
set_help (host_is host) p = refl
set_help (mode_is mode) p = refl
set_help (port_is port) p = refl
set_help (timeout_is timeout) p = refl
set_help (retries_is retries) p = refl

pub settled_help : (opts : List Opt) (p : Parsing) → (settled opts p).args.help ≡ p.args.help
settled_help [] p = refl
settled_help (o ∷ opts) p = settled_help opts (set o p) ∙ set_help o p

-- An option of this kind.
abbrev pub Includes : Kind → List Opt → Type 0
Includes k [] = ⊥
Includes k (o ∷ opts) = (kind_of o ≡ k) ⊎ Includes k opts

got-set_self : (o : Opt) (p : Parsing) → got (kind_of o) (set o p) ≡ true
got-set_self (host_is host) p = refl
got-set_self (mode_is mode) p = refl
got-set_self (port_is port) p = refl
got-set_self (timeout_is timeout) p = refl
got-set_self (retries_is retries) p = refl

got_stays : (k : Kind) (o : Opt) (p : Parsing) → got k p ≡ true → got k (set o p) ≡ true
got_stays k o p h = ground (arith, h)

got-settled :
    (k : Kind) (opts : List Opt) (p : Parsing) → got k p ≡ true → got k (settled opts p) ≡ true
got-settled k [] p h = h
got-settled k (o ∷ opts) p h = got-settled k opts (set o p) (got_stays k o p h)

pub got_included :
    (k : Kind) (opts : List Opt) (p : Parsing) → Includes k opts → got k (settled opts p) ≡ true
got_included k [] p i = absurd i
got_included k (o ∷ opts) p (inl e) =
    got-settled k opts (set o p) (subst (λ k. got k (set o p) ≡ true) e (got-set_self o p))
got_included k (o ∷ opts) p (inr i) = got_included k opts (set o p) i

pub still_new :
    (o : Opt) (opts : List Opt) (p : Parsing)
    → Lacks (kind_of o) opts
    → All (λ q. got (kind_of q) p ≡ false) opts
    → All (λ q. got (kind_of q) (set o p) ≡ false) opts
still_new o [] p lacks new = tt
still_new o (q ∷ opts) p (ne, lacks) (n, new) =
    (got-set o (kind_of q) p (λ e. ne (sym e)) ∙ n, still_new o opts p lacks new)

is_kind : (k l : Kind) → (k ≡ l) ⊎ (k ≢ l)
is_kind host_kind l = ground arith
is_kind mode_kind l = ground arith
is_kind port_kind l = ground arith
is_kind timeout_kind l = ground arith
is_kind retries_kind l = ground arith

Includes-or_Lacks : (k : Kind) (opts : List Opt) → Includes k opts ⊎ Lacks k opts
Includes-or_Lacks k [] = inr tt
Includes-or_Lacks k (o ∷ opts) = elim (is_kind (kind_of o) k) [
  | inl e ↦ inl (inl e)
  | inr n ↦ elim (Includes-or_Lacks k opts) [ inl h ↦ inl (inr h) | inr h ↦ inr (n, h) ]
]

pub given_or_kept :
    (o : Opt) (opts : List Opt) (p : Parsing)
    → Says p.args o
    → Includes (kind_of o) opts ⊎ Says ((settled opts p).args) o
given_or_kept o opts p h = elim (Includes-or_Lacks (kind_of o) opts) [
  | inl g ↦ inl g
  | inr lacks ↦ inr (kept o opts p lacks h)
]
