-- ===== src/Main.antt =====
-- src/main.c: the client as a program.
use ipk2024_projekt.Base.{
  All, Bool-cases, List, M, Option, [], arith, false, if◌then◌else◌, inl, inr, length, none, refl,
  ret, some, true, ℕ, ◌<◌, ◌>>=◌, ◌>>◌, ◌^◌, ◌≡◌, ◌≢◌, ◌≤◌,
}
use ipk2024_projekt.Error.{
  Error, bad_query, connection, duplicated_argument, get_error, internal, invalid_argument,
  invalid_input, invalid_payload, is_set, no_error, out_of_memory, recv_from_wrong_address, socket,
  stack_overflow,
}
use ipk2024_projekt.World.{Args, Mode, World, program_help, program_usage, run_exec, write}
use ipk2024_projekt.Args.{parse_args}
use ipk2024_projekt.Args.Full.{command_line, parse_args-command_line}
use ipk2024_projekt.Args.Number.{is_numeral, value}
use ipk2024_projekt.Client.Close.{client_run_refused, client_run_safe}
use ipk2024_projekt.Client.Diagram.{◌⟶*◌}
use ipk2024_projekt.Client.Invariant.Loop.{IsSound}
use ipk2024_projekt.Client.Lines.{IsTyped}
use ipk2024_projekt.Client.Safe.Loop.{BringsBytes}
use ipk2024_projekt.Payload.{display_name_len}
use ipk2024_projekt.Payload.Fits.{Fits}
use ipk2024_projekt.Client.Start.{all_good, connected}
use ipk2024_projekt.Client.Loop.{Round, client_run}

-- The number of an error code, as the enumeration counts.
abbrev pub to_code : Error → ℕ
to_code no_error = 0
to_code out_of_memory = 1
to_code stack_overflow = 2
to_code invalid_argument = 3
to_code duplicated_argument = 4
to_code socket = 5
to_code connection = 6
to_code invalid_payload = 7
to_code recv_from_wrong_address = 8
to_code bad_query = 9
to_code invalid_input = 10
to_code internal = 11

to_code_pos : (e : Error) → is_set e ≡ true → 0 < to_code e
to_code_pos e h = ground (arith, h)

-- The exit code, or `none` while the client still waits behind the last of the rounds. `uninit` is
-- what the local variable of `parse_args` holds.
unfoldable pub main : Args → List (List ℕ) → List Round → M World (Option ℕ)
main uninit argv rounds = do
  args ← run_exec (parse_args uninit argv)
  error ← run_exec get_error
  if is_set error
      then (do write program_usage; ret (some (to_code error)))
      else if args.help
      then (do write program_help; ret (some 0))
      else do
        ended ← client_run args rounds
        if ended then (do last ← run_exec get_error; ret (some (to_code last))) else ret none

-- With memory enough and no error before, the command line gives every option once, with numerals
-- within the limits; if the host is resolved but a later call fails that opens the session in this
-- mode, the program ends with an exit code that is not 0, has sent nothing, and leaves as many blocks
-- of memory as it found.
pub main_refused :
    (uninit : Args) (name host port timeout retries : List ℕ) (mode : Mode) (rounds : List Round)
    (w : World)
    → is_numeral port ≡ true
    → is_numeral timeout ≡ true
    → is_numeral retries ≡ true
    → value port < 2 ^ 16
    → value timeout < 2 ^ 16
    → value retries < 2 ^ 8
    → w.error ≡ no_error
    → w.denials ≡ []
    → connected w.network ≡ true
    → all_good mode w.network ≡ false
    → (code : ℕ) × (w' : World) × (main uninit
          (command_line name host mode port timeout retries)
          rounds
          w
        ≡ some (some code, w'))
      × (0 < code)
      × (w'.outbox ≡ w.outbox)
      × (w'.blocks ≡ w.blocks)
unfolding main
main_refused uninit name host port timeout retries mode rounds w dp dt dr p t r clear memory known
      bad =
    let args : Args = record {
      mode = mode;
      host = host;
      port = value port;
      udp_timeout = value timeout;
      udp_retransmissions = value retries;
      help = false;
    } in
    let (w', ran, set, out, freed) = client_run_refused args rounds w clear memory known bad in
    (
      to_code w'.error,
      w',
      ground (
        arith,
        parse_args-command_line uninit name host port timeout retries mode dp dt dr p t r,
        clear,
        ran,
      ),
      to_code_pos w'.error set,
      out,
      freed,
    )

-- The command line gives every option once, with numerals within the limits. With memory enough,
-- no error before, a session that opens, a block of bytes for the bit field, and globals in their
-- bounds, the program does not fault whatever bytes the server sends, and whenever the input ends
-- or the poll times out, fails or is interrupted, as long as every line that the user types is
-- empty, or has no NUL, is shorter than the buffer and has something between its blanks, and the
-- buffer holds what follows the last newline. It comes to the end of the rounds, or ends before
-- with an exit code and has freed every block that it got. The globals are in their bounds again,
-- no packet sent is longer than a buffer, and the state has moved along the diagram.
pub main_safe :
    (uninit : Args) (name host port timeout retries : List ℕ) (mode : Mode) (rounds : List Round)
    (w : World)
    → is_numeral port ≡ true
    → is_numeral timeout ≡ true
    → is_numeral retries ≡ true
    → value port < 2 ^ 16
    → value timeout < 2 ^ 16
    → value retries < 2 ^ 8
    → w.error ≡ no_error
    → w.denials ≡ []
    → all_good mode w.network ≡ true
    → IsSound (record w { received_id = w.old_block })
    → Fits w.current.payload
    → length w.display_name ≤ display_name_len
    → w.uninit.id < 2 ^ 16
    → IsTyped w.stdin
    → All (λ r. BringsBytes r.answer) rounds
    → (code : Option ℕ) × (w' : World) × (main uninit
          (command_line name host mode port timeout retries)
          rounds
          w
        ≡ some (code, w'))
      × (code ≢ none → w'.blocks ≡ w.blocks)
      × (w.state ⟶* w'.state)
      × IsSound w'
unfolding main
main_safe uninit name host port timeout retries mode rounds w dp dt dr p t r clear memory good sound
      fits own stray typed bytes =
    let args : Args = record {
      mode = mode;
      host = host;
      port = value port;
      udp_timeout = value timeout;
      udp_retransmissions = value retries;
      help = false;
    } in
    let (left, w', ran, freed, path, sound') =
      client_run_safe args rounds w clear memory good sound fits own stray typed bytes in
    let parsed =
      parse_args-command_line uninit name host port timeout retries mode dp dt dr p t r in
    elim (Bool-cases left) [
      | inl over ↦ (
        some (to_code w'.error),
        w',
        ground (arith, parsed, clear, ran, over),
        λ q. freed over,
        path,
        sound',
      )
      | inr waits ↦
          (none, w', ground (arith, parsed, clear, ran, waits), λ q. absurd (q refl), path, sound')
    ]
