-- ===== src/Tests/Closing.antt =====
-- Sessions that end, with whatever comes in before.
use ipk2024_projekt.Base.{
  All, Bool, List, Option, [], arith, codes, inl, inr, none, refl, replicate, some, true, ℕ, ◌∷◌,
  ◌≡◌, ◌≢◌,
}
use ipk2024_projekt.Frame.{saying}
use ipk2024_projekt.World.{World, open_state, tcp}
use ipk2024_projekt.Args.Full.{command_line}
use ipk2024_projekt.Client.Diagram.{◌⟶*◌}
use ipk2024_projekt.Main.{main, main_safe}
use ipk2024_projekt.Udp.Wire.{datagram}
use ipk2024_projekt.Connection.{packet}
use ipk2024_projekt.Commands.Trimmed.{padded}
use ipk2024_projekt.Client.Lines.{IsTyped, joined}
use ipk2024_projekt.Client.Loop.{
  Round, client_run, event_loop, poll_failed, socket_event, stdin_event, timed_out,
}
use ipk2024_projekt.Client.Login.{one_event}
use ipk2024_projekt.Client.Invariant.Loop.{IsSound}
use ipk2024_projekt.Client.Unstored.{client_run_faults}
use ipk2024_projekt.Client.Close.{client_run_no_leak, client_run_refused}
use ipk2024_projekt.Client.Safe.{IsFit}
use ipk2024_projekt.Client.Safe.Loop.{BringsBytes, event_loop_safe}
use ipk2024_projekt.Tests.Sample.{
  answering, bob, empty_field-IsBitField, hello, nameless, session, unpolled,
}

-- A MSG, a malformed packet, two lines typed, a timeout, another line, a failing poll.
abbrev noise : List Round
noise =
    one_event 1600 (socket_event (packet answering (datagram 5 (saying bob hello))))
    ∷ one_event 1700 (socket_event (packet answering (9 ∷ 200 ∷ [])))
    ∷ one_event 1720 stdin_event
    ∷ one_event 1740 stdin_event
    ∷ record { time = 1800; answer = timed_out }
    ∷ one_event 1850 stdin_event
    ∷ record { time = 1900; answer = poll_failed }
    ∷ []

noise-BringsBytes : All (λ (r : Round). BringsBytes r.answer) noise
noise-BringsBytes = ground arith

-- A message with blanks around it, an empty line, a command that there is not, and the end.
abbrev core_lines : List (List ℕ)
core_lines = padded 1 2 (codes "hello") ∷ [] ∷ padded 0 1 (codes "/jump x") ∷ []

abbrev typing : World
typing = record session { stdin = joined core_lines (codes "end") }

core_lines-IsTyped : IsTyped typing.stdin
unfolding replicate
core_lines-IsTyped = record {
  lines = core_lines;
  last = codes "end";
  parts = refl;
  typable = (
    inr (record {
      before = 1;
      behind = 2;
      core = codes "hello";
      parts = refl;
      trimmed = record { no_nul = ground arith; first = refl; last = refl };
      one_line = ground arith;
      fits = omega arith;
    }),
    (
      inl refl,
      (
        inr (record {
          before = 0;
          behind = 1;
          core = codes "/jump x";
          parts = refl;
          trimmed = record { no_nul = ground arith; first = refl; last = refl };
          one_line = ground arith;
          fits = omega arith;
        }),
        tt,
      ),
    ),
  );
  last_line = ground arith;
  last_fits = omega arith;
}

typing-IsFit : IsFit typing
typing-IsFit = record {
  commands = refl;
  typed = core_lines-IsTyped;
  field = empty_field-IsBitField;
  payload = (omega arith, omega arith);
  name = omega arith;
  stray_id = omega arith;
  trie = λ e. cc;
}

event_loop_safe_example :
    (left : Bool) × (w' : World) × (event_loop noise typing ≡ some (left, w')) × IsFit w'
event_loop_safe_example = event_loop_safe noise typing typing-IsFit noise-BringsBytes

typing-IsSound : IsSound typing
typing-IsSound = record {
  field = empty_field-IsBitField;
  next_id = omega arith;
  last_id = omega arith;
  packets = tt;
}

main_safe_example :
    (code : Option ℕ) × (w' : World) × (main session.args
        (command_line
          (codes "ipk24chat-client")
          (codes "localhost")
          tcp
          (codes "4567")
          (codes "250")
          (codes "3"))
        noise
        typing
      ≡ some (code, w'))
    × (code ≢ none → w'.blocks ≡ 0)
    × (open_state ⟶* w'.state)
    × IsSound w'
main_safe_example =
    main_safe session.args (codes "ipk24chat-client") (codes "localhost") (codes "4567")
      (codes "250") (codes "3") tcp noise typing refl refl refl (omega arith) (omega arith)
      (omega arith) refl refl refl typing-IsSound (omega arith, omega arith) (omega arith)
      (omega arith) core_lines-IsTyped noise-BringsBytes

-- A session that was refused before its loop began.
refused_run : (w' : World) × (client_run session.args noise unpolled ≡ some (true, w'))
refused_run =
    let (w', ran, set, out, freed) =
      client_run_refused session.args noise unpolled refl refl refl refl in
    (w', ran)

unpolled-IsSound : IsSound unpolled
unpolled-IsSound = record {
  field = empty_field-IsBitField;
  next_id = omega arith;
  last_id = omega arith;
  packets = tt;
}

client_run_no_leak_example : refused_run.0.blocks ≡ 0
client_run_no_leak_example =
    client_run_no_leak session.args noise unpolled refused_run.0 refl refl refl unpolled-IsSound
      refused_run.1

client_run_faults_example : client_run session.args noise nameless ≡ none
client_run_faults_example = client_run_faults session.args noise nameless refl (inr (refl, refl))
