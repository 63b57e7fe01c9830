-- ===== src/Tests/Opening.antt =====
-- The event loop, and the way into a session.
use ipk2024_projekt.Base.{
  List, [], arith, codes, false, refl, replicate, some, true, ℕ, ◌<◌, ◌∷◌, ◌≡◌,
}
use ipk2024_projekt.Error.{is_set}
use ipk2024_projekt.BitField.{bit_field_contains, bit_field_size}
use ipk2024_projekt.Frame.{Frame, confirming, leaving, saying}
use ipk2024_projekt.World.{World, end_state, open_state, success, udp}
use ipk2024_projekt.Udp.Wire.{datagram}
use ipk2024_projekt.Args.Full.{command_line}
use ipk2024_projekt.Connection.{packet}
use ipk2024_projekt.Connection.Send.{IsClear, sent}
use ipk2024_projekt.Client.{client_handle_socket}
use ipk2024_projekt.Client.Init.{client_init}
use ipk2024_projekt.Client.Loop.{Round, event_loop, interrupted, loop_body}
use ipk2024_projekt.Client.Login.{CanLogIn, login, login_opens}
use ipk2024_projekt.Client.Invariant.Loop.{IsSound}
use ipk2024_projekt.Client.Trace.Loop.{LoopAlong, event_loop_diagram}
use ipk2024_projekt.Client.Residue.{uncleared_drops}
use ipk2024_projekt.Client.Signal.{interrupted_two_byes}
use ipk2024_projekt.Client.Start.{client_init_error}
use ipk2024_projekt.Main.{main, main_refused}
use ipk2024_projekt.Tests.Sample.{
  answering, at_login, bob, bob-IsDisplayName, empty_field, empty_field-IsBitField, hello,
  hello-IsMessageContent, login_request-IsRequest, nameless, server, session, unpolled,
}

at_login-CanLogIn :
    CanLogIn answering 1 0 (codes "xuser00") (codes "secret") bob (codes "hi") at_login
at_login-CanLogIn = record {
  server = record { in_udp = refl; same_host = refl };
  no_fails = refl;
  at_start = refl;
  small_id = omega arith;
  field = empty_field-IsBitField;
  request = login_request-IsRequest;
  fits = omega arith;
  typed = record { clear = refl; open_stdin = refl; typed_line = refl; trie = refl };
}

abbrev login_rounds : List Round
login_rounds = login answering 2000 2010 2020 2 0 2 hello

not_contained : bit_field_contains empty_field 0 ≡ some false
unfolding bit_field_contains replicate
not_contained = refl

login_opens_example :
    (w' : World) × (event_loop login_rounds at_login ≡ some (false, w'))
    × (w'.state ≡ open_state)
    × (w'.display_name ≡ bob)
    × (w'.current.confirmed ≡ true)
    × (w'.outbox
        ≡ (answering, datagram 0 confirming)
          ∷ (server, datagram 2 (Frame.authenticating (codes "xuser00") bob (codes "secret")))
          ∷ [])
    × (w'.written ≡ success hello ∷ [])
login_opens_example =
    login_opens answering 1 0 (codes "xuser00") (codes "secret") bob (codes "hi") at_login 2000 2010
      2020 0 2 hello at_login-CanLogIn (omega arith) (omega arith) hello-IsMessageContent
      not_contained

at_login-IsSound : IsSound at_login
at_login-IsSound = record {
  field = empty_field-IsBitField;
  next_id = omega arith;
  last_id = omega arith;
  packets = tt;
}

-- The world behind the login.
after_login : (w' : World) × (event_loop login_rounds at_login ≡ some (false, w'))
after_login =
    let (w', ran, at_open, named, confirmed, sent, shown) =
      login_opens answering 1 0 (codes "xuser00") (codes "secret") bob (codes "hi") at_login 2000
        2010 2020 0 2 hello at_login-CanLogIn (omega arith) (omega arith) hello-IsMessageContent
        not_contained in
    (w', ran)

event_loop_diagram_example : LoopAlong login_rounds at_login after_login.0
event_loop_diagram_example =
    event_loop_diagram login_rounds at_login after_login.0 false at_login-IsSound after_login.1

session-IsClear : IsClear session
session-IsClear = record { no_fails = refl; clear = refl }

interrupted_two_byes_example :
    (w' : World) × (loop_body interrupted session ≡ some (false, w'))
    × (w'.state ≡ end_state)
    × (w'.current.confirmed ≡ false)
    × (w'.outbox ≡ (server, datagram 3 leaving) ∷ (server, datagram 2 leaving) ∷ [])
interrupted_two_byes_example = interrupted_two_byes session refl session-IsClear refl

client_init_error_example :
    (w' : World) × (client_init session.args nameless ≡ some (tt, w'))
    × (is_set w'.error ≡ true)
    × (w'.outbox ≡ [])
    × (w'.state ≡ open_state)
client_init_error_example = client_init_error session.args nameless refl refl

main_refused_example :
    (code : ℕ) × (w' : World) × (main session.args
        (command_line
          (codes "ipk24chat-client")
          (codes "localhost")
          udp
          (codes "4567")
          (codes "250")
          (codes "3"))
        login_rounds
        unpolled
      ≡ some (some code, w'))
    × (0 < code)
    × (w'.outbox ≡ [])
    × (w'.blocks ≡ 0)
main_refused_example =
    main_refused session.args (codes "ipk24chat-client") (codes "localhost") (codes "4567")
      (codes "250") (codes "3") udp login_rounds unpolled refl refl refl (omega arith) (omega arith)
      (omega arith) refl refl refl refl

-- A block of memory with a one in every bit.
abbrev full_block : List ℕ
full_block = replicate bit_field_size 255

abbrev unclean : World
unclean = record session { old_block = full_block }

full_contains : bit_field_contains full_block 5 ≡ some true
unfolding bit_field_contains replicate
full_contains = refl

uncleared_drops_example :
    (w₁ : World) × (w₂ : World) × (client_init session.args unclean ≡ some (tt, w₁))
    × (client_handle_socket (packet answering (datagram 5 (saying bob hello))) w₁ ≡ some (tt, w₂))
    × (w₂.outbox ≡ (answering, datagram 5 confirming) ∷ [])
    × (w₂.written ≡ [])
    × (w₂.state ≡ open_state)
uncleared_drops_example =
    uncleared_drops answering server session.args 5 (saying bob hello) unclean
      (record { clear = refl; memory = refl; in_udp = refl; resolved = refl; good = refl }) refl
      refl (omega arith) (bob-IsDisplayName, hello-IsMessageContent) refl full_contains
