-- ===== src/Client/Login.antt =====
-- A session from `/auth` to the state Open.
use ipk2024_projekt.Base.{
  ==_self, List, [], ap, arith, false, length, refl, some, true, ℕ, ◌+◌, ◌<◌, ◌^◌, ◌∙◌, ◌∷◌, ◌≡◌,
}
use ipk2024_projekt.Bytes.{bytes_size}
use ipk2024_projekt.BitField.{IsBitField, bit_field_contains, bit_field_insert}
use ipk2024_projekt.BitField.Insert.{bit_field_insert_lem}
use ipk2024_projekt.Frame.{Frame, IsMessageContent, confirming, replying}
use ipk2024_projekt.World.{
  Address, State, World, is_error, is_start, open_state, start, success, udp,
}
use ipk2024_projekt.Udp.Wire.{datagram}
use ipk2024_projekt.Commands.Request.{IsRequest, authenticate, command_of, text_of}
use ipk2024_projekt.Commands.Trimmed.{padded}
use ipk2024_projekt.Connection.{packet}
use ipk2024_projekt.Connection.Send.{IsClear}
use ipk2024_projekt.Client.{handle_payload, handle_reply}
use ipk2024_projekt.Client.Handler.{client_handle_command, handle_auth}
use ipk2024_projekt.Client.Loop.{
  Event, Round, event_loop, handle_event, handle_events, is_done, leave_error, loop_body, polled,
  socket_event, stdin_event,
}
use ipk2024_projekt.Client.Send.{awaiting, client_send-udp}
use ipk2024_projekt.Client.Receive.{FromServer, answered, confirm_received}
use ipk2024_projekt.Client.Once.{confirmed_to, fresh_handled}
use ipk2024_projekt.Client.Typed.{HasTyped, client_handle_input-text_of}

-- AUTH went out with the name that the user gave.
abbrev pub trying : List ℕ → List ℕ → List ℕ → World → World
trying u s d w = record (awaiting (Frame.authenticating u d s) (record w { display_name = d })) {
  state = State.authenticating;
}

-- A round in which one event comes.
abbrev pub one_event : ℕ → Event → Round
one_event t e = record { time = t; answer = polled (e ∷ []) }

module _ (e : Event) (w w' : World) (done : handle_event e w ≡ some (tt, w')) where
  -- Outside the Error state nothing follows the event.
  one_event_body : is_error w'.state ≡ false → loop_body (polled (e ∷ [])) w ≡ some (false, w')
  unfolding loop_body handle_events leave_error
  one_event_body h = ground (arith, done)

handle_auth-udp :
    (u s d : List ℕ) (w : World)
    → w.args.mode ≡ udp
    → IsClear w
    → IsRequest (authenticate u s d)
    → is_start w.state ≡ true
    → handle_auth (command_of (authenticate u s d)).auth w ≡ some (tt, trying u s d w)
unfolding handle_auth
handle_auth-udp u s d w m c (vu, vs, vd) at_start = ground (
  arith,
  client_send-udp (Frame.authenticating u d s) (record w { display_name = d }) m
      (record { no_fails = c.no_fails; clear = c.clear }) (vu, vd, vs),
)

-- The rounds of a login: the user's line, the CONFIRM of AUTH, and the reply.
abbrev pub login : Address → ℕ → ℕ → ℕ → ℕ → ℕ → ℕ → List ℕ → List Round
login sender t₁ t₂ t₃ id reply_id ref c =
    one_event t₁ stdin_event
    ∷ one_event t₂ (socket_event (packet sender (datagram id confirming)))
    ∷ one_event t₃ (socket_event (packet sender (datagram reply_id (replying true ref c))))
    ∷ []

-- The client stands at the start in UDP mode, no error is set, and the socket takes what it sends;
-- the user typed `/auth` with valid arguments, with `i` and `j` blanks around it.
pub record CanLogIn (sender : Address) (i j : ℕ) (u s d rest : List ℕ) (w : World) : Type 0 where
  pub server : FromServer sender w
  pub no_fails : w.send_fails ≡ []
  pub at_start : w.state ≡ start
  pub small_id : w.next_message_id < 2 ^ 16
  pub field : IsBitField w.received_id
  pub request : IsRequest (authenticate u s d)
  pub fits : i + (length (text_of (authenticate u s d)) + j) < bytes_size
  pub typed : HasTyped (padded i j (text_of (authenticate u s d))) rest w

-- A round that does not end the loop.
event_step :
    (r : Round) (rounds : List Round) (w v : World)
    → is_done w ≡ false
    → loop_body r.answer (record w { now = r.time }) ≡ some (false, v)
    → event_loop (r ∷ rounds) w ≡ event_loop rounds v
unfolding event_loop
event_step r rounds w v going e = ground arith

-- A round with one event.
event_round :
    (t : ℕ) (e : Event) (rounds : List Round) (w v : World)
    → is_done w ≡ false
    → is_error v.state ≡ false
    → handle_event e (record w { now = t }) ≡ some (tt, v)
    → event_loop (one_event t e ∷ rounds) w ≡ event_loop rounds v
event_round t e rounds w v going fine done =
    event_step (one_event t e) rounds w v going
      (one_event_body e (record w { now = t }) v done fine)

module _ (sender : Address) (i j : ℕ) (u s d rest : List ℕ) (w : World)
    (ok : CanLogIn sender i j u s d rest w) (t₁ t₂ t₃ : ℕ) where
  -- After the user's line.
  abbrev asked : World
  asked = trying u s d (record w { stdin = rest; now = t₁ })

  typed_auth : handle_event stdin_event (record w { now = t₁ }) ≡ some (tt, asked)
  unfolding handle_event client_handle_command
  typed_auth =
      client_handle_input-text_of i j (authenticate u s d) rest (record w { now = t₁ }) ok.request
        ok.fits
        (record {
          clear = ok.typed.clear;
          open_stdin = ok.typed.open_stdin;
          typed_line = ok.typed.typed_line;
          trie = ok.typed.trie;
        })
      ∙ handle_auth-udp u s d (record w { stdin = rest; now = t₁ }) ok.server.in_udp
          (record { no_fails = ok.no_fails; clear = ok.typed.clear }) ok.request
          (ap is_start ok.at_start)

  -- After the CONFIRM.
  abbrev heard : World
  heard = record (answered sender (record (asked) { now = t₂ })) {
    current = record (asked.current) { confirmed = true; retry_count = 0 };
  }

  confirmed_auth :
      handle_event
        (socket_event (packet sender (datagram w.next_message_id confirming)))
        (record (asked) { now = t₂ })
      ≡ some (tt, heard)
  unfolding handle_event
  confirmed_auth =
      confirm_received sender w.next_message_id (record (asked) { now = t₂ })
        (record { in_udp = ok.server.in_udp; same_host = ok.server.same_host }) ok.typed.clear
        ok.small_id
      ∙ rw (==_self w.next_message_id) refl

  module _ (reply_id ref : ℕ) (c field' : List ℕ) (small : reply_id < 2 ^ 16)
      (small_ref : ref < 2 ^ 16) (content : IsMessageContent c)
      (new : bit_field_contains w.received_id reply_id ≡ some false)
      (inserted : bit_field_insert w.received_id reply_id ≡ some field') where
    -- After the reply.
    abbrev logged_in : World
    logged_in = record (confirmed_to sender reply_id (record (heard) { now = t₃ })) {
      received_id = field';
      state = open_state;
      written = success c ∷ w.written;
    }

    replied :
        handle_event
          (socket_event (packet sender (datagram reply_id (replying true ref c))))
          (record (heard) { now = t₃ })
        ≡ some (tt, logged_in)
    unfolding handle_event handle_payload handle_reply
    replied =
        fresh_handled sender reply_id (replying true ref c) (record (heard) { now = t₃ })
          (record {
            server = record { in_udp = ok.server.in_udp; same_host = ok.server.same_host };
            clear = ok.typed.clear;
            no_fails = ok.no_fails;
            confirmed = refl;
          })
          small (small_ref, content) refl field' new inserted

    confirm_round : Round
    confirm_round =
        one_event t₂ (socket_event (packet sender (datagram w.next_message_id confirming)))

    reply_round : Round
    reply_round =
        one_event t₃ (socket_event (packet sender (datagram reply_id (replying true ref c))))

    logs_in :
        event_loop (login sender t₁ t₂ t₃ w.next_message_id reply_id ref c) w
        ≡ some (false, logged_in)
    unfolding event_loop confirm_round reply_round
    logs_in =
        event_round t₁ stdin_event (confirm_round ∷ reply_round ∷ []) w asked
          (ground (arith, ok.at_start)) refl typed_auth
        ∙ event_round t₂ _ (reply_round ∷ []) asked heard refl refl confirmed_auth
        ∙ event_round t₃ _ [] heard logged_in refl refl replied

-- From the start in UDP mode, with no error and a socket that takes what is sent, if the user
-- types `/auth` with valid arguments, the server confirms the message and then accepts it, by a
-- valid REPLY under a number that is new, the client comes to the Open state: it has sent AUTH and
-- the CONFIRM of the reply and nothing else, has taken the name that the user gave, has written
-- the reply, and waits for no confirmation.
pub login_opens :
    (sender : Address) (i j : ℕ) (u s d rest : List ℕ) (w : World) (t₁ t₂ t₃ reply_id ref : ℕ)
    (c : List ℕ)
    → CanLogIn sender i j u s d rest w
    → reply_id < 2 ^ 16
    → ref < 2 ^ 16
    → IsMessageContent c
    → bit_field_contains w.received_id reply_id ≡ some false
    → (w' : World) × (event_loop (login sender t₁ t₂ t₃ w.next_message_id reply_id ref c) w
        ≡ some (false, w'))
      × (w'.state ≡ open_state)
      × (w'.display_name ≡ d)
      × (w'.current.confirmed ≡ true)
      × (w'.outbox
          ≡ (record (w.address) { sin_port = sender.sin_port }, datagram reply_id confirming)
            ∷ (w.address, datagram w.next_message_id (Frame.authenticating u d s))
            ∷ w.outbox)
      × (w'.written ≡ success c ∷ w.written)
login_opens sender i j u s d rest w t₁ t₂ t₃ reply_id ref c ok small small_ref content new =
    let (field', inserted, made, after) =
      bit_field_insert_lem w.received_id reply_id ok.field small in
    (
      logged_in sender i j u s d rest w ok t₁ t₂ t₃ reply_id ref c field' small small_ref content
          new inserted,
      logs_in sender i j u s d rest w ok t₁ t₂ t₃ reply_id ref c field' small small_ref content new
          inserted,
      refl,
      refl,
      refl,
      refl,
      refl,
    )
