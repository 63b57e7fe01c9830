-- ===== src/Client/Safe.antt =====
-- The client's globals where its code returns, and the code that sends.
pub mod Receive
pub mod Line
pub mod Input
pub mod Loop
use ipk2024_projekt.Base.{
  Any, Bool, List, Option, Returns, Returns-bind, Returns-from, Returns-if, Returns-ret,
  Returns-then, [], arith, false, if◌then◌else◌, length, length-append, ltb, none, not, refl,
  replicate, ret, some, subst, sym, true, ℕ, ◌%◌, ◌+◌, ◌-◌, ◌<◌, ◌>>=◌, ◌>>◌, ◌^◌, ◌∷◌, ◌≡◌, ◌≤◌,
}
use ipk2024_projekt.Error.{
  Error, Exec, connection, error_clear, get_error, is_set, no_error, set_error,
}
use ipk2024_projekt.Bytes.{Bytes, bytes_size, transmitted}
use ipk2024_projekt.Bytes.Room.{HasRoom, Returns-get_error, Returns-set_error}
use ipk2024_projekt.BitField.{IsBitField}
use ipk2024_projekt.Payload.{
  Payload, PayloadData, PayloadType, bye, display_name_len, err, is_confirm, payload_new, zero_data,
}
use ipk2024_projekt.Payload.Fits.{Fits, FitsIn}
use ipk2024_projekt.Trie.{Trie}
use ipk2024_projekt.Commands.Setup.{command_trie}
use ipk2024_projekt.Client.Lines.{IsTyped}
use ipk2024_projekt.World.{
  Mode, State, World, end_state, error_state, gets, is_udp, modify, run_exec, set_state,
}
use ipk2024_projekt.World.Total.{Returns-gets, Returns-modify, Returns-run_exec}
use ipk2024_projekt.Udp.{udp_serialize}
use ipk2024_projekt.Udp.Fits.{udp_serialize-HasRoom}
use ipk2024_projekt.Tcp.{tcp_serialize}
use ipk2024_projekt.Tcp.Fits.{tcp_serialize-HasRoom}
use ipk2024_projekt.Tcp.Prefix.{tcp_trie}
use ipk2024_projekt.Connection.{connection_send, tcp_send, transmit, udp_send}
use ipk2024_projekt.Client.{client_send, err_data, send_malformed, send_new}
use ipk2024_projekt.Client.Invariant.{failed_text}
use ipk2024_projekt.Client.Stale.{malformed_text}

-- The set of received numbers is a bit field, the last payload and the display name are within the
-- limits of the fields, a new number fits 16 bits, as what a local variable holds for one does, the
-- tries are those that `command_setup` and, in TCP mode, `tcp_setup` make, and every line to come on
-- stdin is empty, or has no NUL, is shorter than the buffer and has something between its blanks.
pub record IsFit (w : World) : Type 0 where
  pub field : IsBitField w.received_id
  pub payload : Fits w.current.payload
  pub name : length w.display_name ≤ display_name_len
  pub stray_id : w.uninit.id < 2 ^ 16
  pub trie : is_udp w.args.mode ≡ false → w.tcp_trie ≡ tcp_trie
  pub commands : w.command_trie ≡ command_trie
  pub typed : IsTyped w.stdin

-- The globals that these conditions are about.
abbrev seen : World → List ℕ × Payload × List ℕ × ℕ × Mode × Trie × Trie × List ℕ
seen w = (
  w.received_id, w.current.payload, w.display_name, w.uninit.id, w.args.mode, w.tcp_trie,
  w.command_trie, w.stdin,
)

pub IsFit-seen : (v w : World) → seen v ≡ seen w → IsFit w → IsFit v
IsFit-seen v w e h = record {
  field = subst (λ s. IsBitField s.0) (sym e) h.field;
  payload = subst (λ s. Fits s.1) (sym e) h.payload;
  name = subst (λ s. length s.2 ≤ display_name_len) (sym e) h.name;
  stray_id = subst (λ s. s.3 < 2 ^ 16) (sym e) h.stray_id;
  trie = subst (λ s. is_udp s.4 ≡ false → s.5 ≡ tcp_trie) (sym e) h.trie;
  commands = subst (λ s. s.6 ≡ command_trie) (sym e) h.commands;
  typed = subst (λ s. IsTyped s.7) (sym e) h.typed;
}

-- A change that the conditions do not speak of.
pub Returns-unseen :
    (f : World → World) → ((w : World) → seen (f w) ≡ seen w) → Returns IsFit Any (modify f)
Returns-unseen f same = Returns-modify f (λ w h. IsFit-seen (f w) w (same w) h)

pub exec-Returns :
    {A : Type 0} {Q : A → Type 0} (m : Exec A) → Returns Any Q m → Returns IsFit Q (run_exec m)
exec-Returns m r = Returns-run_exec m (λ w e h. IsFit-seen (record w { error = e }) w refl h) r

pub get_error-Returns : Returns IsFit Any (run_exec get_error)
get_error-Returns = exec-Returns get_error Returns-get_error

pub set_error-Returns : (e : Error) → Returns IsFit Any (run_exec (set_error e))
set_error-Returns e = exec-Returns (set_error e) (Returns-set_error e)

pub error_clear-Returns : Returns IsFit Any (run_exec error_clear)
error_clear-Returns = exec-Returns error_clear (record { at = λ e h. (tt, no_error, refl, tt, tt) })

pub set_state-Returns : (s : State) → Returns IsFit Any (set_state s)
set_state-Returns s = Returns-unseen _ (λ w. refl)

transmit-Returns : (b : Bytes) → HasRoom 0 b → Returns IsFit Any (transmit b)
unfolding transmit
transmit-Returns b room = record { at = λ w h. go w h w.send_fails refl }
  where
    sent : World → World
    sent w = record w { outbox = (w.address, transmitted b) ∷ w.outbox }

    inside : ltb (length b.cells) b.len ≡ false
    inside =
        subst (λ c. ltb (length c.cells) c.len ≡ false) (sym room.pushed)
          (ground
            (arith, length-append room.written (replicate (bytes_size - length room.written) 0)))

    go :
        (w : World)
        → IsFit w
        → (fails : List Bool) → w.send_fails ≡ fails
        → (a : Bool) × (t : World) × (transmit b w ≡ some (a, t)) × IsFit t × Any a
    go w h [] e = (true, sent w, ground (arith, e, inside), IsFit-seen (sent w) w refl h, tt)
    go w h (f ∷ rest) e = (
      not f,
      record (sent w) { send_fails = rest },
      ground (arith, e, inside),
      IsFit-seen (record (sent w) { send_fails = rest }) w refl h,
      tt,
    )

-- What a function does that sends bytes and notes a failure.
send_bytes :
    (b : Bytes)
    → HasRoom 0 b
    → Returns IsFit Any
        (transmit b >>= λ done. if not done then run_exec (set_error connection) else ret tt)
send_bytes b room =
    Returns-from (transmit b) _ (transmit-Returns b room)
      λ done. Returns-if (not done) _ _ (λ e. set_error-Returns connection) (λ e. Returns-ret tt tt)

-- A payload within the limits is sent.
pub connection_send-Returns : (p : Payload) → Fits p → Returns IsFit Any (connection_send p)
unfolding connection_send udp_send tcp_send
connection_send-Returns p fits =
    Returns-gets (λ w. w.args.mode) _
      λ mode w h q.
        Returns-if (is_udp mode) _ _
          (λ e.
            Returns-bind (run_exec (udp_serialize p)) _
              (exec-Returns (udp_serialize p) (udp_serialize-HasRoom p fits))
              (λ b r. send_bytes b r))
          λ e.
            Returns-if (is_confirm p.type) _ _ (λ c. Returns-ret tt tt)
              λ c.
                Returns-bind (run_exec (tcp_serialize p)) _
                  (exec-Returns (tcp_serialize p) (tcp_serialize-HasRoom p fits))
                  λ b r. Returns-from (run_exec get_error) _ get_error-Returns λ error.
                    Returns-if (is_set error) _ _ (λ s. Returns-ret tt tt) (λ s. send_bytes b r)

-- Whatever the union holds where no data is given.
FitsNew : PayloadType → Option PayloadData → Type 0
FitsNew type none = (d : PayloadData) → FitsIn type d
FitsNew type (some d) = FitsIn type d

send_new-Returns :
    (type : PayloadType) (d : Option PayloadData)
    → FitsNew type d
    → Returns IsFit Any (send_new type d)
unfolding send_new payload_new FitsNew
send_new-Returns type none fits = record {
  at = λ w h.
      (connection_send-Returns
          (record { type = type; body = w.uninit.body; id = w.next_message_id })
          (fits w.uninit.body)).at
        (record w {
          next_message_id = (w.next_message_id + 1) % 2 ^ 16;
          current = record (w.current) {
            payload = record { type = type; body = w.uninit.body; id = w.next_message_id };
          };
        })
        (record {
          field = h.field;
          payload = fits w.uninit.body;
          name = h.name;
          stray_id = h.stray_id;
          trie = h.trie;
          commands = h.commands;
          typed = h.typed;
        });
}
send_new-Returns type (some d) fits = record {
  at = λ w h.
      (connection_send-Returns (record { type = type; body = d; id = w.next_message_id }) fits).at
        (record w {
          next_message_id = (w.next_message_id + 1) % 2 ^ 16;
          current = record (w.current) {
            payload = record { type = type; body = d; id = w.next_message_id };
          };
        })
        (record {
          field = h.field;
          payload = fits;
          name = h.name;
          stray_id = h.stray_id;
          trie = h.trie;
          commands = h.commands;
          typed = h.typed;
        });
}

-- The ERR that is sent when a payload could not be.
apology-Returns : Returns IsFit Any (
    run_exec error_clear
    >> (gets (λ w. w.uninit) >>= λ uninit. gets (λ w. w.display_name) >>= λ name.
        send_new err (some (err_data uninit.body name failed_text)) >> set_state error_state))
unfolding FitsNew
apology-Returns = Returns-then (run_exec error_clear) _ error_clear-Returns (
    Returns-gets (λ w. w.uninit) _
      λ uninit w h q.
        Returns-gets (λ w. w.display_name) _
          λ name v k r.
            Returns-then (send_new err (some (err_data uninit.body name failed_text)))
              (set_state error_state)
              (send_new-Returns err (some (err_data uninit.body name failed_text))
                (subst (λ s. length s ≤ display_name_len) (sym r) k.name, omega arith))
              (set_state-Returns error_state))

client_send-new :
    (type : PayloadType) (d : Option PayloadData)
    → FitsNew type d
    → Returns IsFit Any (client_send type d)
unfolding client_send
client_send-new type d fits = Returns-then (send_new type d) _ (send_new-Returns type d fits) (
    Returns-from (run_exec get_error) _ get_error-Returns λ error.
      Returns-then _ _
        (Returns-if (is_set error) _ _ (λ e. apology-Returns) (λ e. Returns-ret tt tt))
        (Returns-from (run_exec get_error) _ get_error-Returns λ again.
          Returns-if (is_set again) _ _ (λ e. set_state-Returns end_state)
            (λ e. Returns-unseen unconfirm (λ w. refl))))
  where
    unconfirm : World → World
    unconfirm w = record w {
      current = record (w.current) { confirmed = not (is_udp w.args.mode); timestamp = w.now };
    }

-- A BYE is sent whatever the union holds.
pub client_send_bye-Returns : Returns IsFit Any (client_send bye none)
unfolding FitsNew
client_send_bye-Returns = client_send-new bye none (λ d. tt)

pub client_send-Returns :
    (type : PayloadType) (d : PayloadData)
    → FitsIn type d
    → Returns IsFit Any (client_send type (some d))
unfolding FitsNew
client_send-Returns type d fits = client_send-new type (some d) fits

pub send_malformed-Returns : Returns IsFit Any send_malformed
unfolding send_malformed
send_malformed-Returns =
    Returns-gets (λ w. w.display_name) _
      λ name w h q.
        Returns-then (client_send err (some (err_data zero_data name malformed_text))) _
          (client_send-Returns err (err_data zero_data name malformed_text)
            (subst (λ s. length s ≤ display_name_len) (sym q) h.name, omega arith))
          (set_state-Returns error_state)
