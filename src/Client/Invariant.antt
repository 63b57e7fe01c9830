-- ===== src/Client/Invariant.antt =====
-- What holds of the client's globals as long as it runs, and the code that sends.
pub mod Receive
pub mod Input
pub mod Loop
use ipk2024_projekt.Base.{
  All, Bool, Keeps, Keeps-bind, Keeps-if, Keeps-ret, Keeps-then, List, Option, [], arith, codes,
  false, if◌then◌else◌, length, ltb, none, not, refl, ret, some, subst, sym, true, ℕ, ◌<◌, ◌>>=◌,
  ◌>>◌, ◌^◌, ◌∙◌, ◌∷◌, ◌≡◌, ◌≤◌,
}
use ipk2024_projekt.Error.{Error, connection, error_clear, get_error, is_set, set_error}
use ipk2024_projekt.Bytes.{Bytes, bytes_size, transmitted}
use ipk2024_projekt.Bytes.Size.{HasSize, transmitted-le}
use ipk2024_projekt.BitField.{IsBitField}
use ipk2024_projekt.Payload.{
  Payload, PayloadData, PayloadType, err, is_confirm, payload_new, zero_data,
}
use ipk2024_projekt.World.{
  Mode, State, World, end_state, error_state, gets, is_udp, modify, run_exec, set_state,
}
use ipk2024_projekt.World.Keeps.{Keeps-bind_exec, Keeps-gets, Keeps-modify, Keeps-run_exec}
use ipk2024_projekt.Trie.{Trie}
use ipk2024_projekt.Udp.{udp_serialize}
use ipk2024_projekt.Udp.Size.{udp_serialize-HasSize}
use ipk2024_projekt.Tcp.{tcp_serialize}
use ipk2024_projekt.Tcp.Size.{tcp_serialize-HasSize}
use ipk2024_projekt.Connection.{connection_send, tcp_send, transmit, udp_send}
use ipk2024_projekt.Client.Diagram.{Cause, Way, fail, next, stop}
use ipk2024_projekt.Client.{client_send, err_data, send_malformed, send_new}

-- What the session holds, and the mode, which tells how it is handed back.
abbrev pub Held : Type 0
Held = ℕ × Bool × Bool × Bool × Trie × Trie × Mode

abbrev pub held_by : World → Held
held_by w = (
  w.blocks, w.has_field, w.has_connection, w.has_address, w.command_trie, w.tcp_trie, w.args.mode,
)

-- The state was reached from that of `origin` along the diagram, the set of received numbers is a bit
-- field, the numbers fit 16 bits, no packet was longer than a buffer, and the session holds what it
-- held.
pub record Inv (cause : Cause) (origin : World) (w : World) : Type 0 where
  pub path : Way cause origin.state w.state
  pub field : IsBitField w.received_id
  pub next_id : w.next_message_id < 2 ^ 16
  pub last_id : w.current.payload.id < 2 ^ 16
  pub packets : All (λ p. length p.1 ≤ bytes_size) w.outbox
  pub held : held_by w ≡ held_by origin

abbrev pub failed_text : List ℕ
failed_text = codes "Something went wrong when trying to send payload"

module _ {cause : Cause} {origin : World} where
  pub Inv-blind :
      (w : World) (e : Error) → Inv cause origin w → Inv cause origin (record w { error = e })
  Inv-blind w e h = record {
    path = h.path;
    field = h.field;
    next_id = h.next_id;
    last_id = h.last_id;
    packets = h.packets;
    held = h.held;
  }

  transmit-Inv : (b : Bytes) → HasSize b → Keeps (Inv cause origin) (transmit b)
  unfolding transmit
  transmit-Inv b size = record {
    at = λ w t a h e. go w t a h (ltb (length b.cells) b.len) w.send_fails e;
  }
    where
      sent : (w : World) → World
      sent w = record w { outbox = (w.address, transmitted b) ∷ w.outbox }

      kept :
          (w : World) (fails : List Bool)
          → Inv cause origin w
          → Inv cause origin (record (sent w) { send_fails = fails })
      kept w fails h = record {
        path = h.path;
        field = h.field;
        next_id = h.next_id;
        last_id = h.last_id;
        packets = (transmitted-le b size, h.packets);
        held = h.held;
      }

      go :
          (w t : World) (a : Bool)
          → Inv cause origin w
          → (over : Bool) (fails : List Bool)
          → (if over then none else elim fails as (λ _. Option (Bool × World)) [
            | [] ↦ some (true, sent w)
            | f ∷ rest ↦ some (not f, record (sent w) { send_fails = rest })
          ])
            ≡ some (a, t)
          → Inv cause origin t
      go w t a h true fails e = cc
      go w t a h false [] e =
          subst (Inv cause origin) (let q : sent w ≡ t = ground (arith, e) in q)
            (kept w w.send_fails h)
      go w t a h false (f ∷ rest) e =
          subst (Inv cause origin)
            (let q : record (sent w) { send_fails = rest } ≡ t = ground (arith, e) in q)
            (kept w rest h)

  -- What a function does that sends bytes and notes a failure.
  send_bytes :
      (b : Bytes)
      → HasSize b
      → Keeps
          (Inv cause origin)
          (transmit b >>= λ done. if not done then run_exec (set_error connection) else ret tt)
  send_bytes b size = Keeps-bind (transmit b) _ (transmit-Inv b size) λ done.
      Keeps-if (not done) _ _ (λ e. Keeps-run_exec Inv-blind (set_error connection))
        (λ e. Keeps-ret tt)

  udp_send-Inv : (p : Payload) → Keeps (Inv cause origin) (udp_send p)
  unfolding udp_send
  udp_send-Inv p =
      Keeps-bind_exec Inv-blind (udp_serialize p) _ (udp_serialize-HasSize p) send_bytes

  tcp_send-Inv : (p : Payload) → Keeps (Inv cause origin) (tcp_send p)
  unfolding tcp_send
  tcp_send-Inv p =
      Keeps-if (is_confirm p.type) _ _ (λ e. Keeps-ret tt)
        λ e. Keeps-bind_exec Inv-blind (tcp_serialize p) _ (tcp_serialize-HasSize p) λ b size.
          Keeps-bind (run_exec get_error) _ (Keeps-run_exec Inv-blind get_error)
            λ error. Keeps-if (is_set error) _ _ (λ e. Keeps-ret tt) (λ e. send_bytes b size)

  pub connection_send-Inv : (p : Payload) → Keeps (Inv cause origin) (connection_send p)
  unfolding connection_send
  connection_send-Inv p =
      Keeps-gets (λ w. w.args.mode) _
        λ mode w h m. Keeps-if (is_udp mode) _ _ (λ e. udp_send-Inv p) (λ e. tcp_send-Inv p)

  -- A change of what the invariant does not speak of.
  pub Keeps-unseen :
      (f : World → World)
      → ((w : World)
          → ((f w).state ≡ w.state)
            × ((f w).received_id ≡ w.received_id)
            × ((f w).next_message_id ≡ w.next_message_id)
            × ((f w).current.payload.id ≡ w.current.payload.id)
            × ((f w).outbox ≡ w.outbox)
            × (held_by (f w) ≡ held_by w))
      → Keeps (Inv cause origin) (modify f)
  Keeps-unseen f same = Keeps-modify f λ w h.
      let (e₁, e₂, e₃, e₄, e₅, e₆) = same w in
      record {
        path = subst (λ s. Way cause origin.state s) (sym e₁) h.path;
        field = subst IsBitField (sym e₂) h.field;
        next_id = subst (λ n. n < 2 ^ 16) (sym e₃) h.next_id;
        last_id = subst (λ n. n < 2 ^ 16) (sym e₄) h.last_id;
        packets = subst (All (λ p. length p.1 ≤ bytes_size)) (sym e₅) h.packets;
        held = e₆ ∙ h.held;
      }

  -- The state may be set to one that the diagram leads to.
  pub set_state-Inv :
      (s : State)
      → ((w : World) → Inv cause origin w → Way cause origin.state s)
      → Keeps (Inv cause origin) (set_state s)
  set_state-Inv s way = Keeps-modify _ λ w h. record {
    path = way w h;
    field = h.field;
    next_id = h.next_id;
    last_id = h.last_id;
    packets = h.packets;
    held = h.held;
  }

  pub to_error : Keeps (Inv cause origin) (set_state error_state)
  to_error = set_state-Inv error_state (λ w h. next h.path fail)

  pub to_end : Keeps (Inv cause origin) (set_state end_state)
  to_end = set_state-Inv end_state (λ w h. next h.path stop)

  send_new-Inv :
      (type : PayloadType) (d : Option PayloadData) → Keeps (Inv cause origin) (send_new type d)
  unfolding send_new payload_new
  send_new-Inv type d = record {
    at = λ w t a h e.
        (connection_send-Inv _).at _ t a
          (record {
            path = h.path;
            field = h.field;
            next_id = omega arith;
            last_id = h.next_id;
            packets = h.packets;
            held = h.held;
          })
          e;
  }

  -- The ERR that is sent when a payload could not be.
  apology-Inv : Keeps (Inv cause origin) (
      run_exec error_clear
      >> (gets (λ w. w.uninit) >>= λ uninit. gets (λ w. w.display_name) >>= λ name.
          send_new err (some (err_data uninit.body name failed_text)) >> set_state error_state))
  apology-Inv = Keeps-then (run_exec error_clear) _ (Keeps-run_exec Inv-blind error_clear) (
      Keeps-gets (λ w. w.uninit) _
        λ uninit w h q.
          Keeps-gets (λ w. w.display_name) _
            λ name v k r.
              Keeps-then (send_new err (some (err_data uninit.body name failed_text)))
                (set_state error_state)
                (send_new-Inv err (some (err_data uninit.body name failed_text))) to_error)

  pub client_send-Inv :
      (type : PayloadType) (d : Option PayloadData) → Keeps (Inv cause origin) (client_send type d)
  unfolding client_send
  client_send-Inv type d = Keeps-then (send_new type d) _ (send_new-Inv type d) (
      Keeps-bind (run_exec get_error) _ (Keeps-run_exec Inv-blind get_error) λ error.
        Keeps-then _ _ (Keeps-if (is_set error) _ _ (λ e. apology-Inv) (λ e. Keeps-ret tt)) (
          Keeps-bind (run_exec get_error) _ (Keeps-run_exec Inv-blind get_error) λ again.
            Keeps-if (is_set again) _ _ (λ e. to_end)
              (λ e. Keeps-unseen _ (λ w. (refl, refl, refl, refl, refl, refl)))))

  pub send_malformed-Inv : Keeps (Inv cause origin) send_malformed
  unfolding send_malformed
  send_malformed-Inv =
      Keeps-gets (λ w. w.display_name) _
        λ name w h q.
          Keeps-then (client_send err (some (err_data zero_data name malformed_text))) _
            (client_send-Inv err _) to_error
    where
      malformed_text : List ℕ
      malformed_text = codes "Received malformed payload"
