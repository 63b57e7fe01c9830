-- ===== src/Client/Invariant/Receive.antt =====
-- The invariant through the handler of incoming packets.
use ipk2024_projekt.Base.{
  Bool-cases, Keeps, Keeps-access, Keeps-bind, Keeps-if, Keeps-ret, Keeps-then, List, M, access,
  arith, false, get_elem?, get_elem?-ge, if◌then◌else◌, inl, inr, ltb, ltb→lt, none, not, refl, ret,
  some, subst, sym, true, ℕ, ◌&&◌, ◌/◌, ◌==◌, ◌>>=◌, ◌>>◌, ◌^◌, ◌≡◌, ◌≤◌,
}
use ipk2024_projekt.Error.{
  connection, error_clear, get_error, is_set, recv_from_wrong_address, set_error,
}
use ipk2024_projekt.Bytes.{received}
use ipk2024_projekt.BitField.{IsBitField, bit_field_contains, bit_field_insert}
use ipk2024_projekt.BitField.Insert.{bit_field_insert_lem}
use ipk2024_projekt.Payload.{
  Payload, PayloadReply, PayloadType, auth, bye, confirm, err, is_confirm, join, message, other,
  reply, zero_payload,
}
use ipk2024_projekt.World.{
  Output, World, failure, gets, is_authenticating, is_open, is_udp, malformed_notice, modify,
  not_auth, open_state, run_exec, set_state, success, write,
}
use ipk2024_projekt.World.Keeps.{
  Keeps-bind_access, Keeps-gets, Keeps-modify, Keeps-read, Keeps-run_exec,
}
use ipk2024_projekt.Udp.{udp_deserialize}
use ipk2024_projekt.Tcp.{tcp_deserialize}
use ipk2024_projekt.Connection.{
  Incoming, connection_receive, connection_send, failed, packet, tcp_receive, udp_receive,
}
use ipk2024_projekt.Client.Diagram.{CanBe, Cause, Way, decline-Way, got_payload, reply-Way}
use ipk2024_projekt.Client.{
  client_handle_socket, client_send, handle_confirm, handle_payload, handle_received, handle_reply,
  is_wrong_address, note_received, set_current,
}
use ipk2024_projekt.Client.Invariant.{
  Inv, Inv-blind, Keeps-unseen, client_send-Inv, connection_send-Inv, send_malformed-Inv,
  set_state-Inv, to_end,
}

-- An insertion that does not fault keeps the bit field well formed.
bit_field_insert-IsBitField :
    (field field' : List ℕ) (id : ℕ)
    → bit_field_insert field id ≡ some field'
    → IsBitField field
    → IsBitField field'
unfolding bit_field_insert
bit_field_insert-IsBitField field field' id e h = elim (Bool-cases (ltb id (2 ^ 16))) [
  | inl l ↦
      let (made, e', ok, _) = bit_field_insert_lem field id h (ltb→lt id (2 ^ 16) l) in
      subst IsBitField (let q : made ≡ field' = cc in q) ok
  | inr g ↦ absurd (outside (get_elem?-ge field (id / 8) (omega (arith, h.size, ge g))))
]
  where
    ge : ltb id (2 ^ 16) ≡ false → 2 ^ 16 ≤ id
    ge g = ground arith

    outside : get_elem? field (id / 8) ≡ none → ⊥
    outside q = ground (arith, e, q)

-- What follows the receiving of a payload.
abbrev pub after_receive : Payload → M World (Unit {0})
after_receive payload = do
  error ← run_exec get_error
  if is_wrong_address error
      then run_exec error_clear
      else if is_confirm payload.type
      then handle_received payload
      else do
        current ← gets (λ w. w.current)
        if not current.confirmed then ret tt else do
          uninit ← gets (λ w. w.uninit)
          connection_send (record uninit { type = confirm; id = payload.id })
          handle_received payload

module _ {cause : Cause} {origin : World} where
  udp_receive-Inv : (i : Incoming) → Keeps (Inv cause origin) (udp_receive i)
  unfolding udp_receive
  udp_receive-Inv failed =
      Keeps-then (run_exec (set_error connection)) _
        (Keeps-run_exec Inv-blind (set_error connection)) (Keeps-ret zero_payload)
  udp_receive-Inv (packet sender bytes) =
      Keeps-gets (λ w. w.address) _
        λ server w h q.
          Keeps-if (not (sender.sin_addr == server.sin_addr)) _ _
            (λ e.
              Keeps-then (run_exec (set_error recv_from_wrong_address)) _
                (Keeps-run_exec Inv-blind (set_error recv_from_wrong_address))
                (Keeps-ret zero_payload))
            (λ e.
              Keeps-then
                (modify (λ w. record w { address = record server { sin_port = sender.sin_port } }))
                _ (Keeps-unseen _ (λ w. (refl, refl, refl, refl, refl, refl)))
                (Keeps-run_exec Inv-blind (udp_deserialize (received bytes))))

  tcp_receive-Inv : (i : Incoming) → Keeps (Inv cause origin) (tcp_receive i)
  unfolding tcp_receive
  tcp_receive-Inv failed =
      Keeps-then (run_exec (set_error connection)) _
        (Keeps-run_exec Inv-blind (set_error connection)) (Keeps-read (λ w. w.uninit))
  tcp_receive-Inv (packet sender bytes) =
      Keeps-gets (λ w. w.uninit) _
        λ uninit w h q.
          Keeps-gets (λ w. w.tcp_trie) _
            λ trie v k r. Keeps-run_exec Inv-blind (tcp_deserialize uninit trie (received bytes))

  pub connection_receive-Inv : (i : Incoming) → Keeps (Inv cause origin) (connection_receive i)
  unfolding connection_receive
  connection_receive-Inv i =
      Keeps-gets (λ w. w.args.mode) _
        λ mode w h q. Keeps-if (is_udp mode) _ _ (λ e. udp_receive-Inv i) (λ e. tcp_receive-Inv i)

  confirmed-Inv :
      Keeps (Inv cause origin) (set_current (λ c. record c { confirmed = true; retry_count = 0 }))
  confirmed-Inv = Keeps-unseen _ (λ w. (refl, refl, refl, refl, refl, refl))

  handle_confirm-Inv : (p : Payload) → Keeps (Inv cause origin) (handle_confirm p)
  unfolding handle_confirm
  handle_confirm-Inv p =
      Keeps-gets (λ w. w.current) _
        λ current w h q.
          Keeps-if (p.id == current.payload.id) _ _ (λ e. confirmed-Inv) (λ e. Keeps-ret tt)

  write-Inv : (o : Output) → Keeps (Inv cause origin) (write o)
  write-Inv o = Keeps-unseen _ (λ w. (refl, refl, refl, refl, refl, refl))

  handle_reply-Inv :
      (d : PayloadReply)
      → CanBe cause (got_payload reply d.result)
      → Keeps (Inv cause origin) (handle_reply d)
  unfolding handle_reply
  handle_reply-Inv d may =
      Keeps-gets (λ w. w.state) _
        λ state w h q.
          Keeps-if (not (is_authenticating state) && not (is_open state)) _ _ (λ e. Keeps-ret tt)
            (λ counts.
              let p : Way cause origin.state state =
                subst (λ s. Way cause origin.state s) (sym q) h.path in
              Keeps-if d.result _ _
                (λ e.
                  Keeps-then (set_state open_state) _
                    (set_state-Inv open_state (λ v k.
                      reply-Way state (subst (λ b. CanBe cause (got_payload reply b)) e may) counts
                        p))
                    (write-Inv (success d.message_content)))
                (λ e.
                  Keeps-then (if is_authenticating state then set_state not_auth else ret tt) _
                    (Keeps-if (is_authenticating state) _ _
                      (λ a. set_state-Inv not_auth (λ v k.
                        decline-Way state (subst (λ b. CanBe cause (got_payload reply b)) e may) a
                          p))
                      (λ a. Keeps-ret tt))
                    (write-Inv (failure d.message_content))))

  handle_payload-Inv :
      (type : PayloadType) (p : Payload)
      → CanBe cause (got_payload type p.body.reply_data.result)
      → Keeps (Inv cause origin) (handle_payload type p)
  unfolding handle_payload
  handle_payload-Inv confirm p may = handle_confirm-Inv p
  handle_payload-Inv auth p may = send_malformed-Inv
  handle_payload-Inv join p may = send_malformed-Inv
  handle_payload-Inv reply p may = handle_reply-Inv p.body.reply_data may
  handle_payload-Inv message p may = write-Inv _
  handle_payload-Inv err p may =
      Keeps-then (write _) _ (write-Inv _)
        (Keeps-then (client_send bye none) _ (client_send-Inv bye none) to_end)
  handle_payload-Inv bye p may =
      Keeps-gets (λ w. w.state) _
        λ state w h q.
          Keeps-then (if not (is_open state) then client_send bye none else ret tt) _
            (Keeps-if (not (is_open state)) _ _ (λ e. client_send-Inv bye none) (λ e. Keeps-ret tt))
            to_end
  handle_payload-Inv (other b) p may = Keeps-ret tt

  stored-Inv :
      (field : List ℕ)
      → IsBitField field
      → Keeps (Inv cause origin) (modify (λ w. record w { received_id = field }))
  stored-Inv field ok = Keeps-modify _ λ w h. record {
    path = h.path;
    field = ok;
    next_id = h.next_id;
    last_id = h.last_id;
    packets = h.packets;
    held = h.held;
  }

  note_received-Inv : (p : Payload) → Keeps (Inv cause origin) (note_received p)
  unfolding note_received
  note_received-Inv p =
      Keeps-if (is_confirm p.type) _ _ (λ c. Keeps-ret true)
        λ c.
          Keeps-gets (λ w. w.args.mode) _
            λ mode v k r.
              Keeps-gets (λ w. w.received_id) _
                λ field w h q.
                  Keeps-bind
                    (if is_udp mode then access (bit_field_contains field p.id) else ret false) _
                    (Keeps-if (is_udp mode) _ _ (λ e. Keeps-access (bit_field_contains field p.id))
                      (λ e. Keeps-ret false))
                    λ known.
                      Keeps-if known _ _ (λ e. Keeps-ret false)
                        λ e. Keeps-bind_access (bit_field_insert field p.id) _ λ field' made.
                          Keeps-then (modify (λ w. record w { received_id = field' })) (ret true)
                            (stored-Inv field' (
                              bit_field_insert-IsBitField field field' p.id made
                                (subst IsBitField (sym q) h.field)))
                            (Keeps-ret true)

  handle_received-Inv :
      (p : Payload)
      → CanBe cause (got_payload p.type p.body.reply_data.result)
      → Keeps (Inv cause origin) (handle_received p)
  unfolding handle_received
  handle_received-Inv p may =
      Keeps-bind (run_exec get_error) _ (Keeps-run_exec Inv-blind get_error) λ error.
        Keeps-if (is_set error) _ _
          (λ e.
            Keeps-then (run_exec error_clear) _ (Keeps-run_exec Inv-blind error_clear) (
              Keeps-then (write malformed_notice) _ (write-Inv malformed_notice)
                send_malformed-Inv))
          (λ e.
            Keeps-bind (note_received p) _ (note_received-Inv p) λ fresh.
              Keeps-if fresh _ _ (λ f. handle_payload-Inv p.type p may) (λ f. Keeps-ret tt))

  pub after_receive-Inv :
      (p : Payload)
      → CanBe cause (got_payload p.type p.body.reply_data.result)
      → Keeps (Inv cause origin) (after_receive p)
  after_receive-Inv p may =
      Keeps-bind (run_exec get_error) _ (Keeps-run_exec Inv-blind get_error) λ error.
        Keeps-if (is_wrong_address error) _ _ (λ e. Keeps-run_exec Inv-blind error_clear)
          λ e.
            Keeps-if (is_confirm p.type) _ _ (λ c. handle_received-Inv p may)
              λ c.
                Keeps-gets (λ w. w.current) _
                  λ current w h q.
                    Keeps-if (not current.confirmed) _ _ (λ u. Keeps-ret tt)
                      λ u.
                        Keeps-gets (λ w. w.uninit) _
                          λ uninit v k r.
                            Keeps-then
                              (connection_send (record uninit { type = confirm; id = p.id })) _
                              (connection_send-Inv _) (handle_received-Inv p may)

  pub client_handle_socket-Inv :
      (i : Incoming)
      → ((k : Cause) → CanBe cause k)
      → Keeps (Inv cause origin) (client_handle_socket i)
  unfolding client_handle_socket
  client_handle_socket-Inv i all =
      Keeps-bind (connection_receive i) after_receive (connection_receive-Inv i)
        λ p. after_receive-Inv p (all (got_payload p.type p.body.reply_data.result))
