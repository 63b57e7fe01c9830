-- ===== src/Client/Safe/Receive.antt =====
-- Where the handler of incoming packets returns.
use ipk2024_projekt.Base.{
  All, Any, Bool, List, Returns, Returns-Yields, Returns-access, Returns-bind, Returns-from,
  Returns-if, Returns-ret, Returns-then, Returns-weaken, access, arith, false, get_elem?-lt,
  if◌then◌else◌, none, not, refl, ret, some, subst, sym, true, ℕ, ◌%◌, ◌&&◌, ◌/◌, ◌<◌, ◌==◌, ◌^◌,
  ◌∷◌, ◌≡◌, ◌≢◌,
}
use ipk2024_projekt.Error.{
  Error, connection, error_clear, get_error, is_set, recv_from_wrong_address, set_error,
}
use ipk2024_projekt.Bytes.{received}
use ipk2024_projekt.BitField.{IsBitField, bit_field_contains, bit_field_insert}
use ipk2024_projekt.BitField.Insert.{bit_field_insert_lem}
use ipk2024_projekt.Payload.{
  Payload, PayloadReply, PayloadType, auth, bye, confirm, err, is_confirm, join, message, other,
  reply, zero_payload,
}
use ipk2024_projekt.Trie.{Trie}
use ipk2024_projekt.World.{
  Output, World, end_state, failure, is_authenticating, is_open, is_udp, malformed_notice, modify,
  not_auth, open_state, run_exec, set_state, success, write,
}
use ipk2024_projekt.World.Total.{Returns-gets, Returns-modify}
use ipk2024_projekt.Udp.{udp_deserialize}
use ipk2024_projekt.Udp.Safe.{udp_deserialize_safe}
use ipk2024_projekt.Udp.Number.{udp_deserialize-id}
use ipk2024_projekt.Tcp.{tcp_deserialize}
use ipk2024_projekt.Tcp.Safe.{tcp_deserialize_safe}
use ipk2024_projekt.Tcp.Number.{tcp_deserialize-id}
use ipk2024_projekt.Tcp.Prefix.{tcp_trie}
use ipk2024_projekt.Connection.{
  Incoming, connection_receive, connection_send, failed, packet, tcp_receive, udp_receive,
}
use ipk2024_projekt.Client.{
  client_handle_socket, client_send, handle_confirm, handle_payload, handle_received, handle_reply,
  is_wrong_address, note_received,
}
use ipk2024_projekt.Client.Safe.{
  IsFit, IsFit-seen, Returns-unseen, client_send_bye-Returns, connection_send-Returns,
  error_clear-Returns, exec-Returns, get_error-Returns, send_malformed-Returns, set_error-Returns,
  set_state-Returns,
}

-- What comes in are bytes.
abbrev pub IsData : Incoming → Type 0
IsData failed = Unit {0}
IsData (packet sender bytes) = All (λ x. x < 256) bytes

abbrev IsNumbered : Payload → Type 0
IsNumbered p = p.id < 2 ^ 16

udp_receive-Returns : (i : Incoming) → IsData i → Returns IsFit IsNumbered (udp_receive i)
unfolding udp_receive
udp_receive-Returns failed are_bytes =
    Returns-then (run_exec (set_error connection)) _ (set_error-Returns connection)
      (Returns-ret zero_payload (omega arith))
udp_receive-Returns (packet sender bytes) are_bytes =
    Returns-gets (λ w. w.address) _
      λ server w h q.
        Returns-if (not (sender.sin_addr == server.sin_addr)) _ _
          (λ e.
            Returns-then (run_exec (set_error recv_from_wrong_address)) _
              (set_error-Returns recv_from_wrong_address) (Returns-ret zero_payload (omega arith)))
          λ e.
            Returns-then
              (modify (λ w. record w { address = record server { sin_port = sender.sin_port } })) _
              (Returns-unseen _ (λ w. refl))
              (exec-Returns (udp_deserialize (received bytes)) (
                Returns-Yields (udp_deserialize (received bytes)) (udp_deserialize_safe bytes)
                  (udp_deserialize-id bytes are_bytes)))

-- In TCP mode the trie is that of `tcp_setup`.
told-Returns :
    (uninit : Payload) (trie : Trie) (bytes : List ℕ)
    → uninit.id < 2 ^ 16
    → trie ≡ tcp_trie
    → Returns IsFit IsNumbered (run_exec (tcp_deserialize uninit trie (received bytes)))
told-Returns uninit trie bytes small e =
    exec-Returns (tcp_deserialize uninit trie (received bytes)) (
      Returns-weaken (tcp_deserialize uninit trie (received bytes))
        (Returns-Yields (tcp_deserialize uninit trie (received bytes))
          (subst (λ t. (error : Error) → tcp_deserialize uninit t (received bytes) error ≢ none)
            (sym e) (tcp_deserialize_safe uninit bytes))
          (tcp_deserialize-id uninit trie (received bytes)))
        (λ p q. subst (λ n. n < 2 ^ 16) (sym q) small))

tcp_receive-at :
    (i : Incoming) (w : World)
    → IsFit w
    → is_udp w.args.mode ≡ false
    → (p : Payload) × (t : World) × (tcp_receive i w ≡ some (p, t)) × IsFit t × IsNumbered p
unfolding tcp_receive
tcp_receive-at failed w h m = (
  w.uninit,
  record w { error = connection },
  refl,
  IsFit-seen (record w { error = connection }) w refl h,
  h.stray_id,
)
tcp_receive-at (packet sender bytes) w h m =
    (told-Returns w.uninit w.tcp_trie bytes h.stray_id (h.trie m)).at w h

connection_receive-Returns :
    (i : Incoming) → IsData i → Returns IsFit IsNumbered (connection_receive i)
unfolding connection_receive
connection_receive-Returns i are_bytes = record {
  at = λ w h. by_mode w h (is_udp w.args.mode) refl;
}
  where
    by_mode :
        (w : World)
        → IsFit w
        → (b : Bool) → is_udp w.args.mode ≡ b
        → (p : Payload) × (t : World) × ((if b then udp_receive i else tcp_receive i) w
            ≡ some (p, t))
          × IsFit t
          × IsNumbered p
    by_mode w h true m = (udp_receive-Returns i are_bytes).at w h
    by_mode w h false m = tcp_receive-at i w h m

handle_confirm-Returns : (p : Payload) → Returns IsFit Any (handle_confirm p)
unfolding handle_confirm
handle_confirm-Returns p =
    Returns-gets (λ w. w.current) _
      λ current w h q.
        Returns-if (p.id == current.payload.id) _ _ (λ e. Returns-unseen confirm_it (λ w. refl))
          (λ e. Returns-ret tt tt)
  where
    confirm_it : World → World
    confirm_it w = record w { current = record (w.current) { confirmed = true; retry_count = 0 } }

pub write-Returns : (o : Output) → Returns IsFit Any (write o)
write-Returns o = Returns-unseen (λ w. record w { written = o ∷ w.written }) (λ w. refl)

handle_reply-Returns : (d : PayloadReply) → Returns IsFit Any (handle_reply d)
unfolding handle_reply
handle_reply-Returns d =
    Returns-gets (λ w. w.state) _
      λ state w h q.
        Returns-if (not (is_authenticating state) && not (is_open state)) _ _
          (λ e. Returns-ret tt tt)
          λ counts.
            Returns-if d.result _ _
              (λ e.
                Returns-then (set_state open_state) _ (set_state-Returns open_state)
                  (write-Returns (success d.message_content)))
              (λ e.
                Returns-then (if is_authenticating state then set_state not_auth else ret tt) _
                  (Returns-if (is_authenticating state) _ _ (λ a. set_state-Returns not_auth)
                    (λ a. Returns-ret tt tt))
                  (write-Returns (failure d.message_content)))

handle_payload-Returns :
    (type : PayloadType) (p : Payload) → Returns IsFit Any (handle_payload type p)
unfolding handle_payload
handle_payload-Returns confirm p = handle_confirm-Returns p
handle_payload-Returns auth p = send_malformed-Returns
handle_payload-Returns join p = send_malformed-Returns
handle_payload-Returns reply p = handle_reply-Returns p.body.reply_data
handle_payload-Returns message p = write-Returns _
handle_payload-Returns err p =
    Returns-then (write _) _ (write-Returns _)
      (Returns-then (client_send bye none) _ client_send_bye-Returns (set_state-Returns end_state))
handle_payload-Returns bye p =
    Returns-gets (λ w. w.state) _
      λ state w h q.
        Returns-then (if not (is_open state) then client_send bye none else ret tt) _
          (Returns-if (not (is_open state)) _ _ (λ e. client_send_bye-Returns)
            (λ e. Returns-ret tt tt))
          (set_state-Returns end_state)
handle_payload-Returns (other b) p = Returns-ret tt tt

contains-total :
    (field : List ℕ) (id : ℕ)
    → IsBitField field
    → id < 2 ^ 16
    → (bit : Bool) × (bit_field_contains field id ≡ some bit)
unfolding bit_field_contains
contains-total field id ok small =
    let (byte, got) = get_elem?-lt field (id / 8) (omega (arith, ok.size)) in
    (byte / 2 ^ (id % 8) % 2 == 1, ground (arith, got))

-- The number is in the bit field, so it is looked up and stored.
note_received-Returns : (p : Payload) → IsNumbered p → Returns IsFit Any (note_received p)
unfolding note_received
note_received-Returns p small =
    Returns-if (is_confirm p.type) _ _ (λ c. Returns-ret true tt)
      λ c.
        Returns-gets (λ w. w.args.mode) _
          λ mode v k r.
            Returns-gets (λ w. w.received_id) _
              λ field w h q.
                let ok : IsBitField field = subst IsBitField (sym q) h.field in
                let (field', made, ok', others) = bit_field_insert_lem field p.id ok small in
                let (bit, found) = contains-total field p.id ok small in
                Returns-from
                  (if is_udp mode then access (bit_field_contains field p.id) else ret false) _
                  (Returns-if (is_udp mode) _ _
                    (λ e. Returns-access (bit_field_contains field p.id) bit found tt)
                    (λ e. Returns-ret false tt))
                  λ known.
                    Returns-if known _ _ (λ e. Returns-ret false tt)
                      λ e.
                        Returns-bind {R = IsBitField} (access (bit_field_insert field p.id)) _
                          (Returns-access (bit_field_insert field p.id) field' made ok')
                          λ stored good.
                            Returns-then (modify (λ w. record w { received_id = stored }))
                              (ret true)
                              (Returns-modify (λ w. record w { received_id = stored })
                                λ w h. record {
                                  field = good;
                                  payload = h.payload;
                                  name = h.name;
                                  stray_id = h.stray_id;
                                  trie = h.trie;
                                  commands = h.commands;
                                  typed = h.typed;
                                })
                              (Returns-ret true tt)

handle_received-Returns : (p : Payload) → IsNumbered p → Returns IsFit Any (handle_received p)
unfolding handle_received
handle_received-Returns p small = Returns-from (run_exec get_error) _ get_error-Returns λ error.
    Returns-if (is_set error) _ _
      (λ e. Returns-then (run_exec error_clear) _ error_clear-Returns (
        Returns-then (write malformed_notice) _ (write-Returns malformed_notice)
          send_malformed-Returns))
      (λ e. Returns-from (note_received p) _ (note_received-Returns p small) λ fresh.
        Returns-if fresh _ _ (λ f. handle_payload-Returns p.type p) (λ f. Returns-ret tt tt))

pub client_handle_socket-Returns :
    (i : Incoming) → IsData i → Returns IsFit Any (client_handle_socket i)
unfolding client_handle_socket
client_handle_socket-Returns i are_bytes =
    Returns-bind (connection_receive i) _ (connection_receive-Returns i are_bytes) λ p small.
      Returns-from (run_exec get_error) _ get_error-Returns λ error.
        Returns-if (is_wrong_address error) _ _ (λ e. error_clear-Returns)
          λ e.
            Returns-if (is_confirm p.type) _ _ (λ c. handle_received-Returns p small)
              λ c.
                Returns-gets (λ w. w.current) _
                  λ current w h q.
                    Returns-if (not current.confirmed) _ _ (λ u. Returns-ret tt tt)
                      λ u.
                        Returns-gets (λ w. w.uninit) _
                          λ uninit v k r.
                            Returns-then
                              (connection_send (record uninit { type = confirm; id = p.id })) _
                              (connection_send-Returns (record uninit { type = confirm; id = p.id })
                                tt)
                              (handle_received-Returns p small)
