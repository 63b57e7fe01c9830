-- ===== src/Client/Close.antt =====
-- What a session hands back when it ends, and where it cannot.
use ipk2024_projekt.Base.{
  All, Bool, Bool-cases, List, Option, [], ap, arith, false, if◌then◌else◌, inl, inr, length, none,
  refl, ret, some, subst, sym, true, ℕ, ◌+◌, ◌-◌, ◌<◌, ◌>>=◌, ◌>>◌, ◌^◌, ◌∙◌, ◌≡◌, ◌≤◌,
}
use ipk2024_projekt.Error.{is_set, no_error}
use ipk2024_projekt.Bytes.{bytes_size}
use ipk2024_projekt.BitField.{IsBitField}
use ipk2024_projekt.Payload.{display_name_len}
use ipk2024_projekt.Payload.Fits.{Fits}
use ipk2024_projekt.Trie.{Trie, trie_free}
use ipk2024_projekt.Trie.Free.{nodes, trie_free_lem}
use ipk2024_projekt.World.{Args, Mode, Network, World, is_udp}
use ipk2024_projekt.Client.Shutdown.{
  bit_field_free, client_shutdown, command_clean_up, connection_close, tcp_destroy, tcp_disconnect,
  udp_disconnect,
}
use ipk2024_projekt.Client.Loop.{Round, client_run, event_loop}
use ipk2024_projekt.Client.Start.{Owns, all_good, connected, ended, opening}
use ipk2024_projekt.Client.Invariant.{held_by}
use ipk2024_projekt.Client.Invariant.Loop.{IsSound, loop-Inv}
use ipk2024_projekt.Client.Diagram.{◌⟶*◌}
use ipk2024_projekt.Client.Lines.{IsTyped}
use ipk2024_projekt.Client.Safe.{IsFit}
use ipk2024_projekt.Client.Safe.Loop.{BringsBytes, event_loop_safe}

-- A session that holds its blocks hands them back, and no others.
client_shutdown-Owns :
    (base : ℕ) (w : World) → Owns base w → client_shutdown w ≡ some (tt, record w { blocks = base })
unfolding client_shutdown bit_field_free connection_close udp_disconnect tcp_disconnect tcp_destroy
    command_clean_up
client_shutdown-Owns base w o = elim (Bool-cases (is_udp w.args.mode)) [
  | inl udp_mode ↦
      ground (arith, o, udp_mode, freed w.command_trie (nodes w.command_trie + base) (omega arith))
  | inr tcp_mode ↦ ground (
    arith,
    o,
    tcp_mode,
    freed w.tcp_trie (1 + nodes w.command_trie + nodes w.tcp_trie + base) (omega arith),
    freed w.command_trie (nodes w.command_trie + base) (omega arith),
  )
]
  where
    freed :
        (t : Trie) (n : ℕ)
        → nodes t ≤ n
        → trie_free t (record { error = w.error; denials = w.denials; blocks = n })
          ≡ some (tt, record { error = w.error; denials = w.denials; blocks = n - nodes t })
    freed t n h = trie_free_lem t (record { error = w.error; denials = w.denials; blocks = n }) h

-- With memory enough and no error before, if the host is resolved but a later call fails that opens
-- the session, `client_run` ends with an error set, has sent nothing, and leaves as many blocks of
-- memory as it found, whatever the rounds to come would have brought.
pub client_run_refused :
    (args : Args) (rounds : List Round) (w : World)
    → w.error ≡ no_error
    → w.denials ≡ []
    → connected w.network ≡ true
    → all_good args.mode w.network ≡ false
    → (w' : World) × (client_run args rounds w ≡ some (true, w'))
      × (is_set w'.error ≡ true)
      × (w'.outbox ≡ w.outbox)
      × (w'.blocks ≡ w.blocks)
unfolding client_run
client_run_refused args rounds w clear memory known bad =
    let (ran, set, out, st, own, ready, unknown) = opening args w clear memory in
    let after : World = ended args w clear memory in
    let failed : is_set after.error ≡ true = ground (arith, set, bad) in
    let shut = client_shutdown-Owns w.blocks after (own known) in
    (record after { blocks = w.blocks }, ground (arith, ran, failed, shut), failed, out, refl)

-- What a session holds tells what it hands back.
Owns-held : (base : ℕ) (v w : World) → held_by v ≡ held_by w → Owns base w → Owns base v
Owns-held base v w e o = record {
  has_field = ap (λ h. h.1) e ∙ o.has_field;
  has_connection = ap (λ h. h.2) e ∙ o.has_connection;
  has_address = ap (λ h. h.3) e ∙ o.has_address;
  counted =
      ap (λ h. h.0) e
      ∙ o.counted
      ∙ ap (λ h. 2 + nodes h.4 + (if is_udp h.6 then 0 else nodes h.5) + base) (sym e);
}

-- A good opening gives the event loop its world.
client_run_good :
    (args : Args) (rounds : List Round) (w : World) (clear : w.error ≡ no_error)
    (memory : w.denials ≡ [])
    → all_good args.mode w.network ≡ true
    → client_run args rounds w
      ≡ (event_loop rounds >>= λ left. if left then (do client_shutdown; ret true) else ret false)
          (ended args w clear memory)
unfolding client_run
client_run_good args rounds w clear memory good =
    let (ran, set, out, st, own, ready, no_address) = opening args w clear memory in
    let fine : is_set (ended args w clear memory).error ≡ false = ground (arith, set, good) in
    ground (arith, ran, fine)

resolved_of_good : (mode : Mode) (n : Network) → all_good mode n ≡ true → connected n ≡ true
resolved_of_good mode n good = ground (arith, good)

module _ (args : Args) (w : World) (clear : w.error ≡ no_error) (memory : w.denials ≡ [])
    (good : all_good args.mode w.network ≡ true)
    (sound : IsSound (record w { received_id = w.old_block })) where
  abbrev after : World
  after = ended args w clear memory

  opened-IsSound : IsSound after
  opened-IsSound =
      let (ran, set, out, st, own, ready, no_address) = opening args w clear memory in
      let o = ready good in
      record {
        field = subst IsBitField (sym o.field) sound.field;
        next_id = subst (λ n. n < 2 ^ 16) (sym o.next_kept) sound.next_id;
        last_id = subst (λ p. p.id < 2 ^ 16) (sym o.current_kept) sound.last_id;
        packets = subst (All (λ p. length p.1 ≤ bytes_size)) (sym out) sound.packets;
      }

  opened-IsFit :
      Fits w.current.payload
      → length w.display_name ≤ display_name_len
      → w.uninit.id < 2 ^ 16
      → IsTyped w.stdin
      → IsFit after
  opened-IsFit fits name stray typed =
      let (ran, set, out, st, own, ready, no_address) = opening args w clear memory in
      let o = ready good in
      record {
        field = subst IsBitField (sym o.field) sound.field;
        payload = subst Fits (sym o.current_kept) fits;
        name = subst (λ s. length s ≤ display_name_len) (sym o.name_kept) name;
        stray_id = subst (λ p. p.id < 2 ^ 16) (sym o.uninit_kept) stray;
        trie = o.trie;
        commands = o.commands;
        typed = subst IsTyped (sym o.stdin_kept) typed;
      }

  -- The loop ends, and the blocks are handed back.
  loop_ended :
      (rounds : List Round) (v : World)
      → event_loop rounds after ≡ some (true, v)
      → client_run args rounds w ≡ some (true, record v { blocks = w.blocks })
  loop_ended rounds v l =
      let (ran, set, out, st, own, ready, no_address) = opening args w clear memory in
      let held = (loop-Inv rounds after v true opened-IsSound l).held in
      let known = resolved_of_good args.mode w.network good in
      let shut = client_shutdown-Owns w.blocks v (Owns-held w.blocks v after held (own known)) in
      ground (arith, l, client_run_good args rounds w clear memory good, shut)

  loop_waits :
      (rounds : List Round) (v : World)
      → event_loop rounds after ≡ some (false, v)
      → client_run args rounds w ≡ some (false, v)
  loop_waits rounds v l = ground (arith, l, client_run_good args rounds w clear memory good)

  -- The world behind the loop, whatever blocks it has.
  behind_loop-IsSound :
      (rounds : List Round) (v : World) (left : Bool) (n : ℕ)
      → event_loop rounds after ≡ some (left, v)
      → IsSound (record v { blocks = n })
  behind_loop-IsSound rounds v left n l =
      let h = loop-Inv rounds after v left opened-IsSound l in
      record { field = h.field; next_id = h.next_id; last_id = h.last_id; packets = h.packets }

  behind_loop_path :
      (rounds : List Round) (v : World) (left : Bool)
      → event_loop rounds after ≡ some (left, v)
      → w.state ⟶* v.state
  behind_loop_path rounds v left l =
      let (ran, set, out, st, own, ready, no_address) = opening args w clear memory in
      subst (λ s. s ⟶* v.state) st (loop-Inv rounds after v left opened-IsSound l).path

-- Every session that ends leaves as many blocks of memory as it found: with memory enough and no error
-- before, the host resolved, a block of bytes for the bit field, and globals in their bounds, whatever
-- the rounds bring, if `client_run` ends it has freed every block that it got.
pub client_run_no_leak :
    (args : Args) (rounds : List Round) (w w' : World)
    → w.error ≡ no_error
    → w.denials ≡ []
    → connected w.network ≡ true
    → IsSound (record w { received_id = w.old_block })
    → client_run args rounds w ≡ some (true, w')
    → w'.blocks ≡ w.blocks
client_run_no_leak args rounds w w' clear memory known sound e =
    elim (Bool-cases (all_good args.mode w.network)) [
      | inl good ↦ by_loop good (event_loop rounds (ended args w clear memory)) refl
      | inr bad ↦
          let (w₁, ran, set, out, freed) =
            client_run_refused args rounds w clear memory known bad in
          ground (arith, e, ran, freed)
    ]
  where
    by_loop :
        all_good args.mode w.network ≡ true
        → (r : Option (Bool × World)) → event_loop rounds (ended args w clear memory) ≡ r
        → w'.blocks ≡ w.blocks
    by_loop good none l = ground (arith, e, l, client_run_good args rounds w clear memory good)
    by_loop good (some (false, v)) l =
        ground (arith, e, loop_waits args w clear memory good sound rounds v l)
    by_loop good (some (true, v)) l =
        ground (arith, e, loop_ended args w clear memory good sound rounds v l)

-- With memory enough, no error before, a session that opens, a block of bytes for the bit field,
-- and globals in their bounds, `client_run` does not fault whatever bytes the server sends, and
-- whenever the input ends or the poll times out, fails or is interrupted, as long as every line
-- that the user types is empty, or has no NUL, is shorter than the buffer and has something
-- between its blanks, and the buffer holds what follows the last newline. It comes to the end of
-- the rounds, or ends before and has freed every block that it got. The globals are in their
-- bounds again, no packet sent is longer than a buffer, and the state has moved along the
-- diagram.
pub client_run_safe :
    (args : Args) (rounds : List Round) (w : World)
    → w.error ≡ no_error
    → w.denials ≡ []
    → all_good args.mode w.network ≡ true
    → IsSound (record w { received_id = w.old_block })
    → Fits w.current.payload
    → length w.display_name ≤ display_name_len
    → w.uninit.id < 2 ^ 16
    → IsTyped w.stdin
    → All (λ r. BringsBytes r.answer) rounds
    → (left : Bool) × (w' : World) × (client_run args rounds w ≡ some (left, w'))
      × (left ≡ true → w'.blocks ≡ w.blocks)
      × (w.state ⟶* w'.state)
      × IsSound w'
client_run_safe args rounds w clear memory good sound fits name stray typed bytes =
    let fit = opened-IsFit args w clear memory good sound fits name stray typed in
    let (left, v, ran, fit') = event_loop_safe rounds (ended args w clear memory) fit bytes in
    elim (Bool-cases left) [
      | inl over ↦ (
        true,
        record v { blocks = w.blocks },
        loop_ended args w clear memory good sound rounds v (ran ∙ ap (λ b. some (b, v)) over),
        λ q. refl,
        behind_loop_path args w clear memory good sound rounds v left ran,
        behind_loop-IsSound args w clear memory good sound rounds v left w.blocks ran,
      )
      | inr waits ↦ (
        false,
        v,
        loop_waits args w clear memory good sound rounds v (ran ∙ ap (λ b. some (b, v)) waits),
        λ q. cc,
        behind_loop_path args w clear memory good sound rounds v left ran,
        behind_loop-IsSound args w clear memory good sound rounds v left v.blocks ran,
      )
    ]
