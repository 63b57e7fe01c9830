-- ===== src/Client/Trace/Loop.antt =====
-- The rounds of the event loop, each event with the way that the state goes when it is handled.
use ipk2024_projekt.Base.{
  Bool, List, M, Option, [], ap, arith, false, none, refl, ret, some, subst, true, ℕ, ◌>>◌, ◌∙◌,
  ◌∷◌, ◌≡◌,
}
use ipk2024_projekt.World.{World}
use ipk2024_projekt.Client.Diagram.{Cause, Way, no_event}
use ipk2024_projekt.Client.Loop.{
  Event, Polled, Round, event_loop, handle_event, handle_events, interrupted, leave_error,
  loop_body, poll_error_branch, poll_failed, polled, timed_out,
}
use ipk2024_projekt.Client.Handler.{handle_sigint}
use ipk2024_projekt.Client.Invariant.{Inv}
use ipk2024_projekt.Client.Invariant.Input.{handle_sigint-Inv}
use ipk2024_projekt.Client.Invariant.Loop.{
  IsSound, LoopStep, broke, client_handle_timeout-Inv, ended, event_loop_inv, leave_error-Inv,
  poll_error_branch-Inv, went_on,
}
use ipk2024_projekt.Client.Trace.{IsSound-Inv, cause_of, handle_event-caused}

-- The events are handled one after the other, and the state goes a way that each of them may cause.
pub data EventsAlong : List Event → World → World → Type 0 where
  no_more : {w : World} → EventsAlong [] w w
  one_more :
      {e : Event} {events : List Event} {w v u : World}
      → handle_event e w ≡ some (tt, v)
      → Way (cause_of e w) w.state v.state
      → EventsAlong events v u
      → EventsAlong (e ∷ events) w u

abbrev HasNoEvents : Polled → Type 0
HasNoEvents (polled events) = ⊥
HasNoEvents _ = Unit {0}

-- Behind the events, and in a round without any, the state goes a way that needs no event.
pub data RoundAlong : Polled → World → World → Type 0 where
  with_events :
      {events : List Event} {w v u : World}
      → EventsAlong events w v
      → leave_error v ≡ some (tt, u)
      → Way no_event v.state u.state
      → RoundAlong (polled events) w u
  without_events :
      {answer : Polled} {w u : World}
      → HasNoEvents answer
      → Way no_event w.state u.state
      → RoundAlong answer w u

-- The rounds of the loop, up to where it is over.
pub data LoopAlong : List Round → World → World → Type 0 where
  over : {rounds : List Round} {w : World} → LoopAlong rounds w w
  one_round :
      {r : Round} {rounds : List Round} {w v u : World} (left : Bool)
      → loop_body r.answer (record w { now = r.time }) ≡ some (left, v)
      → RoundAlong r.answer (record w { now = r.time }) v
      → LoopAlong rounds v u
      → LoopAlong (r ∷ rounds) w u

Inv-IsSound : {cause : Cause} (w v : World) → Inv cause w v → IsSound v
Inv-IsSound w v h = record {
  field = h.field;
  next_id = h.next_id;
  last_id = h.last_id;
  packets = h.packets;
}

at_time-IsSound : (time : ℕ) (w : World) → IsSound w → IsSound (record w { now = time })
at_time-IsSound time w s = record {
  field = s.field;
  next_id = s.next_id;
  last_id = s.last_id;
  packets = s.packets;
}

-- What the first step of a block leaves.
first_step :
    {A : Type 0} (m : M World (Unit {0})) (k : M World A) (w w' : World) (a : A)
    → (m >> k) w ≡ some (a, w')
    → (v : World) × (m w ≡ some (tt, v)) × (k v ≡ some (a, w'))
first_step m k w w' a e = go (m w) refl
  where
    go :
        (r : Option (Unit {0} × World))
        → m w ≡ r
        → (v : World) × (m w ≡ some (tt, v)) × (k v ≡ some (a, w'))
    go none q = absurd (ground (arith, e, q))
    go (some (u, v)) q = (v, q, ground (arith, e, q))

events-along :
    (events : List Event) (w w' : World)
    → IsSound w
    → handle_events events w ≡ some (tt, w')
    → EventsAlong events w w' × IsSound w'
unfolding handle_events
events-along [] w w' s e =
    let same : w ≡ w' = ground (arith, e) in
    subst (λ u. EventsAlong [] w u × IsSound u) same (no_more, s)
events-along (event ∷ events) w w' s e =
    let (v, ran, rest) = first_step (handle_event event) (handle_events events) w w' tt e in
    let h = handle_event-caused event w v s ran in
    let (along, s') = events-along events v w' (Inv-IsSound w v h) rest in
    (one_more ran h.path along, s')

-- A round whose answer is no events.
quiet-along :
    (answer : Polled) (w u : World) (left : Bool)
    → HasNoEvents answer
    → IsSound w
    → loop_body answer w ≡ some (left, u)
    → Inv no_event w u
unfolding loop_body
quiet-along poll_failed w u left q s e =
    poll_error_branch-Inv.at w u left (IsSound-Inv no_event w s) e
quiet-along interrupted w u left q s e =
    let (v, ran, rest) = first_step handle_sigint poll_error_branch w u left e in
    poll_error_branch-Inv.at v u left (handle_sigint-Inv.at w v tt (IsSound-Inv no_event w s) ran)
      rest
quiet-along timed_out w u left q s e =
    client_handle_timeout-Inv.at w u left (IsSound-Inv no_event w s) e
quiet-along (polled events) w u left q s e = absurd q

round-along :
    (answer : Polled) (w u : World) (left : Bool)
    → IsSound w
    → loop_body answer w ≡ some (left, u)
    → RoundAlong answer w u × IsSound u
unfolding loop_body
round-along poll_failed w u left s e =
    let h = quiet-along poll_failed w u left tt s e in (without_events tt h.path, Inv-IsSound w u h)
round-along interrupted w u left s e =
    let h = quiet-along interrupted w u left tt s e in (without_events tt h.path, Inv-IsSound w u h)
round-along timed_out w u left s e =
    let h = quiet-along timed_out w u left tt s e in (without_events tt h.path, Inv-IsSound w u h)
round-along (polled events) w u left s e =
    let (v, ran, rest) = first_step (handle_events events) (leave_error >> ret false) w u left e in
    let (t, left_ran, last) = first_step leave_error (ret false) v u left rest in
    let (along, s') = events-along events w v s ran in
    let same : t ≡ u = ground (arith, last) in
    let h =
      subst (Inv no_event v) same
        (leave_error-Inv.at v t tt (IsSound-Inv no_event v s') left_ran) in
    (with_events along (left_ran ∙ ap (λ x. some (tt, x)) same) h.path, Inv-IsSound v u h)

-- However the rounds of the event loop go, as long as nothing faults, from globals that are in
-- their bounds, the state moves along the diagram: handling an event leads to Auth only if it
-- brings the command /auth, and only from Start or NotAuth; to Open from another state only if it
-- brings a REPLY that accepts, and to NotAuth only if it brings one that refuses, both only from
-- Auth. What follows the events, and a round without events, leads to Error and End only.
pub event_loop_diagram :
    (rounds : List Round) (w w' : World) (left : Bool)
    → IsSound w
    → event_loop rounds w ≡ some (left, w')
    → LoopAlong rounds w w'
unfolding event_loop
event_loop_diagram [] w w' left s e =
    subst (LoopAlong [] w) (let same : w ≡ w' = ground (arith, e) in same) over
event_loop_diagram (r ∷ rounds) w w' left s e =
    by_step (event_loop_inv r rounds w w' left e) (λ v k l. event_loop_diagram rounds v w' left k l)
  where
    by_step :
        LoopStep r rounds w w' left
        → ((v : World) → IsSound v → event_loop rounds v ≡ some (left, w') → LoopAlong rounds v w')
        → LoopAlong (r ∷ rounds) w w'
    by_step (ended d q l) rest = subst (LoopAlong (r ∷ rounds) w) q over
    by_step (broke d l q) rest =
        let (along, s') =
          round-along r.answer (record w { now = r.time }) w' true (at_time-IsSound r.time w s) q in
        one_round true q along over
    by_step (went_on v d q l) rest =
        let (along, s') =
          round-along r.answer (record w { now = r.time }) v false (at_time-IsSound r.time w s) q in
        one_round false q along (rest v s' l)
