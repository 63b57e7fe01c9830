-- ===== src/Client/Diagram.antt =====
-- The states of the protocol, and the ways between them that the client is to go, with what each of
-- them wants to have happened.
use ipk2024_projekt.Base.{Bool, false, not, true, ◌&&◌, ◌≡◌}
use ipk2024_projekt.Payload.{PayloadType, reply}
use ipk2024_projekt.World.{
  State, authenticating, end_state, error_state, is_authenticating, is_not_auth, is_open, is_start,
  not_auth, open_state, start,
}
use ipk2024_projekt.Commands.{CommandType, auth_command}

-- Authentication may be tried at the start and after a refusal.
pub data MayAuthenticate : State → Type 0 where
  at_start : MayAuthenticate start
  refused : MayAuthenticate not_auth

-- What happened: a command was typed, a payload was received, with the result that a REPLY has, or
-- neither; or it is not known.
pub data Cause : Type 0 where
  unknown no_event : Cause
  typed : CommandType → Cause
  got_payload : PayloadType → Bool → Cause

pub data CanBe : Cause → Cause → Type 0 where
  unsure : {k : Cause} → CanBe unknown k
  certain : {k : Cause} → CanBe k k

-- Only `/auth` leads to Auth, only a REPLY that accepts leads from there to Open, and only one that
-- refuses to NotAuth; Error and End may follow on anything.
pub data Move (c : Cause) : State → State → Type 0 where
  try_auth :
      {s : State} → CanBe c (typed auth_command) → MayAuthenticate s → Move c s authenticating
  accept : CanBe c (got_payload reply true) → Move c authenticating open_state
  decline : CanBe c (got_payload reply false) → Move c authenticating not_auth
  fail : {s : State} → Move c s error_state
  stop : {s : State} → Move c s end_state

pub data Way (c : Cause) (s : State) : State → Type 0 where
  here : Way c s s
  next : {t u : State} → Way c s t → Move c t u → Way c s u

infix 40 ◌⟶*◌
abbrev pub ◌⟶*◌ : State → State → Type 0
s ⟶* t = Way unknown s t

module _ {c : Cause} {from : State} where
  -- A reply counts in the states Auth and Open, and leads from the first to Open or NotAuth.
  pub reply-Way :
      (s : State)
      → CanBe c (got_payload reply true)
      → (not (is_authenticating s) && not (is_open s)) ≡ false
      → Way c from s
      → Way c from open_state
  reply-Way start may h p = cc
  reply-Way not_auth may h p = cc
  reply-Way authenticating may h p = next p (accept may)
  reply-Way open_state may h p = p
  reply-Way error_state may h p = cc
  reply-Way end_state may h p = cc

  pub decline-Way :
      (s : State)
      → CanBe c (got_payload reply false)
      → is_authenticating s ≡ true
      → Way c from s
      → Way c from not_auth
  decline-Way start may h p = cc
  decline-Way not_auth may h p = cc
  decline-Way authenticating may h p = next p (decline may)
  decline-Way open_state may h p = cc
  decline-Way error_state may h p = cc
  decline-Way end_state may h p = cc

  -- `/auth` counts at the start and after a refusal.
  pub auth-Way :
      (s : State)
      → CanBe c (typed auth_command)
      → (not (is_start s) && not (is_not_auth s)) ≡ false
      → Way c from s
      → Way c from authenticating
  auth-Way start may h p = next p (try_auth may at_start)
  auth-Way not_auth may h p = next p (try_auth may refused)
  auth-Way authenticating may h p = cc
  auth-Way open_state may h p = cc
  auth-Way error_state may h p = cc
  auth-Way end_state may h p = cc
