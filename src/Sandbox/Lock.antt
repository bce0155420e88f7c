-- ===== src/Sandbox/Lock.antt =====
-- The browser's lock and the page's room: a page that is not left while it connects has a room only
-- while it holds the lock.
use ai_voice_assistants.Common.{
  ℕ, ◌≡◌, ◌≢◌, inl, inr, List, String, Bool, true, false, Option, none, some, arith, Bool-cases,
}
use ai_voice_assistants.Common.Json.{Json, property}
use ai_voice_assistants.LiveKit.Runtime.{AgentMessage}
use ai_voice_assistants.Sandbox.State.{
  Session, Phase, Notice, Message, initial, second_passed, heartbeat_fired, toggle_mute,
}
use ai_voice_assistants.Sandbox.Connect.{
  LockAnswer, Answer, Visualizer, start_session, lock_answered, context_closed, caught, token_read,
  read_body, opened, is_complete, refusal, owns, room_joined, microphone_captured,
  microphone_published, connect_threw, stop_session, unmounted, room_disconnected,
}
use ai_voice_assistants.Sandbox.Packets.{
  track_subscribed, playback_refused, track_unsubscribed, participant_disconnected,
  lifecycle_received,
}
use ai_voice_assistants.Sandbox.Events.{Event}

pub record IsLocked (s : Session) : Type 0 where
  -- a room is held under the lock
  pub room : (r : ℕ) → s.room ≡ some r → s.holds_lock ≡ true
  -- so is the wait for a token, with no room yet
  pub fetching : s.phase ≡ Phase.fetching → (s.holds_lock ≡ true) × (s.room ≡ none)
  pub locking : s.phase ≡ Phase.locking → s.room ≡ none
  pub closing : (m : Notice) → s.phase ≡ Phase.closing m → s.room ≡ none
  -- for nothing else is the lock held
  pub free : s.phase ≢ Phase.fetching → s.room ≡ none → s.holds_lock ≡ false

-- The page is not left while a call of `startSession` is in flight, and the browser has the Locks API:
-- without it `acquireVoiceSessionLock` takes no lock, and there is none to speak of.
abbrev pub IsTimely : Event → Session → Type 0
IsTimely Event.left s = s.phase ≡ Phase.idle
IsTimely (Event.lock LockAnswer.unsupported id time) s = ⊥
IsTimely _ s = Unit

abbrev pub is_grant : Event → Bool
is_grant (Event.lock LockAnswer.granted id time) = true
is_grant _ = false

-- What an event other than a grant must do: it keeps the rules, and takes no lock.
abbrev pub Keeps : Session → Session → Type 0
Keeps s s' = IsLocked s' × (s'.holds_lock ≡ true → s.holds_lock ≡ true)

pub initial-IsLocked : IsLocked initial
initial-IsLocked = ground arith

module _ {s : Session} (v : IsLocked s) where
  pub start_session-Keeps : Keeps s (start_session s)
  unfolding start_session
  start_session-Keeps = grind arith

  pub toggle_mute-Keeps : Keeps s (toggle_mute s)
  unfolding toggle_mute
  toggle_mute-Keeps = grind arith

  pub stop_session-Keeps : (a b : String) → Keeps s (stop_session a b s)
  unfolding stop_session
  stop_session-Keeps a b = grind arith

  pub caught-Keeps : (m : Notice) → Keeps s (caught m s)
  unfolding caught
  caught-Keeps m = grind arith

  pub opened-Keeps : (n : Option Json) → s.phase ≡ Phase.fetching → Keeps s (opened n s)
  opened-Keeps n h = grind arith

  pub read_body-Keeps : (b : Option Json) → s.phase ≡ Phase.fetching → Keeps s (read_body b s)
  read_body-Keeps none h = caught-Keeps Notice.not_json
  read_body-Keeps (some body) h = elim (Bool-cases (is_complete body)) [
    | inl whole ↦ rw whole (opened-Keeps (property "room" body) h)
    | inr partial ↦ rw partial (caught-Keeps Notice.incomplete_token)
  ]

  pub token_read-Keeps : (a : Answer) → s.phase ≡ Phase.fetching → Keeps s (token_read a s)
  token_read-Keeps a h = elim (Bool-cases a.is_ok) [
    | inl good ↦ rw good (read_body-Keeps a.body h)
    | inr bad ↦ rw bad (caught-Keeps (refusal a))
  ]

  pub room_joined-Keeps : Keeps s (room_joined s)
  unfolding room_joined
  room_joined-Keeps = grind arith

  pub microphone_captured-Keeps : Keeps s (microphone_captured s)
  unfolding microphone_captured
  microphone_captured-Keeps = grind arith

  pub context_closed-Keeps : Keeps s (context_closed s)
  unfolding context_closed
  context_closed-Keeps = grind arith

  pub microphone_published-Keeps : (v' : Visualizer) → Keeps s (microphone_published v' s)
  unfolding microphone_published
  microphone_published-Keeps v' = grind arith

  pub connect_threw-Keeps : (m : Option String) → Keeps s (connect_threw m s)
  unfolding connect_threw
  connect_threw-Keeps m = grind arith

  pub second_passed-Keeps : Keeps s (second_passed s)
  unfolding second_passed
  second_passed-Keeps = grind arith

  pub heartbeat_fired-Keeps : Keeps s (heartbeat_fired s)
  unfolding heartbeat_fired
  heartbeat_fired-Keeps = grind arith

  pub track_subscribed-Keeps : (t : ℕ) (i : String) → Keeps s (track_subscribed t i s)
  unfolding track_subscribed
  track_subscribed-Keeps t i = grind arith

  pub playback_refused-Keeps : Keeps s (playback_refused s)
  unfolding playback_refused
  playback_refused-Keeps = grind arith

  pub track_unsubscribed-Keeps : (t : ℕ) → Keeps s (track_unsubscribed t s)
  unfolding track_unsubscribed
  track_unsubscribed-Keeps t = grind arith

  pub participant_disconnected-Keeps : (i : String) → Keeps s (participant_disconnected i s)
  unfolding participant_disconnected
  participant_disconnected-Keeps i = grind arith

  pub lifecycle_received-Keeps : (r : ℕ) (m : AgentMessage) → Keeps s (lifecycle_received r m s)
  unfolding lifecycle_received
  lifecycle_received-Keeps r m = grind arith

  pub room_disconnected-Keeps : (r : ℕ) → Keeps s (room_disconnected r s)
  unfolding room_disconnected
  room_disconnected-Keeps r = grind arith

  pub unmounted-Keeps : s.phase ≡ Phase.idle → Keeps s (unmounted s)
  unfolding unmounted
  unmounted-Keeps h = grind arith

  pub content-Keeps :
      (ids : List Json) (ms : List Message)
      → Keeps s (record s { transcript_ids = ids; messages = ms })
  content-Keeps ids ms = grind arith

  pub refused-Keeps :
      (a : LockAnswer) → owns a ≡ false → (id time : String) → Keeps s (lock_answered a id time s)
  unfolding lock_answered
  refused-Keeps a h id time = grind arith

  pub lock_answered-IsLocked :
      (id time : String)
      → s.holds_lock ≡ false
      → IsLocked (lock_answered LockAnswer.granted id time s)
  unfolding lock_answered
  lock_answered-IsLocked id time h = grind arith
