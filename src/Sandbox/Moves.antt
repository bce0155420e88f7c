-- ===== src/Sandbox/Moves.antt =====
-- Every handler of a page moves its abstract call as it may.
use ai_voice_assistants.Common.{
  ℕ, ◌≡◌, refl, String, Option, none, some, arith, Bool-cases, inl, inr,
}
use ai_voice_assistants.Common.Json.{Json}
use ai_voice_assistants.LiveKit.Runtime.{AgentMessage, parse_agent_message}
use ai_voice_assistants.Sandbox.State.{
  Session, Phase, Notice, second_passed, heartbeat_fired, toggle_mute,
}
use ai_voice_assistants.Sandbox.Connect.{
  LockAnswer, Answer, Visualizer, start_session, lock_answered, context_closed, caught,
  token_answered, token_at, read_body, is_complete, refusal, room_joined, microphone_captured,
  microphone_published, connect_threw, stop_session, unmounted, room_disconnected,
}
use ai_voice_assistants.Sandbox.Packets.{
  track_subscribed, playback_refused, track_unsubscribed, participant_disconnected,
  lifecycle_received, transcript_received, data_received, is_transcript, is_known, dispatched,
}
use ai_voice_assistants.Sandbox.Events.{Event, step}
use ai_voice_assistants.Sandbox.Lock.{IsLocked, IsTimely}
use ai_voice_assistants.Sandbox.Call.{Call, MayMove, call_of}

stays : (c : Call) → MayMove c c
stays Call.no_call = tt
stays Call.asking = tt
stays Call.opening = tt
stays (Call.in_room r) = refl

abbrev pub Moves : Session → Session → Type 0
Moves s s' = MayMove (call_of s) (call_of s')

module _ {s : Session} (v : IsLocked s) where
  start_session-Moves : Moves s (start_session s)
  unfolding start_session
  start_session-Moves = grind arith

  toggle_mute-Moves : Moves s (toggle_mute s)
  unfolding toggle_mute
  toggle_mute-Moves = grind arith

  stop_session-Moves : (a b : String) → Moves s (stop_session a b s)
  unfolding stop_session
  stop_session-Moves a b = grind arith

  room_joined-Moves : Moves s (room_joined s)
  unfolding room_joined
  room_joined-Moves = grind arith

  microphone_captured-Moves : Moves s (microphone_captured s)
  unfolding microphone_captured
  microphone_captured-Moves = grind arith

  context_closed-Moves : Moves s (context_closed s)
  unfolding context_closed
  context_closed-Moves = grind arith

  microphone_published-Moves : (v' : Visualizer) → Moves s (microphone_published v' s)
  unfolding microphone_published
  microphone_published-Moves v' = grind arith

  connect_threw-Moves : (m : Option String) → Moves s (connect_threw m s)
  unfolding connect_threw
  connect_threw-Moves m = grind arith

  second_passed-Moves : Moves s (second_passed s)
  unfolding second_passed
  second_passed-Moves = grind arith

  heartbeat_fired-Moves : Moves s (heartbeat_fired s)
  unfolding heartbeat_fired
  heartbeat_fired-Moves = grind arith

  track_subscribed-Moves : (t : ℕ) (i : String) → Moves s (track_subscribed t i s)
  unfolding track_subscribed
  track_subscribed-Moves t i = grind arith

  track_unsubscribed-Moves : (t : ℕ) → Moves s (track_unsubscribed t s)
  unfolding track_unsubscribed
  track_unsubscribed-Moves t = grind arith

  participant_disconnected-Moves : (i : String) → Moves s (participant_disconnected i s)
  unfolding participant_disconnected
  participant_disconnected-Moves i = grind arith

  lifecycle_received-Moves : (r : ℕ) (m : AgentMessage) → Moves s (lifecycle_received r m s)
  unfolding lifecycle_received
  lifecycle_received-Moves r m = grind arith

  room_disconnected-Moves : (r : ℕ) → Moves s (room_disconnected r s)
  unfolding room_disconnected
  room_disconnected-Moves r = grind arith

  lock_answered-Moves : (a : LockAnswer) (id time : String) → Moves s (lock_answered a id time s)
  unfolding lock_answered
  lock_answered-Moves a id time = grind arith

  unmounted-Moves : s.phase ≡ Phase.idle → Moves s (unmounted s)
  unfolding unmounted
  unmounted-Moves h = grind arith

  caught-Moves : (m : Notice) → Moves s (caught m s)
  unfolding caught
  caught-Moves m = grind arith

  read_body-Moves : (b : Option Json) → s.phase ≡ Phase.fetching → Moves s (read_body b s)
  read_body-Moves none h = caught-Moves Notice.not_json
  read_body-Moves (some body) h = elim (Bool-cases (is_complete body)) [
    | inl whole ↦ rw whole (grind arith)
    | inr partial ↦ rw partial (caught-Moves Notice.incomplete_token)
  ]

  token_at-Moves : (p : Phase) (a : Answer) → s.phase ≡ p → Moves s (token_at p a s)
  token_at-Moves Phase.fetching a h = elim (Bool-cases a.is_ok) [
    | inl good ↦ rw good (read_body-Moves a.body h)
    | inr bad ↦ rw bad (caught-Moves (refusal a))
  ]
  token_at-Moves Phase.idle a h = stays (call_of s)
  token_at-Moves _ a h = stays (call_of s)

  token_answered-Moves : (a : Answer) → Moves s (token_answered a s)
  unfolding token_answered
  token_answered-Moves a = token_at-Moves s.phase a refl

  transcript_received-Moves :
      (shown : Option Json → String) (p : Json) (time : String)
      → Moves s (transcript_received shown p time s)
  unfolding transcript_received
  transcript_received-Moves shown p time = elim (Bool-cases (is_transcript p)) [
    | inl spoken ↦ rw spoken (elim (Bool-cases (is_known shown p s)) [
      | inl old ↦ rw old (stays (call_of s))
      | inr new ↦ rw new (stays (call_of s))
    ])
    | inr other ↦ rw other (stays (call_of s))
  ]

  data_received-Moves :
      (shown : Option Json → String) (r : ℕ) (p : Option Json) (time : String)
      → Moves s (data_received shown r p time s)
  unfolding data_received
  data_received-Moves shown r none time = stays (call_of s)
  data_received-Moves shown r (some p) time =
      elim (parse_agent_message p) as (λ m. Moves s (dispatched shown r m p time s)) [
        | some m ↦ lifecycle_received-Moves r m
        | none ↦ transcript_received-Moves shown p time
      ]

  pub step-Moves :
      (shown : Option Json → String) (e : Event) → IsTimely e s → Moves s (step shown e s)
  unfolding step playback_refused
  step-Moves shown Event.start t = start_session-Moves
  step-Moves shown Event.mute_toggled t = toggle_mute-Moves
  step-Moves shown Event.left t = unmounted-Moves t
  step-Moves shown (Event.stop ending time) t = stop_session-Moves ending time
  step-Moves shown (Event.lock answer id time) t = lock_answered-Moves answer id time
  step-Moves shown (Event.token answer) t = token_answered-Moves answer
  step-Moves shown Event.joined t = room_joined-Moves
  step-Moves shown Event.captured t = microphone_captured-Moves
  step-Moves shown Event.context_was_closed t = context_closed-Moves
  step-Moves shown (Event.published visualizer) t = microphone_published-Moves visualizer
  step-Moves shown (Event.threw message) t = connect_threw-Moves message
  step-Moves shown Event.second t = second_passed-Moves
  step-Moves shown Event.heartbeat t = heartbeat_fired-Moves
  step-Moves shown (Event.subscribed track identity) t = track_subscribed-Moves track identity
  step-Moves shown Event.play_refused t = stays (call_of s)
  step-Moves shown (Event.unsubscribed track) t = track_unsubscribed-Moves track
  step-Moves shown (Event.participant_left identity) t = participant_disconnected-Moves identity
  step-Moves shown (Event.packet room content time) t = data_received-Moves shown room content time
  step-Moves shown (Event.room_left room) t = room_disconnected-Moves room
