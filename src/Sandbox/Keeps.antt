-- ===== src/Sandbox/Keeps.antt =====
-- Every timely event but a grant keeps the rules of the lock, and takes no lock.
use ai_voice_assistants.Common.{
  ℕ, ◌≡◌, refl, inl, inr, String, false, Option, none, some, arith, Bool-cases,
}
use ai_voice_assistants.Common.Json.{Json}
use ai_voice_assistants.LiveKit.Runtime.{AgentMessage, parse_agent_message}
use ai_voice_assistants.Sandbox.State.{Session, Phase}
use ai_voice_assistants.Sandbox.Connect.{LockAnswer, Answer, token_answered, token_at}
use ai_voice_assistants.Sandbox.Packets.{
  transcript_received, data_received, is_transcript, is_known, dispatched,
}
use ai_voice_assistants.Sandbox.Events.{Event, step}
use ai_voice_assistants.Sandbox.Lock.{
  IsLocked, IsTimely, is_grant, Keeps, start_session-Keeps, toggle_mute-Keeps, stop_session-Keeps,
  token_read-Keeps, room_joined-Keeps, microphone_captured-Keeps, context_closed-Keeps,
  microphone_published-Keeps, connect_threw-Keeps, second_passed-Keeps, heartbeat_fired-Keeps,
  track_subscribed-Keeps, playback_refused-Keeps, track_unsubscribed-Keeps,
  participant_disconnected-Keeps, lifecycle_received-Keeps, room_disconnected-Keeps,
  unmounted-Keeps, content-Keeps, refused-Keeps, lock_answered-IsLocked,
}

module _ {s : Session} (v : IsLocked s) where
  token_at-Keeps : (p : Phase) (a : Answer) → s.phase ≡ p → Keeps s (token_at p a s)
  token_at-Keeps Phase.fetching a h = token_read-Keeps v a h
  token_at-Keeps Phase.idle a h = (v, λ t. t)
  token_at-Keeps _ a h = (v, λ t. t)

  token_answered-Keeps : (a : Answer) → Keeps s (token_answered a s)
  unfolding token_answered
  token_answered-Keeps a = token_at-Keeps s.phase a refl

  transcript_received-Keeps :
      (shown : Option Json → String) (p : Json) (time : String)
      → Keeps s (transcript_received shown p time s)
  unfolding transcript_received
  transcript_received-Keeps shown p time = elim (Bool-cases (is_transcript p)) [
    | inl spoken ↦ rw spoken (elim (Bool-cases (is_known shown p s)) [
      | inl old ↦ rw old (v, λ t. t)
      | inr new ↦ rw new (content-Keeps v _ _)
    ])
    | inr other ↦ rw other (v, λ t. t)
  ]

  dispatched-Keeps :
      (shown : Option Json → String) (r : ℕ) (m : Option AgentMessage) (p : Json) (time : String)
      → Keeps s (dispatched shown r m p time s)
  dispatched-Keeps shown r (some m) p time = lifecycle_received-Keeps v r m
  dispatched-Keeps shown r none p time = transcript_received-Keeps shown p time

  data_received-Keeps :
      (shown : Option Json → String) (r : ℕ) (p : Option Json) (time : String)
      → Keeps s (data_received shown r p time s)
  unfolding data_received
  data_received-Keeps shown r none time = (v, λ t. t)
  data_received-Keeps shown r (some p) time =
      dispatched-Keeps shown r (parse_agent_message p) p time

  -- Every timely event but a grant keeps the rules and takes no lock.
  pub step-Keeps :
      (shown : Option Json → String) (e : Event)
      → IsTimely e s
      → is_grant e ≡ false
      → Keeps s (step shown e s)
  unfolding step
  step-Keeps shown Event.start t g = start_session-Keeps v
  step-Keeps shown Event.mute_toggled t g = toggle_mute-Keeps v
  step-Keeps shown Event.left t g = unmounted-Keeps v t
  step-Keeps shown (Event.stop ending time) t g = stop_session-Keeps v ending time
  step-Keeps shown (Event.lock LockAnswer.unsupported id time) t g = absurd t
  step-Keeps shown (Event.lock LockAnswer.granted id time) t g = absurd (ground arith)
  step-Keeps shown (Event.lock LockAnswer.taken id time) t g =
      refused-Keeps v LockAnswer.taken refl id time
  step-Keeps shown (Event.lock LockAnswer.failed id time) t g =
      refused-Keeps v LockAnswer.failed refl id time
  step-Keeps shown (Event.token answer) t g = token_answered-Keeps answer
  step-Keeps shown Event.joined t g = room_joined-Keeps v
  step-Keeps shown Event.captured t g = microphone_captured-Keeps v
  step-Keeps shown Event.context_was_closed t g = context_closed-Keeps v
  step-Keeps shown (Event.published visualizer) t g = microphone_published-Keeps v visualizer
  step-Keeps shown (Event.threw message) t g = connect_threw-Keeps v message
  step-Keeps shown Event.second t g = second_passed-Keeps v
  step-Keeps shown Event.heartbeat t g = heartbeat_fired-Keeps v
  step-Keeps shown (Event.subscribed track identity) t g = track_subscribed-Keeps v track identity
  step-Keeps shown Event.play_refused t g = playback_refused-Keeps v
  step-Keeps shown (Event.unsubscribed track) t g = track_unsubscribed-Keeps v track
  step-Keeps shown (Event.participant_left identity) t g = participant_disconnected-Keeps v identity
  step-Keeps shown (Event.packet room content time) t g =
      data_received-Keeps shown room content time
  step-Keeps shown (Event.room_left room) t g = room_disconnected-Keeps v room

  pub granted-IsLocked :
      (shown : Option Json → String) (id time : String)
      → s.holds_lock ≡ false
      → IsLocked (step shown (Event.lock LockAnswer.granted id time) s)
  unfolding step
  granted-IsLocked shown id time h = lock_answered-IsLocked v id time h
