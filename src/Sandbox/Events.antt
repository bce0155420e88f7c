-- ===== src/Sandbox/Events.antt =====
-- What may happen next to a page of frontend/src/components/sandbox/TestingSandboxPage.tsx, in any
-- order: the user, the awaits of `startSession`, the room, and the timers.
use ai_voice_assistants.Common.{ℕ, String, Option}
use ai_voice_assistants.Common.Json.{Json}
use ai_voice_assistants.Sandbox.State.{Session, second_passed, heartbeat_fired, toggle_mute}
use ai_voice_assistants.Sandbox.Connect.{
  LockAnswer, Answer, Visualizer, start_session, lock_answered, context_closed, token_answered,
  room_joined, microphone_captured, microphone_published, connect_threw, stop_session, unmounted,
  room_disconnected,
}
use ai_voice_assistants.Sandbox.Packets.{
  track_subscribed, playback_refused, track_unsubscribed, participant_disconnected, data_received,
}

-- An event of a room carries the room that its handler's closure holds, where the handler reads it.
pub data Event : Type 0 where
  -- the user
  start mute_toggled left : Event
  stop : String → String → Event
  -- the awaits of `startSession`
  lock : LockAnswer → String → String → Event
  token : Answer → Event
  joined captured context_was_closed : Event
  published : Visualizer → Event
  threw : Option String → Event
  -- the timers
  second heartbeat : Event
  -- the room
  subscribed : ℕ → String → Event
  play_refused : Event
  unsubscribed : ℕ → Event
  participant_left : String → Event
  packet : ℕ → Option Json → String → Event
  room_left : ℕ → Event

module _ (shown : Option Json → String) where
  unfoldable pub step : Event → Session → Session
  step Event.start s = start_session s
  step Event.mute_toggled s = toggle_mute s
  step Event.left s = unmounted s
  step (Event.stop ending time) s = stop_session ending time s
  step (Event.lock answer id time) s = lock_answered answer id time s
  step (Event.token answer) s = token_answered answer s
  step Event.joined s = room_joined s
  step Event.captured s = microphone_captured s
  step Event.context_was_closed s = context_closed s
  step (Event.published visualizer) s = microphone_published visualizer s
  step (Event.threw message) s = connect_threw message s
  step Event.second s = second_passed s
  step Event.heartbeat s = heartbeat_fired s
  step (Event.subscribed track identity) s = track_subscribed track identity s
  step Event.play_refused s = playback_refused s
  step (Event.unsubscribed track) s = track_unsubscribed track s
  step (Event.participant_left identity) s = participant_disconnected identity s
  step (Event.packet room content time) s = data_received shown room content time s
  step (Event.room_left room) s = room_disconnected room s
