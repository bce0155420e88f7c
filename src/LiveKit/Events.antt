-- ===== src/LiveKit/Events.antt =====
-- The event loop of frontend/src/hooks/useLiveKitSession.ts: what the user, the room, the timers,
-- and the pending calls of the hook may do next, in any order.
use ai_voice_assistants.Common.{ℕ, String, Bool, Option, List, [], ◌∷◌}
use ai_voice_assistants.Common.Json.{Json}
use ai_voice_assistants.LiveKit.State.{Session, heartbeat_expired}
use ai_voice_assistants.LiveKit.Audio.{
  Activation, playback_settled, unmute_assistant, mute_assistant_gain, speech_started, speech_ended,
  interrupted, track_subscribed, attach_track, element_played, element_stopped, track_unsubscribed,
  active_speakers_changed,
}
use ai_voice_assistants.LiveKit.Packets.{Stamp, data_received}
use ai_voice_assistants.LiveKit.Connect.{
  connect, token_received, room_joined, microphone_published, connect_failed, disconnect,
  room_reconnecting, room_reconnected, room_disconnected, toggle_mute, toggle_hands_free,
}

-- An event of a room carries the generation and the room that its handler's closure holds.
pub data Event : Type 0 where
  -- the user, and the voice activity detector
  connect_called : String → Event
  disconnect_called mute_toggled hands_free_toggled unmute_called gain_muted : Event
  speech_start : Event
  speech_end interruption : Bool → Event
  -- the awaits of `connect` and of playback
  token_arrived joined threw : ℕ → Event
  microphone : ℕ → Option ℕ → Event
  playback : Activation → Bool → Event
  context_resumed : ℕ → ℕ → ℕ → Event
  -- the heartbeat timer
  heartbeat_fired : ℕ → Bool → Event
  -- the room
  reconnecting reconnected room_left : ℕ → ℕ → Event
  packet : ℕ → ℕ → Option Json → Stamp → Event
  subscribed : ℕ → ℕ → ℕ → Bool → Bool → Event
  unsubscribed : ℕ → ℕ → ℕ → Bool → Event
  speakers : ℕ → ℕ → Bool → Event
  played : ℕ → ℕ → ℕ → ℕ → Event
  stopped : ℕ → ℕ → ℕ → Event

unfoldable pub step : Event → Session → Session
step (Event.connect_called id) s = connect id s
step Event.disconnect_called s = disconnect s
step Event.mute_toggled s = toggle_mute s
step Event.hands_free_toggled s = toggle_hands_free s
step Event.unmute_called s = unmute_assistant s
step Event.gain_muted s = mute_assistant_gain s
step Event.speech_start s = speech_started s
step (Event.speech_end agent_speaks) s = speech_ended agent_speaks s
step (Event.interruption connected) s = interrupted connected s
step (Event.token_arrived g) s = token_received g s
step (Event.joined g) s = room_joined g s
step (Event.threw g) s = connect_failed g s
step (Event.microphone g m) s = microphone_published g m s
step (Event.playback a activated) s = playback_settled a activated s
step (Event.context_resumed g r t) s = attach_track g r t s
step (Event.heartbeat_fired r connected) s = heartbeat_expired r connected s
step (Event.reconnecting g r) s = room_reconnecting g r s
step (Event.reconnected g r) s = room_reconnected g r s
step (Event.room_left g r) s = room_disconnected g r s
step (Event.packet g r p stamp) s = data_received g r p stamp s
step (Event.subscribed g r t usable suspended) s = track_subscribed g r t usable suspended s
step (Event.unsubscribed g r t connected) s = track_unsubscribed g r t connected s
step (Event.speakers g r agent_speaks) s = active_speakers_changed g r agent_speaks s
step (Event.played g r t gain) s = element_played g r t gain s
step (Event.stopped g r t) s = element_stopped g r t s

unfoldable pub run : List Event → Session → Session
run [] s = s
run (e ∷ es) s = run es (step e s)
