-- ===== src/VoiceBot/Events.antt =====
-- The event loop of mobile/src/hooks/useVoiceBot.ts: what the user, the room, the timers, and the
-- pending calls of the hook may do next, in any order.
use ai_voice_assistants.Common.{ℕ, Bool, Option, List, [], ◌∷◌}
use ai_voice_assistants.Common.Json.{Json}
use ai_voice_assistants.VoiceBot.Packets.{Packet}
use ai_voice_assistants.VoiceBot.State.{Call}
use ai_voice_assistants.VoiceBot.Calls.{
  initiate_call, end_call, end_settled, token_received, audio_started, room_joined, microphone_set,
  call_threw, failure_settled,
}
use ai_voice_assistants.VoiceBot.Room.{
  room_reconnecting, room_reconnected, track_subscribed, track_unsubscribed,
  active_speakers_changed, data_received, room_disconnected,
}
use ai_voice_assistants.VoiceBot.Controls.{
  toggle_mute, mute_failed, toggle_speakerphone, speakerphone_failed, interrupt, interrupt_ended,
  poll_levels, unmount,
}

pub data Event : Type 0 where
  initiate_called : Event
  end_called : Event
  end_finished : Event
  token_arrived : ℕ → Event
  audio_ready : ℕ → Event
  joined : ℕ → Event
  microphone : ℕ → Event
  threw : ℕ → Json → Event
  failure_finished : ℕ → Event
  reconnecting : ℕ → ℕ → Event
  reconnected : ℕ → ℕ → Event
  subscribed : ℕ → ℕ → Event
  unsubscribed : ℕ → ℕ → Bool → Event
  speakers : ℕ → ℕ → Bool → Event
  packet : ℕ → ℕ → Option Packet → Event
  room_left : ℕ → ℕ → Event
  mute_toggled : Event
  mute_threw : Bool → Json → Event
  speaker_toggled : Event
  speaker_threw : Bool → Json → Event
  interrupt_called : Bool → Event
  interrupt_timer : ℕ → Bool → Event
  levels : ℕ → ℕ → Event
  unmounted : Event

unfoldable pub step : Event → Call → Call
step Event.initiate_called s = initiate_call s
step Event.end_called s = end_call s
step Event.end_finished s = end_settled s
step (Event.token_arrived g) s = token_received g s
step (Event.audio_ready g) s = audio_started g s
step (Event.joined g) s = room_joined g s
step (Event.microphone g) s = microphone_set g s
step (Event.threw g thrown) s = call_threw g thrown s
step (Event.failure_finished g) s = failure_settled g s
step (Event.reconnecting g r) s = room_reconnecting g r s
step (Event.reconnected g r) s = room_reconnected g r s
step (Event.subscribed g r) s = track_subscribed g r s
step (Event.unsubscribed g r b) s = track_unsubscribed g r b s
step (Event.speakers g r b) s = active_speakers_changed g r b s
step (Event.packet g r p) s = data_received g r p s
step (Event.room_left g r) s = room_disconnected g r s
step Event.mute_toggled s = toggle_mute s
step (Event.mute_threw b thrown) s = mute_failed b thrown s
step Event.speaker_toggled s = toggle_speakerphone s
step (Event.speaker_threw b thrown) s = speakerphone_failed b thrown s
step (Event.interrupt_called b) s = (interrupt b s).0
step (Event.interrupt_timer r b) s = interrupt_ended r b s
step (Event.levels m n) s = poll_levels m n s
step Event.unmounted s = unmount s

unfoldable pub run : List Event → Call → Call
run [] s = s
run (e ∷ es) s = run es (step e s)
