-- ===== src/LiveKit/Tidy.antt =====
-- No room is leaked: `disconnect` is called on every room that the session has made and given up.
use ai_voice_assistants.Common.{
  ℕ, ◌≡◌, ◌⊎◌, String, Bool, true, Option, none, some, List, [], ◌∷◌, arith, contains,
}
use ai_voice_assistants.Common.Json.{Json}
use ai_voice_assistants.LiveKit.Runtime.{AgentMessage}
use ai_voice_assistants.LiveKit.State.{Session, initial, fail_current_session, heartbeat_expired}
use ai_voice_assistants.LiveKit.Audio.{
  Activation, playback_settled, unmute_assistant, mute_assistant_gain, speech_started, speech_ended,
  interrupted, track_subscribed, attach_track, element_played, element_stopped, track_unsubscribed,
  active_speakers_changed,
}
use ai_voice_assistants.LiveKit.Packets.{
  Stamp, content_received, agent_message_received, data_received,
}
use ai_voice_assistants.LiveKit.Connect.{
  connect, token_received, room_joined, microphone_published, connect_failed, disconnect,
  room_reconnecting, room_reconnected, room_disconnected, toggle_mute, toggle_hands_free,
}
use ai_voice_assistants.LiveKit.Events.{Event, step, run}
use ai_voice_assistants.LiveKit.Invariant.{IsSound, step-IsSound, initial-IsSound}

-- The room is the current one, or it has been closed.
abbrev pub IsAccounted : ℕ → Session → Type 0
IsAccounted r s = (s.room ≡ some r) ⊎ (contains s.closed r ≡ true)

pub record IsTidy (s : Session) : Type 0 where
  pub covered : (r : ℕ) → contains s.opened r ≡ true → IsAccounted r s

module _ {s : Session} (v : IsSound s) (tidy : IsTidy s) where
  disconnect-IsTidy : IsTidy (disconnect s)
  unfolding disconnect
  disconnect-IsTidy = record { covered = λ x h. grind (arith, v.fetching, tidy.covered x) }

  token_received-IsTidy : (g : ℕ) → IsTidy (token_received g s)
  unfolding token_received
  token_received-IsTidy g = record { covered = λ x h. grind (arith, v.fetching, tidy.covered x) }

  room_joined-IsTidy : (g : ℕ) → IsTidy (room_joined g s)
  unfolding room_joined
  room_joined-IsTidy g = record { covered = λ x h. grind (arith, v.fetching, tidy.covered x) }

  microphone_published-IsTidy : (g : ℕ) (m : Option ℕ) → IsTidy (microphone_published g m s)
  unfolding microphone_published
  microphone_published-IsTidy g m = record {
    covered = λ x h. grind (arith, v.fetching, tidy.covered x);
  }

  connect_failed-IsTidy : (g : ℕ) → IsTidy (connect_failed g s)
  unfolding connect_failed
  connect_failed-IsTidy g = record { covered = λ x h. grind (arith, v.fetching, tidy.covered x) }

  room_disconnected-IsTidy : (g r : ℕ) → IsTidy (room_disconnected g r s)
  unfolding room_disconnected
  room_disconnected-IsTidy g r = record {
    covered = λ x h. grind (arith, v.fetching, tidy.covered x);
  }

  fail_current_session-IsTidy : (r : ℕ) → IsTidy (fail_current_session r s)
  unfolding fail_current_session
  fail_current_session-IsTidy r = record {
    covered = λ x h. grind (arith, v.fetching, tidy.covered x);
  }

  agent_message_received-IsTidy : (r : ℕ) (m : AgentMessage) → IsTidy (agent_message_received r m s)
  unfolding agent_message_received
  agent_message_received-IsTidy r m = record {
    covered = λ x h. grind (arith, v.fetching, tidy.covered x);
  }

  connect-IsTidy : (id : String) → IsTidy (connect id s)
  unfolding connect
  connect-IsTidy id = record { covered = λ x h. ground (arith, tidy.covered x) }

  room_reconnecting-IsTidy : (g r : ℕ) → IsTidy (room_reconnecting g r s)
  unfolding room_reconnecting
  room_reconnecting-IsTidy g r = record { covered = λ x h. ground (arith, tidy.covered x) }

  room_reconnected-IsTidy : (g r : ℕ) → IsTidy (room_reconnected g r s)
  unfolding room_reconnected
  room_reconnected-IsTidy g r = record { covered = λ x h. ground (arith, tidy.covered x) }

  toggle_mute-IsTidy : IsTidy (toggle_mute s)
  unfolding toggle_mute
  toggle_mute-IsTidy = record { covered = λ x h. ground (arith, tidy.covered x) }

  toggle_hands_free-IsTidy : IsTidy (toggle_hands_free s)
  unfolding toggle_hands_free
  toggle_hands_free-IsTidy = record { covered = λ x h. ground (arith, tidy.covered x) }

  unmute_assistant-IsTidy : IsTidy (unmute_assistant s)
  unfolding unmute_assistant
  unmute_assistant-IsTidy = record { covered = λ x h. ground (arith, tidy.covered x) }

  mute_assistant_gain-IsTidy : IsTidy (mute_assistant_gain s)
  unfolding mute_assistant_gain
  mute_assistant_gain-IsTidy = record { covered = λ x h. ground (arith, tidy.covered x) }

  speech_started-IsTidy : IsTidy (speech_started s)
  unfolding speech_started
  speech_started-IsTidy = record { covered = λ x h. ground (arith, tidy.covered x) }

  speech_ended-IsTidy : (b : Bool) → IsTidy (speech_ended b s)
  unfolding speech_ended
  speech_ended-IsTidy b = record { covered = λ x h. ground (arith, tidy.covered x) }

  interrupted-IsTidy : (b : Bool) → IsTidy (interrupted b s)
  unfolding interrupted
  interrupted-IsTidy b = record { covered = λ x h. ground (arith, tidy.covered x) }

  playback_settled-IsTidy : (a : Activation) (b : Bool) → IsTidy (playback_settled a b s)
  unfolding playback_settled
  playback_settled-IsTidy a b = record { covered = λ x h. ground (arith, tidy.covered x) }

  attach_track-IsTidy : (g r t : ℕ) → IsTidy (attach_track g r t s)
  unfolding attach_track
  attach_track-IsTidy g r t = record { covered = λ x h. ground (arith, tidy.covered x) }

  track_subscribed-IsTidy :
      (g r t : ℕ) (usable suspended : Bool) → IsTidy (track_subscribed g r t usable suspended s)
  unfolding track_subscribed
  track_subscribed-IsTidy g r t usable suspended = record {
    covered = λ x h. ground (arith, tidy.covered x);
  }

  track_unsubscribed-IsTidy : (g r t : ℕ) (b : Bool) → IsTidy (track_unsubscribed g r t b s)
  unfolding track_unsubscribed
  track_unsubscribed-IsTidy g r t b = record { covered = λ x h. ground (arith, tidy.covered x) }

  active_speakers_changed-IsTidy : (g r : ℕ) (b : Bool) → IsTidy (active_speakers_changed g r b s)
  unfolding active_speakers_changed
  active_speakers_changed-IsTidy g r b = record { covered = λ x h. ground (arith, tidy.covered x) }

  element_played-IsTidy : (g r t n : ℕ) → IsTidy (element_played g r t n s)
  unfolding element_played
  element_played-IsTidy g r t n = record { covered = λ x h. ground (arith, tidy.covered x) }

  element_stopped-IsTidy : (g r t : ℕ) → IsTidy (element_stopped g r t s)
  unfolding element_stopped
  element_stopped-IsTidy g r t = record { covered = λ x h. ground (arith, tidy.covered x) }

  heartbeat_expired-IsTidy : (r : ℕ) (b : Bool) → IsTidy (heartbeat_expired r b s)
  unfolding heartbeat_expired
  heartbeat_expired-IsTidy r b = record { covered = λ x h. ground (arith, tidy.covered x) }

  content_received-IsTidy : (e : Json) (stamp : Stamp) → IsTidy (content_received e stamp s)
  unfolding content_received
  content_received-IsTidy e stamp = record { covered = λ x h. ground (arith, tidy.covered x) }

  data_received-IsTidy :
      (g r : ℕ) (p : Option Json) (stamp : Stamp) → IsTidy (data_received g r p stamp s)
  unfolding data_received
  data_received-IsTidy g r none stamp = record { covered = λ x h. grind (arith, tidy.covered x) }
  data_received-IsTidy g r (some event) stamp =
      grind (arith, content_received-IsTidy event stamp, agent_message_received-IsTidy)

  step-IsTidy : (e : Event) → IsTidy (step e s)
  unfolding step
  step-IsTidy (Event.connect_called id) = connect-IsTidy id
  step-IsTidy Event.disconnect_called = disconnect-IsTidy
  step-IsTidy Event.mute_toggled = toggle_mute-IsTidy
  step-IsTidy Event.hands_free_toggled = toggle_hands_free-IsTidy
  step-IsTidy Event.unmute_called = unmute_assistant-IsTidy
  step-IsTidy Event.gain_muted = mute_assistant_gain-IsTidy
  step-IsTidy Event.speech_start = speech_started-IsTidy
  step-IsTidy (Event.speech_end b) = speech_ended-IsTidy b
  step-IsTidy (Event.interruption b) = interrupted-IsTidy b
  step-IsTidy (Event.token_arrived g) = token_received-IsTidy g
  step-IsTidy (Event.joined g) = room_joined-IsTidy g
  step-IsTidy (Event.threw g) = connect_failed-IsTidy g
  step-IsTidy (Event.microphone g m) = microphone_published-IsTidy g m
  step-IsTidy (Event.playback a b) = playback_settled-IsTidy a b
  step-IsTidy (Event.context_resumed g r t) = attach_track-IsTidy g r t
  step-IsTidy (Event.heartbeat_fired r b) = heartbeat_expired-IsTidy r b
  step-IsTidy (Event.reconnecting g r) = room_reconnecting-IsTidy g r
  step-IsTidy (Event.reconnected g r) = room_reconnected-IsTidy g r
  step-IsTidy (Event.room_left g r) = room_disconnected-IsTidy g r
  step-IsTidy (Event.packet g r p stamp) = data_received-IsTidy g r p stamp
  step-IsTidy (Event.subscribed g r t usable suspended) =
      track_subscribed-IsTidy g r t usable suspended
  step-IsTidy (Event.unsubscribed g r t b) = track_unsubscribed-IsTidy g r t b
  step-IsTidy (Event.speakers g r b) = active_speakers_changed-IsTidy g r b
  step-IsTidy (Event.played g r t n) = element_played-IsTidy g r t n
  step-IsTidy (Event.stopped g r t) = element_stopped-IsTidy g r t

run-IsTidy : (es : List Event) {s : Session} → IsSound s → IsTidy s → IsTidy (run es s)
unfolding run
run-IsTidy [] v t = t
run-IsTidy (e ∷ es) v t = run-IsTidy es (step-IsSound e v) (step-IsTidy v t e)

-- After any events from the start, in any order, every room that the hook has made is the current
-- room, or was told to disconnect, or has said that it had: no room is left joined behind the hook's
-- back, whichever awaits settle late.
pub run-IsAccounted :
    (es : List Event) (r : ℕ)
    → contains (run es initial).opened r ≡ true
    → IsAccounted r (run es initial)
run-IsAccounted es r h =
    (run-IsTidy es initial-IsSound (record { covered = λ x e. ground arith })).covered r h
