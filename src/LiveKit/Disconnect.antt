-- ===== src/LiveKit/Disconnect.antt =====
-- After `disconnect`, nothing that settles late brings the session back.
use ai_voice_assistants.Common.{ℕ, ◌≡◌, Bool, false, Option, none, List, [], ◌∷◌, arith, ◌≤◌}
use ai_voice_assistants.Common.Json.{Json}
use ai_voice_assistants.LiveKit.Runtime.{Status, connection_status}
use ai_voice_assistants.LiveKit.State.{Session, Phase, heartbeat_expired}
use ai_voice_assistants.LiveKit.Audio.{
  Activation, playback_settled, unmute_assistant, mute_assistant_gain, speech_started, speech_ended,
  interrupted, track_subscribed, attach_track, element_played, element_stopped, track_unsubscribed,
  active_speakers_changed,
}
use ai_voice_assistants.LiveKit.Packets.{Stamp, data_received}
use ai_voice_assistants.LiveKit.Connect.{
  token_received, room_joined, microphone_published, connect_failed, disconnect, room_reconnecting,
  room_reconnected, room_disconnected, toggle_mute, toggle_hands_free,
}
use ai_voice_assistants.LiveKit.Events.{Event, step, run}
use ai_voice_assistants.LiveKit.Invariant.{IsSound}

-- The session is down, and no generation from the current one on has been taken.
pub record IsDown (s : Session) : Type 0 where
  pub room : s.room ≡ none
  pub in_flight : s.connect_in_flight ≡ none
  pub status : s.connection_status ≡ Status.disconnected
  pub microphone : s.mic_stream ≡ none
  pub element : s.audio_element ≡ none
  pub timer : s.heartbeat_timer ≡ none
  pub bot : s.is_bot_speaking ≡ false
  pub unused : (g : ℕ) → s.generation ≤ g → s.phase g ≡ Phase.unused

disconnect-IsDown : {s : Session} → IsSound s → IsDown (disconnect s)
unfolding disconnect connection_status
disconnect-IsDown {s} v = grind arith

-- Every event but a call of `connect`.
abbrev pub IsNoConnect : Event → Type 0
IsNoConnect (Event.connect_called id) = ⊥
IsNoConnect _ = Unit

abbrev pub AllNoConnect : List Event → Type 0
AllNoConnect [] = Unit
AllNoConnect (e ∷ es) = IsNoConnect e × AllNoConnect es

module _ {s : Session} (d : IsDown s) where
  room_reconnecting-IsDown : (g r : ℕ) → IsDown (room_reconnecting g r s)
  unfolding room_reconnecting
  room_reconnecting-IsDown g r = grind arith

  room_reconnected-IsDown : (g r : ℕ) → IsDown (room_reconnected g r s)
  unfolding room_reconnected
  room_reconnected-IsDown g r = grind arith

  toggle_mute-IsDown : IsDown (toggle_mute s)
  unfolding toggle_mute
  toggle_mute-IsDown = grind arith

  toggle_hands_free-IsDown : IsDown (toggle_hands_free s)
  unfolding toggle_hands_free
  toggle_hands_free-IsDown = grind arith

  unmute_assistant-IsDown : IsDown (unmute_assistant s)
  unfolding unmute_assistant
  unmute_assistant-IsDown = grind arith

  mute_assistant_gain-IsDown : IsDown (mute_assistant_gain s)
  unfolding mute_assistant_gain
  mute_assistant_gain-IsDown = grind arith

  speech_started-IsDown : IsDown (speech_started s)
  unfolding speech_started
  speech_started-IsDown = grind arith

  speech_ended-IsDown : (b : Bool) → IsDown (speech_ended b s)
  unfolding speech_ended
  speech_ended-IsDown b = grind arith

  interrupted-IsDown : (b : Bool) → IsDown (interrupted b s)
  unfolding interrupted
  interrupted-IsDown b = grind arith

  playback_settled-IsDown : (a : Activation) (b : Bool) → IsDown (playback_settled a b s)
  unfolding playback_settled
  playback_settled-IsDown a b = grind arith

  attach_track-IsDown : (g r t : ℕ) → IsDown (attach_track g r t s)
  unfolding attach_track
  attach_track-IsDown g r t = grind arith

  track_subscribed-IsDown :
      (g r t : ℕ) (usable suspended : Bool) → IsDown (track_subscribed g r t usable suspended s)
  unfolding track_subscribed
  track_subscribed-IsDown g r t usable suspended = grind arith

  track_unsubscribed-IsDown : (g r t : ℕ) (b : Bool) → IsDown (track_unsubscribed g r t b s)
  unfolding track_unsubscribed
  track_unsubscribed-IsDown g r t b = grind arith

  active_speakers_changed-IsDown : (g r : ℕ) (b : Bool) → IsDown (active_speakers_changed g r b s)
  unfolding active_speakers_changed
  active_speakers_changed-IsDown g r b = grind arith

  element_played-IsDown : (g r t n : ℕ) → IsDown (element_played g r t n s)
  unfolding element_played
  element_played-IsDown g r t n = grind arith

  element_stopped-IsDown : (g r t : ℕ) → IsDown (element_stopped g r t s)
  unfolding element_stopped
  element_stopped-IsDown g r t = grind arith

  heartbeat_expired-IsDown : (r : ℕ) (b : Bool) → IsDown (heartbeat_expired r b s)
  unfolding heartbeat_expired
  heartbeat_expired-IsDown r b = grind arith

  data_received-IsDown :
      (g r : ℕ) (p : Option Json) (stamp : Stamp) → IsDown (data_received g r p stamp s)
  unfolding data_received
  data_received-IsDown g r p stamp = grind arith

  disconnect-IsDown_again : IsDown (disconnect s)
  unfolding disconnect connection_status
  disconnect-IsDown_again = grind arith

  token_received-IsDown : (g : ℕ) → IsDown (token_received g s)
  unfolding token_received
  token_received-IsDown g = grind arith

  room_joined-IsDown : (g : ℕ) → IsDown (room_joined g s)
  unfolding room_joined
  room_joined-IsDown g = grind arith

  microphone_published-IsDown : (g : ℕ) (m : Option ℕ) → IsDown (microphone_published g m s)
  unfolding microphone_published
  microphone_published-IsDown g m = grind arith

  connect_failed-IsDown : (g : ℕ) → IsDown (connect_failed g s)
  unfolding connect_failed
  connect_failed-IsDown g = grind arith

  room_disconnected-IsDown : (g r : ℕ) → IsDown (room_disconnected g r s)
  unfolding room_disconnected
  room_disconnected-IsDown g r = grind arith

  step-IsDown : (e : Event) → IsNoConnect e → IsDown (step e s)
  unfolding step
  step-IsDown (Event.connect_called id) ok = absurd ok
  step-IsDown Event.disconnect_called ok = disconnect-IsDown_again
  step-IsDown Event.mute_toggled ok = toggle_mute-IsDown
  step-IsDown Event.hands_free_toggled ok = toggle_hands_free-IsDown
  step-IsDown Event.unmute_called ok = unmute_assistant-IsDown
  step-IsDown Event.gain_muted ok = mute_assistant_gain-IsDown
  step-IsDown Event.speech_start ok = speech_started-IsDown
  step-IsDown (Event.speech_end b) ok = speech_ended-IsDown b
  step-IsDown (Event.interruption b) ok = interrupted-IsDown b
  step-IsDown (Event.token_arrived g) ok = token_received-IsDown g
  step-IsDown (Event.joined g) ok = room_joined-IsDown g
  step-IsDown (Event.threw g) ok = connect_failed-IsDown g
  step-IsDown (Event.microphone g m) ok = microphone_published-IsDown g m
  step-IsDown (Event.playback a b) ok = playback_settled-IsDown a b
  step-IsDown (Event.context_resumed g r t) ok = attach_track-IsDown g r t
  step-IsDown (Event.heartbeat_fired r b) ok = heartbeat_expired-IsDown r b
  step-IsDown (Event.reconnecting g r) ok = room_reconnecting-IsDown g r
  step-IsDown (Event.reconnected g r) ok = room_reconnected-IsDown g r
  step-IsDown (Event.room_left g r) ok = room_disconnected-IsDown g r
  step-IsDown (Event.packet g r p stamp) ok = data_received-IsDown g r p stamp
  step-IsDown (Event.subscribed g r t usable suspended) ok =
      track_subscribed-IsDown g r t usable suspended
  step-IsDown (Event.unsubscribed g r t b) ok = track_unsubscribed-IsDown g r t b
  step-IsDown (Event.speakers g r b) ok = active_speakers_changed-IsDown g r b
  step-IsDown (Event.played g r t n) ok = element_played-IsDown g r t n
  step-IsDown (Event.stopped g r t) ok = element_stopped-IsDown g r t

run-IsDown : (es : List Event) {s : Session} → AllNoConnect es → IsDown s → IsDown (run es s)
unfolding run
run-IsDown [] ok d = d
run-IsDown (e ∷ es) (ok, oks) d = run-IsDown es oks (step-IsDown d e ok)

-- Once `disconnect` is called on a sound session, whatever happens before the next call of `connect`
-- (a late token, a late join or microphone, packets, timers, audio), the session stays down: no room,
-- no microphone stream, no audio element, no timer, and the status "disconnected".
pub run-disconnect :
    (es : List Event) (s : Session) → IsSound s → AllNoConnect es → IsDown (run es (disconnect s))
run-disconnect es s v ok = run-IsDown es ok (disconnect-IsDown v)
