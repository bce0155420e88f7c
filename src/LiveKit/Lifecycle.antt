-- ===== src/LiveKit/Lifecycle.antt =====
-- The course of a session: a call that goes well ends connected, and a silent agent ends it.
use ai_voice_assistants.Common.{
  ℕ, ◌+◌, ◌≡◌, String, Bool, true, false, none, some, List, [], ◌∷◌, arith, contains,
}
use ai_voice_assistants.LiveKit.Runtime.{Status, connection_status}
use ai_voice_assistants.LiveKit.State.{Session, heartbeat_expired}
use ai_voice_assistants.LiveKit.Connect.{connect, token_received, room_joined, microphone_published}
use ai_voice_assistants.LiveKit.Audio.{
  Activation, begin_activation, playback_settled, track_subscribed,
}
use ai_voice_assistants.LiveKit.Events.{Event, step, run}
use ai_voice_assistants.LiveKit.Invariant.{IsSound}

-- The session `t` has failed out of `s`, whose room was `r`.
pub record HasFailed (s t : Session) (r : ℕ) : Type 0 where
  pub status : t.connection_status ≡ Status.error
  pub room : t.room ≡ none
  pub closed : contains t.closed r ≡ true
  pub microphone : t.mic_stream ≡ none
  pub element : t.audio_element ≡ none
  pub timer : t.heartbeat_timer ≡ none
  pub generation : t.generation ≡ s.generation + 1

-- When the heartbeat timer of a connected room fires, the session ends with the status "error": the
-- room is told to disconnect, the media is released, the timer is cleared, and the generation moves
-- on, so that every pending await of the session is stale.
pub heartbeat_expired-HasFailed :
    (s : Session) (room : ℕ)
    → IsSound s
    → s.heartbeat_timer ≡ some room
    → HasFailed s (heartbeat_expired room true s) room
unfolding heartbeat_expired connection_status
heartbeat_expired-HasFailed s room v h = grind (arith, v.timer room h)

-- The events of a call of `connect` that goes well, up to the agent's first track.
abbrev pub good_call : String → ℕ → ℕ → Bool → Session → List Event
good_call id microphone track usable s =
    let g = s.generation + 1 in
    Event.connect_called id
    ∷ Event.token_arrived g
    ∷ Event.joined g
    ∷ Event.microphone g (some microphone)
    ∷ Event.subscribed g s.next track usable false
    ∷ []

-- The session `t` is in the room `r`, with the microphone `stream` and the audio of the agent.
pub record IsAnswered (t : Session) (r stream : ℕ) : Type 0 where
  pub room : t.room ≡ some r
  pub in_flight : t.connect_in_flight ≡ none
  pub microphone : t.mic_stream ≡ some stream
  pub audio : t.has_assistant_audio ≡ true
  pub timer : t.heartbeat_timer ≡ some r

-- A call of `connect` with no room and no call in flight, whose awaits all succeed and that is
-- answered by the agent's audio track, ends in a session with that room, the published microphone,
-- the agent's audio, an armed heartbeat timer, and no call in flight.
pub run-good_call :
    (s : Session) (id : String) (microphone track : ℕ) (usable : Bool)
    → s.room ≡ none
    → s.connect_in_flight ≡ none
    → IsAnswered (run (good_call id microphone track usable s) s) s.next microphone
unfolding run step connect token_received room_joined microphone_published track_subscribed
run-good_call s id microphone track usable r f = ground arith

-- Playback that is started and allowed in one state leads to the status "connected", an audible gain
-- node, and no retry; blocked playback leads to "waiting_for_audio" and a retry.
pub playback_settled-begin :
    (s : Session) (a : Activation)
    → begin_activation s ≡ some a
    → s.has_assistant_audio ≡ true
    → ((playback_settled a true s).connection_status ≡ Status.connected)
      × ((playback_settled a true s).is_audible a.gain ≡ true)
      × ((playback_settled a true s).playback_retry_pending ≡ false)
      × ((playback_settled a false s).connection_status ≡ Status.waiting_for_audio)
      × ((playback_settled a false s).playback_retry_pending ≡ true)
unfolding begin_activation playback_settled connection_status
playback_settled-begin s a h audio = ground arith
