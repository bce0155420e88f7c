-- ===== src/LiveKit/Speech.antt =====
-- Barge-in: the assistant stays silent while the user speaks, and it is cancelled once.
use ai_voice_assistants.Common.{
  ℕ, ◌≡◌, Bool, true, false, none, some, List, [], ◌∷◌, ◌++◌, arith, if◌then◌else◌, ◌&&◌, not,
}
use ai_voice_assistants.Common.Json.{bool, truthy, is_text}
use ai_voice_assistants.LiveKit.State.{Session, Message, heartbeat_expired}
use ai_voice_assistants.LiveKit.Audio.{
  Activation, playback_settled, begin_activation, unmute_assistant, mute_assistant_gain,
  speech_started, mark_interrupted, interrupted, element_played, element_stopped,
  track_unsubscribed, active_speakers_changed,
}
use ai_voice_assistants.LiveKit.Packets.{data_received, content_received, agent_message_received}
use ai_voice_assistants.LiveKit.Connect.{
  connect, token_received, room_joined, microphone_published, connect_failed, disconnect,
  room_reconnecting, room_reconnected, room_disconnected, toggle_mute, toggle_hands_free,
}
use ai_voice_assistants.LiveKit.Events.{Event, step}

-- The events that may raise the gain of a node while the user speaks: a playback that was started
-- before, a new track, and the end of the user's speech.
abbrev pub IsQuiet : Event → Type 0
IsQuiet (Event.playback a activated) = ⊥
IsQuiet (Event.subscribed g r t usable suspended) = ⊥
IsQuiet (Event.context_resumed g r t) = ⊥
IsQuiet (Event.speech_end agent_speaks) = ⊥
IsQuiet _ = Unit

-- While the user speaks, no other event than a playback that was started earlier, a new track, or the
-- end of the user's speech makes a gain node audible that was not.
pub step-keeps_silence :
    (e : Event) (s : Session) (gain : ℕ)
    → IsQuiet e
    → s.is_user_speaking ≡ true
    → s.is_audible gain ≡ false
    → (step e s).is_audible gain ≡ false
unfolding step
step-keeps_silence (Event.connect_called id) s gain q u h = unfold connect in ground arith
step-keeps_silence Event.disconnect_called s gain q u h = unfold disconnect in ground arith
step-keeps_silence Event.mute_toggled s gain q u h = unfold toggle_mute in ground arith
step-keeps_silence Event.hands_free_toggled s gain q u h = unfold toggle_hands_free in ground arith
step-keeps_silence Event.unmute_called s gain q u h = unfold unmute_assistant in ground arith
step-keeps_silence Event.gain_muted s gain q u h = unfold mute_assistant_gain in ground arith
step-keeps_silence Event.speech_start s gain q u h = unfold speech_started in ground arith
step-keeps_silence (Event.interruption c) s gain q u h = unfold interrupted in ground arith
step-keeps_silence (Event.token_arrived g) s gain q u h = unfold token_received in ground arith
step-keeps_silence (Event.joined g) s gain q u h = unfold room_joined in ground arith
step-keeps_silence (Event.threw g) s gain q u h = unfold connect_failed in ground arith
step-keeps_silence (Event.microphone g m) s gain q u h = unfold microphone_published in ground arith
step-keeps_silence (Event.heartbeat_fired r c) s gain q u h =
    unfold heartbeat_expired in ground arith
step-keeps_silence (Event.reconnecting g r) s gain q u h = unfold room_reconnecting in ground arith
step-keeps_silence (Event.reconnected g r) s gain q u h = unfold room_reconnected in ground arith
step-keeps_silence (Event.room_left g r) s gain q u h = unfold room_disconnected in ground arith
step-keeps_silence (Event.packet g r none stamp) s gain q u h = unfold data_received in ground arith
step-keeps_silence (Event.packet g r (some p) stamp) s gain q u h =
    unfold data_received content_received agent_message_received in ground arith
step-keeps_silence (Event.unsubscribed g r t c) s gain q u h =
    unfold track_unsubscribed in ground arith
step-keeps_silence (Event.speakers g r b) s gain q u h =
    unfold active_speakers_changed in ground arith
step-keeps_silence (Event.played g r t n) s gain q u h = unfold element_played in ground arith
step-keeps_silence (Event.stopped g r t) s gain q u h = unfold element_stopped in ground arith
step-keeps_silence _ s gain q u h = absurd q

-- While the user speaks no playback is started; but a playback that was started just before the user
-- began to speak, and is allowed then, makes its gain node audible while the user speaks.
pub playback_settled-speech_started :
    (s : Session) (a : Activation)
    → begin_activation s ≡ some a
    → (begin_activation (speech_started s) ≡ none)
      × ((playback_settled a true (speech_started s)).is_user_speaking ≡ true)
      × ((playback_settled a true (speech_started s)).is_audible a.gain ≡ true)
unfolding begin_activation speech_started playback_settled
playback_settled-speech_started s a h = (ground arith, ground arith, ground arith)

-- An interruption tells the agent exactly when the assistant is speaking in a connected room; then
-- the assistant is no longer shown to speak. A second one changes nothing until the assistant
-- speaks again, so one utterance is cancelled once.
pub interrupted_once :
    (connected again : Bool) (s : Session)
    → ((interrupted connected s).is_bot_speaking ≡ false)
      × (interrupted again (interrupted connected s) ≡ interrupted connected s)
      × ((r : ℕ)
          → s.room ≡ some r
          → (interrupted connected s).cancels
            ≡ (if s.is_bot_speaking && connected then r ∷ s.cancels else s.cancels))
      × (s.room ≡ none → (interrupted connected s).cancels ≡ s.cancels)
unfolding interrupted
interrupted_once connected again s =
    (ground arith, ground arith, λ r h. ground arith, λ h. ground arith)

abbrev pub mark : Message → Message
mark m =
    if is_text (some m.speaker) "assistant" && not (truthy m.is_interrupted)
    then record m { is_interrupted = bool true }
    else m

-- An interruption leaves every message but the last as it is, and marks the last one if it is the
-- assistant's.
pub mark_interrupted-append :
    (ms : List Message) (m : Message) → mark_interrupted (ms ++ m ∷ []) ≡ ms ++ mark m ∷ []
unfolding mark_interrupted
mark_interrupted-append [] m = ground arith
mark_interrupted-append (k ∷ []) m = ground arith
mark_interrupted-append (k ∷ k' ∷ ms) m = ground (arith, mark_interrupted-append (k' ∷ ms) m)
