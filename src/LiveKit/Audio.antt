-- ===== src/LiveKit/Audio.antt =====
-- The audio side of frontend/src/hooks/useLiveKitSession.ts: playback, tracks, speakers, and what
-- useClientVAD does to the shared gain node.
use ai_voice_assistants.Common.{
  ℕ, ◌+◌, Bool, true, false, not, ◌&&◌, ◌||◌, Option, none, some, List, [], ◌∷◌, if◌then◌else◌,
  holds, is_some,
}
use ai_voice_assistants.Common.Json.{bool, truthy, is_text}
use ai_voice_assistants.LiveKit.Runtime.{LifecycleEvent, is_current_generation}
use ai_voice_assistants.LiveKit.State.{Session, Message, update, show, is_current}

-- What `activateAssistantAudio` holds on to across its await.
pub record Activation : Type 0 where
  pub generation : ℕ
  pub gain : ℕ
  pub element : ℕ

-- The part before the await; `none` is the early `return false`.
unfoldable pub begin_activation : Session → Option Activation
begin_activation s = elim s.gain_node [
  | none ↦ none
  | some gain ↦ elim s.audio_element [
    | none ↦ none
    | some element ↦
        if not (is_some s.audio_context) || s.is_user_speaking
        then none
        else some (record { generation = s.generation; gain = gain; element = element })
  ]
]

abbrev pub set_audible : ℕ → Bool → Session → Session
set_audible gain on s = record s { is_audible = update s.is_audible gain on }

-- The part after the await, with the result of `activateAudioPlayback`.
unfoldable pub playback_settled : Activation → Bool → Session → Session
playback_settled a activated s =
    if not (is_current_generation a.generation s.generation)
      || not (holds s.audio_element a.element)
    then s
    else if activated
    then show LifecycleEvent.audio_ready
        (set_audible a.gain true (record s { playback_retry_pending = false }))
    else if s.has_assistant_audio
    then show LifecycleEvent.audio_blocked (record s { playback_retry_pending = true })
    else record s { playback_retry_pending = true }

-- Sets the current gain node, if there is one.
abbrev pub set_gain : Option ℕ → Bool → Session → Session
set_gain none on s = s
set_gain (some gain) on s = set_audible gain on s

unfoldable pub unmute_assistant : Session → Session
unmute_assistant s = if s.is_user_speaking then s else set_gain s.gain_node true s

-- `muteAssistantGain` of useClientVAD, on the node that this hook hands to it.
unfoldable pub mute_assistant_gain : Session → Session
mute_assistant_gain s = set_gain s.gain_node false s

unfoldable pub speech_started : Session → Session
speech_started s = record s { is_user_speaking = true }

-- `agent_speaks`: whether a remote participant is among the room's active speakers.
unfoldable pub speech_ended : Bool → Session → Session
unfolding unmute_assistant
speech_ended agent_speaks s =
    let s' = unmute_assistant (record s { is_user_speaking = false }) in
    if is_some s'.room && agent_speaks then record s' { is_bot_speaking = true } else s'

-- Marks the last message, if the assistant is speaking it.
unfoldable pub mark_interrupted : List Message → List Message
mark_interrupted [] = []
mark_interrupted (m ∷ []) =
    if is_text (some m.speaker) "assistant" && not (truthy m.is_interrupted)
    then record m { is_interrupted = bool true } ∷ []
    else m ∷ []
mark_interrupted (m ∷ m' ∷ ms) = m ∷ mark_interrupted (m' ∷ ms)

-- `connected`: whether the state of the current room is "connected".
abbrev pub publish_cancel : Option ℕ → Bool → Session → Session
publish_cancel none connected s = s
publish_cancel (some room) connected s =
    if connected then record s { cancels = room ∷ s.cancels } else s

unfoldable pub interrupted : Bool → Session → Session
unfolding mark_interrupted
interrupted connected s =
    if not s.is_bot_speaking
    then s
    else let s' = publish_cancel s.room connected s in
      record s' { messages = mark_interrupted s'.messages; is_bot_speaking = false }

-- A later user gesture retries a blocked playback.
unfoldable pub retry_playback : Session → Option Activation
unfolding begin_activation
retry_playback s =
    if s.playback_retry_pending && not s.is_user_speaking then begin_activation s else none

-- The handler of TrackSubscribed up to its await. The new audio element is the number `next`;
-- `usable`: whether there is a context that is not closed.
unfoldable pub subscribe_track : ℕ → ℕ → ℕ → Bool → Session → Session
subscribe_track generation room track usable s =
    if is_current generation room s
    then record s {
      audio_element = some s.next;
      assistant_track = some track;
      has_assistant_audio = true;
      audio_context =
          if is_some s.audio_context && usable then s.audio_context else some (s.next + 1);
      next = s.next + 2;
    }
    else s

-- The rest of the handler: it builds the audio graph if the track is still the assistant's.
unfoldable pub attach_track : ℕ → ℕ → ℕ → Session → Session
attach_track generation room track s =
    if is_current generation room s && holds s.assistant_track track
    then set_audible (s.next + 1) true (record s {
      source_node = some s.next;
      gain_node = some (s.next + 1);
      analyser_node = some (s.next + 2);
      next = s.next + 3;
    })
    else s

-- `suspended`: whether the context has to be resumed first, which is awaited.
unfoldable pub track_subscribed : ℕ → ℕ → ℕ → Bool → Bool → Session → Session
unfolding subscribe_track attach_track
track_subscribed generation room track usable suspended s =
    let s' = subscribe_track generation room track usable s in
    if suspended then s' else attach_track generation room track s'

-- `onplay` of the element of a track, with the gain node of its graph.
unfoldable pub element_played : ℕ → ℕ → ℕ → ℕ → Session → Session
element_played generation room track gain s =
    if not (is_current generation room s) || not (holds s.assistant_track track)
    then s
    else if s.is_user_speaking
    then s
    else set_audible gain true s

-- `onpause` and `onended`.
unfoldable pub element_stopped : ℕ → ℕ → ℕ → Session → Session
element_stopped generation room track s =
    if not (is_current generation room s) || not (holds s.assistant_track track)
    then s
    else record s { is_bot_speaking = false }

unfoldable pub track_unsubscribed : ℕ → ℕ → ℕ → Bool → Session → Session
track_unsubscribed generation room track connected s =
    if not (is_current generation room s) || not (holds s.assistant_track track)
    then s
    else let s' = record s {
      audio_element = none;
      source_node = none;
      assistant_track = none;
      has_assistant_audio = false;
      playback_retry_pending = false;
      is_bot_speaking = false;
      gain_node = none;
      analyser_node = none;
    } in
      if connected then show LifecycleEvent.agent_unavailable s' else s'

unfoldable pub active_speakers_changed : ℕ → ℕ → Bool → Session → Session
active_speakers_changed generation room agent_speaks s =
    if not (is_current generation room s) || s.is_user_speaking
    then s
    else let s' = record s { is_bot_speaking = agent_speaks } in
      if agent_speaks then set_gain s'.gain_node true s' else s'
