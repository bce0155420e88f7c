-- ===== src/LiveKit/Invariant.antt =====
-- What holds of the voice session after any events: the timer, the media, and the status agree
-- with the room.
use ai_voice_assistants.Common.{
  ℕ, ◌<◌, ◌≡◌, inl, inr, String, Bool, true, false, Option, none, some, List, [], ◌∷◌, arith,
  Bool-cases, ◌&&◌,
}
use ai_voice_assistants.Common.Json.{Json, property, is_text, truthy_field}
use ai_voice_assistants.LiveKit.Packets.{
  Stamp, content_received, agent_message_received, data_received,
}
use ai_voice_assistants.LiveKit.Events.{Event, step, run}
use ai_voice_assistants.LiveKit.Runtime.{Status, AgentMessage, connection_status}
use ai_voice_assistants.LiveKit.State.{
  Session, Message, Task, Phase, initial, update, fail_current_session, heartbeat_expired,
}
use ai_voice_assistants.LiveKit.Connect.{
  connect, token_received, room_joined, microphone_published, connect_failed, disconnect,
  room_reconnecting, room_reconnected, room_disconnected, toggle_mute, toggle_hands_free,
}
use ai_voice_assistants.LiveKit.Audio.{
  Activation, playback_settled, unmute_assistant, mute_assistant_gain, speech_started, speech_ended,
  interrupted, track_subscribed, attach_track, element_played, element_stopped, track_unsubscribed,
  active_speakers_changed,
}

-- The statuses of a session that is over.
abbrev pub is_over : Status → Bool
is_over Status.disconnected = true
is_over Status.error = true
is_over _ = false

pub record IsSound (s : Session) : Type 0 where
  -- the call of `connect` in flight is that of the current generation
  pub in_flight : (g : ℕ) → s.connect_in_flight ≡ some g → g ≡ s.generation
  -- the armed heartbeat timer watches the current room
  pub timer : (r : ℕ) → s.heartbeat_timer ≡ some r → s.room ≡ some r
  -- the call that waits for its token has no room
  pub fetching : s.phase s.generation ≡ Phase.fetching → s.room ≡ none
  pub joining : (r : ℕ) → s.phase s.generation ≡ Phase.joining r → s.room ≡ some r
  pub publishing : (r : ℕ) → s.phase s.generation ≡ Phase.publishing r → s.room ≡ some r
  -- with no room there is no media, no audio to play, and nobody speaks for the assistant
  pub microphone : s.room ≡ none → s.mic_stream ≡ none
  pub element : s.room ≡ none → s.audio_element ≡ none
  pub gain : s.room ≡ none → s.gain_node ≡ none
  pub audio : s.room ≡ none → s.has_assistant_audio ≡ false
  pub bot : s.room ≡ none → s.is_bot_speaking ≡ false
  -- with no room and no call in flight the status says that the session is over
  pub over : s.room ≡ none → s.connect_in_flight ≡ none → is_over s.connection_status ≡ true
  pub waits :
      (g : ℕ)
      → s.room ≡ none
      → s.connect_in_flight ≡ some g
      → s.connection_status ≡ Status.connecting
  pub used : (g : ℕ) → s.generation < g → s.phase g ≡ Phase.unused

connect-IsSound : (id : String) {s : Session} → IsSound s → IsSound (connect id s)
unfolding connect
connect-IsSound id v = grind arith

disconnect-IsSound : {s : Session} → IsSound s → IsSound (disconnect s)
unfolding disconnect connection_status
disconnect-IsSound v = grind arith

token_received-IsSound : (g : ℕ) {s : Session} → IsSound s → IsSound (token_received g s)
unfolding token_received
token_received-IsSound g v = grind arith

room_joined-IsSound : (g : ℕ) {s : Session} → IsSound s → IsSound (room_joined g s)
unfolding room_joined connection_status
room_joined-IsSound g v = grind arith

microphone_published-IsSound :
    (g : ℕ) (m : Option ℕ) {s : Session} → IsSound s → IsSound (microphone_published g m s)
unfolding microphone_published connection_status
microphone_published-IsSound g none v = grind arith
microphone_published-IsSound g (some m) v = grind arith

connect_failed-IsSound : (g : ℕ) {s : Session} → IsSound s → IsSound (connect_failed g s)
unfolding connect_failed connection_status
connect_failed-IsSound g v = grind arith

room_reconnecting-IsSound : (g r : ℕ) {s : Session} → IsSound s → IsSound (room_reconnecting g r s)
unfolding room_reconnecting connection_status
room_reconnecting-IsSound g r v = grind arith

room_reconnected-IsSound : (g r : ℕ) {s : Session} → IsSound s → IsSound (room_reconnected g r s)
unfolding room_reconnected connection_status
room_reconnected-IsSound g r v = grind arith

room_disconnected-IsSound : (g r : ℕ) {s : Session} → IsSound s → IsSound (room_disconnected g r s)
unfolding room_disconnected connection_status
room_disconnected-IsSound g r v = grind arith

toggle_mute-IsSound : {s : Session} → IsSound s → IsSound (toggle_mute s)
unfolding toggle_mute
toggle_mute-IsSound v = grind arith

toggle_hands_free-IsSound : {s : Session} → IsSound s → IsSound (toggle_hands_free s)
unfolding toggle_hands_free
toggle_hands_free-IsSound v = grind arith

unmute_assistant-IsSound : {s : Session} → IsSound s → IsSound (unmute_assistant s)
unfolding unmute_assistant
unmute_assistant-IsSound v = grind arith

mute_assistant_gain-IsSound : {s : Session} → IsSound s → IsSound (mute_assistant_gain s)
unfolding mute_assistant_gain
mute_assistant_gain-IsSound v = grind arith

speech_started-IsSound : {s : Session} → IsSound s → IsSound (speech_started s)
unfolding speech_started
speech_started-IsSound v = grind arith

speech_ended-IsSound : (b : Bool) {s : Session} → IsSound s → IsSound (speech_ended b s)
unfolding speech_ended
speech_ended-IsSound b v = grind arith

interrupted-IsSound : (b : Bool) {s : Session} → IsSound s → IsSound (interrupted b s)
unfolding interrupted
interrupted-IsSound b v = grind arith

playback_settled-IsSound :
    (a : Activation) (b : Bool) {s : Session} → IsSound s → IsSound (playback_settled a b s)
unfolding playback_settled connection_status
playback_settled-IsSound a b v = grind arith

attach_track-IsSound : (g r t : ℕ) {s : Session} → IsSound s → IsSound (attach_track g r t s)
unfolding attach_track
attach_track-IsSound g r t v = grind arith

track_subscribed-IsSound :
    (g r t : ℕ) (usable suspended : Bool) {s : Session}
    → IsSound s
    → IsSound (track_subscribed g r t usable suspended s)
unfolding track_subscribed
track_subscribed-IsSound g r t usable suspended v = grind arith

track_unsubscribed-IsSound :
    (g r t : ℕ) (b : Bool) {s : Session} → IsSound s → IsSound (track_unsubscribed g r t b s)
unfolding track_unsubscribed connection_status
track_unsubscribed-IsSound g r t b v = grind arith

active_speakers_changed-IsSound :
    (g r : ℕ) (b : Bool) {s : Session} → IsSound s → IsSound (active_speakers_changed g r b s)
unfolding active_speakers_changed
active_speakers_changed-IsSound g r b v = grind arith

element_played-IsSound :
    (g r t n : ℕ) {s : Session} → IsSound s → IsSound (element_played g r t n s)
unfolding element_played
element_played-IsSound g r t n v = grind arith

element_stopped-IsSound : (g r t : ℕ) {s : Session} → IsSound s → IsSound (element_stopped g r t s)
unfolding element_stopped
element_stopped-IsSound g r t v = grind arith

fail_current_session-IsSound :
    (r : ℕ) {s : Session} → IsSound s → IsSound (fail_current_session r s)
unfolding fail_current_session connection_status
fail_current_session-IsSound r v = grind arith

heartbeat_expired-IsSound :
    (r : ℕ) (b : Bool) {s : Session} → IsSound s → IsSound (heartbeat_expired r b s)
unfolding heartbeat_expired connection_status
heartbeat_expired-IsSound r b v = grind arith

content-IsSound :
    (ms : List Message) (ts : List Task) {s : Session}
    → IsSound s
    → IsSound (record s { messages = ms; tasks = ts })
content-IsSound ms ts v = grind arith

content_received-IsSound :
    (event : Json) (stamp : Stamp) {s : Session}
    → IsSound s
    → IsSound (content_received event stamp s)
unfolding content_received
content_received-IsSound event stamp {s} v =
    elim (Bool-cases (is_text (property "type" event) "transcript")) [
      | inl transcript ↦ rw transcript (content-IsSound _ s.tasks v)
      | inr other ↦
          rw other
            (elim (Bool-cases (
              is_text (property "type" event) "task_update"
              && truthy_field (property "task" event))) [
                | inl update ↦ rw update (content-IsSound s.messages _ v)
                | inr ignored ↦ rw ignored v
              ])
    ]

-- A lifecycle message is read only in the current room.
agent_message_received-IsSound :
    (r : ℕ) (m : AgentMessage) {s : Session}
    → s.room ≡ some r
    → IsSound s
    → IsSound (agent_message_received r m s)
unfolding agent_message_received connection_status
agent_message_received-IsSound r m h v = grind (arith)

data_received-IsSound :
    (g r : ℕ) (packet : Option Json) (stamp : Stamp) {s : Session}
    → IsSound s
    → IsSound (data_received g r packet stamp s)
unfolding data_received
data_received-IsSound g r none stamp v = grind arith
data_received-IsSound g r (some event) stamp v =
    grind (arith, content_received-IsSound event stamp v, agent_message_received-IsSound)

-- Every event keeps the session sound.
pub step-IsSound : (e : Event) {s : Session} → IsSound s → IsSound (step e s)
unfolding step
step-IsSound (Event.connect_called id) v = connect-IsSound id v
step-IsSound Event.disconnect_called v = disconnect-IsSound v
step-IsSound Event.mute_toggled v = toggle_mute-IsSound v
step-IsSound Event.hands_free_toggled v = toggle_hands_free-IsSound v
step-IsSound Event.unmute_called v = unmute_assistant-IsSound v
step-IsSound Event.gain_muted v = mute_assistant_gain-IsSound v
step-IsSound Event.speech_start v = speech_started-IsSound v
step-IsSound (Event.speech_end b) v = speech_ended-IsSound b v
step-IsSound (Event.interruption b) v = interrupted-IsSound b v
step-IsSound (Event.token_arrived g) v = token_received-IsSound g v
step-IsSound (Event.joined g) v = room_joined-IsSound g v
step-IsSound (Event.threw g) v = connect_failed-IsSound g v
step-IsSound (Event.microphone g m) v = microphone_published-IsSound g m v
step-IsSound (Event.playback a b) v = playback_settled-IsSound a b v
step-IsSound (Event.context_resumed g r t) v = attach_track-IsSound g r t v
step-IsSound (Event.heartbeat_fired r b) v = heartbeat_expired-IsSound r b v
step-IsSound (Event.reconnecting g r) v = room_reconnecting-IsSound g r v
step-IsSound (Event.reconnected g r) v = room_reconnected-IsSound g r v
step-IsSound (Event.room_left g r) v = room_disconnected-IsSound g r v
step-IsSound (Event.packet g r p stamp) v = data_received-IsSound g r p stamp v
step-IsSound (Event.subscribed g r t usable suspended) v =
    track_subscribed-IsSound g r t usable suspended v
step-IsSound (Event.unsubscribed g r t b) v = track_unsubscribed-IsSound g r t b v
step-IsSound (Event.speakers g r b) v = active_speakers_changed-IsSound g r b v
step-IsSound (Event.played g r t n) v = element_played-IsSound g r t n v
step-IsSound (Event.stopped g r t) v = element_stopped-IsSound g r t v

pub initial-IsSound : IsSound initial
initial-IsSound = ground arith

run-IsSound : (es : List Event) {s : Session} → IsSound s → IsSound (run es s)
unfolding run
run-IsSound [] v = v
run-IsSound (e ∷ es) v = run-IsSound es (step-IsSound e v)

-- After any events from the start, in any order: the heartbeat timer watches the current room;
-- with no room there is no microphone stream, audio element or gain node, and the assistant is not
-- shown to speak; and with no room and no call of `connect` in flight the status is "disconnected"
-- or "error", with one in flight it is "connecting".
pub run-initial-IsSound : (es : List Event) → IsSound (run es initial)
run-initial-IsSound es = run-IsSound es initial-IsSound
