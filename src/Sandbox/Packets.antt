-- ===== src/Sandbox/Packets.antt =====
-- What the room of frontend/src/components/sandbox/TestingSandboxPage.tsx reports: tracks,
-- participants, and data packets.
use Prim.Native.String.{◌++◌ as append}
use ai_voice_assistants.Common.{
  ℕ, ◌+◌, String, Bool, true, false, not, ◌&&◌, Option, none, some, [], ◌∷◌, ◌++◌, if◌then◌else◌,
  is_some, holds, any, str_eq,
}
use ai_voice_assistants.Common.Json.{Json, str, property, or_json, is_text, strict_eq}
use ai_voice_assistants.LiveKit.Runtime.{AgentState, AgentMessage, parse_agent_message}
use ai_voice_assistants.Common.Text.{is_blank}
use ai_voice_assistants.Sandbox.State.{
  Session, Status, Notice, Sender, Line, show, cleanup_assistant_audio, arm_heartbeat,
  fail_voice_session,
}

abbrev is_text_of : String → Option String → Bool
is_text_of t none = false
is_text_of t (some s) = str_eq s t

-- Another participant's audio is ignored once one is accepted.
abbrev is_additional : Option String → String → Bool
is_additional none identity = false
is_additional (some accepted) identity = not (str_eq accepted "") && not (str_eq accepted identity)

-- An audio track is subscribed; an element is made for it.
unfoldable pub track_subscribed : ℕ → String → Session → Session
unfolding cleanup_assistant_audio
track_subscribed track identity s =
    if is_additional s.assistant_identity identity
    then s
    else if holds s.assistant_track track && is_some s.audio_element
    then s
    else show Status.speaking (record (cleanup_assistant_audio s) {
      assistant_identity = some identity;
      audio_element = some s.next;
      assistant_track = some track;
      next = s.next + 1;
    })

-- `element.play()` is refused by the browser.
unfoldable pub playback_refused : Session → Session
playback_refused s = record s { error_message = some Notice.playback_blocked }

unfoldable pub track_unsubscribed : ℕ → Session → Session
unfolding cleanup_assistant_audio
track_unsubscribed track s = if holds s.assistant_track track then cleanup_assistant_audio s else s

unfoldable pub participant_disconnected : String → Session → Session
unfolding cleanup_assistant_audio
participant_disconnected identity s =
    if is_text_of identity s.assistant_identity
    then record (cleanup_assistant_audio s) { assistant_identity = none }
    else s

abbrev recovering : AgentState → Bool
recovering AgentState.recovering = true
recovering _ = false

abbrev well : AgentState → Bool
well AgentState.ready = true
well AgentState.recovered = true
well _ = false

-- The states after which the session goes on.
abbrev alive : ℕ → AgentState → Session → Session
alive room state s =
    if recovering state
    then show Status.recovering
        (record (arm_heartbeat room s) { error_message = some Notice.reconnecting })
    else if well state
    then show Status.connected (record (arm_heartbeat room s) { error_message = none })
    else arm_heartbeat room s

abbrev act : ℕ → AgentState → Session → Session
act room AgentState.failed s = fail_voice_session room Notice.not_recovered s
act room AgentState.ended s = fail_voice_session room Notice.session_ended s
act room state s = alive room state s

unfoldable pub lifecycle_received : ℕ → AgentMessage → Session → Session
unfolding fail_voice_session arm_heartbeat
lifecycle_received room message s =
    if is_text_of message.session_id s.session_id then act room message.state s else s

abbrev sender_of : Json → Sender
sender_of packet =
    if is_text (property "role" packet) "assistant" then Sender.assistant else Sender.user

-- `packet.text?.trim()` is truthy. A truthy text without a `trim` throws, which is caught.
unfoldable pub has_words : Option Json → Bool
unfolding is_blank
has_words (some (str text)) = not (is_blank text)
has_words _ = false

abbrev pub is_transcript : Json → Bool
is_transcript packet =
    is_text (property "type" packet) "transcript" && has_words (property "text" packet)

module _ (shown : Option Json → String) where
  -- The template of an ID, where the packet has none.
  abbrev composed : Json → String
  composed packet = append (shown (property "role" packet)) (
      append ":" (
        append (shown (property "timestamp" packet)) (append ":" (shown (property "text" packet)))))

  abbrev pub message_id : Json → Json
  message_id packet =
      or_json (property "id" packet)
        (or_json (property "message_id" packet) (str (composed packet)))

  abbrev pub is_known : Json → Session → Bool
  is_known packet s = any (strict_eq (message_id packet)) s.transcript_ids

  -- `shown`: how a template shows a value.
  unfoldable pub transcript_received : Json → String → Session → Session
  unfolding has_words
  transcript_received packet time s =
      if is_transcript packet
      then if is_known packet s then s else record s {
        transcript_ids = message_id packet ∷ s.transcript_ids;
        messages =
            s.messages
            ++ (record {
              id = message_id packet;
              sender = sender_of packet;
              text = Line.said (or_json (property "text" packet) (str ""));
              timestamp = time;
            }
                ∷ []);
      }
      else s

  abbrev pub dispatched : ℕ → Option AgentMessage → Json → String → Session → Session
  dispatched room (some message) packet time s = lifecycle_received room message s
  dispatched room none packet time s = transcript_received packet time s

  -- `none`: a payload that is no JSON.
  unfoldable pub data_received : ℕ → Option Json → String → Session → Session
  unfolding transcript_received lifecycle_received
  data_received room none time s = s
  data_received room (some packet) time s =
      dispatched room (parse_agent_message packet) packet time s
