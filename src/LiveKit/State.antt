-- ===== src/LiveKit/State.antt =====
-- The state of frontend/src/hooks/useLiveKitSession.ts, and its small operations.
-- A value that the hook holds in a ref and mirrors in a state variable by one setter is one field.
-- Rooms, tracks, audio elements, contexts, and gain nodes are numbers, given out by `next`.
use ai_voice_assistants.Common.{
  ℕ, ◌+◌, String, Bool, true, false, Option, none, some, List, [], ◌∷◌, ◌&&◌, ◌==◌, if◌then◌else◌,
  holds,
}
use ai_voice_assistants.Common.Json.{Json}
use ai_voice_assistants.LiveKit.Runtime.{
  Status, LifecycleEvent, connection_status, is_current_generation,
}

pub record Message : Type 0 where
  pub id : Json
  pub speaker : Json
  pub text : Json
  pub is_interrupted : Json
  pub timestamp : String

pub record Task : Type 0 where
  pub id : Json
  pub title : Json
  pub tool_name : Json
  pub status : Json
  pub output : Json
  pub error_message : Json
  pub execution_time_ms : Json
  pub idempotency_key : Json
  pub updated_at : String

-- How far the call of `connect` that took a generation has come: `fetching` waits for the token,
-- `joining` for `room.connect`, `publishing` for the microphone.
pub data Phase : Type 0 where
  unused fetching : Phase
  joining publishing : ℕ → Phase
  returned : Phase

pub record Session : Type 0 where
  pub connection_status : Status
  pub is_muted : Bool
  pub is_hands_free : Bool
  pub is_bot_speaking : Bool
  pub is_user_speaking : Bool
  pub messages : List Message
  pub tasks : List Task
  pub gain_node : Option ℕ
  pub analyser_node : Option ℕ
  pub room : Option ℕ
  pub generation : ℕ
  pub connect_in_flight : Option ℕ
  pub session_id : Option String
  pub intentional_disconnect : Bool
  pub mic_stream : Option ℕ
  pub audio_context : Option ℕ
  pub audio_element : Option ℕ
  pub source_node : Option ℕ
  pub assistant_track : Option ℕ
  pub has_assistant_audio : Bool
  pub playback_retry_pending : Bool
  -- the room that the armed heartbeat timer watches
  pub heartbeat_timer : Option ℕ
  -- the pending calls of `connect`, by their generation
  pub phase : ℕ → Phase
  pub next : ℕ
  -- whether a gain node's value is 1.0
  pub is_audible : ℕ → Bool
  -- what has left the browser, newest first: the rooms that were made, those that were told to
  -- disconnect or said that they had, and those to which `response.cancel` was published
  pub opened : List ℕ
  pub closed : List ℕ
  pub cancels : List ℕ

abbrev pub initial : Session
initial = record {
  connection_status = Status.disconnected;
  is_muted = false;
  is_hands_free = true;
  is_bot_speaking = false;
  is_user_speaking = false;
  messages = [];
  tasks = [];
  gain_node = none;
  analyser_node = none;
  room = none;
  generation = 0;
  connect_in_flight = none;
  session_id = none;
  intentional_disconnect = false;
  mic_stream = none;
  audio_context = none;
  audio_element = none;
  source_node = none;
  assistant_track = none;
  has_assistant_audio = false;
  playback_retry_pending = false;
  heartbeat_timer = none;
  phase = λ g. Phase.unused;
  next = 0;
  is_audible = λ n. true;
  opened = [];
  closed = [];
  cancels = [];
}

abbrev pub update {ℓ} : {A : Type ℓ} → (ℕ → A) → ℕ → A → ℕ → A
update f k v j = if k == j then v else f j

-- `setConnectionStatus(getLiveKitConnectionStatus(event, …))`.
abbrev pub show : LifecycleEvent → Session → Session
show event s = record s {
  connection_status = connection_status event s.has_assistant_audio s.playback_retry_pending;
}

unfoldable pub reset_media : Session → Session
reset_media s = record s {
  audio_element = none;
  source_node = none;
  assistant_track = none;
  has_assistant_audio = false;
  playback_retry_pending = false;
  mic_stream = none;
  audio_context = none;
  gain_node = none;
  analyser_node = none;
  is_bot_speaking = false;
  is_user_speaking = false;
  is_muted = false;
}

unfoldable pub clear_heartbeat : Session → Session
clear_heartbeat s = record s { heartbeat_timer = none }

unfoldable pub arm_heartbeat : ℕ → Session → Session
unfolding clear_heartbeat
arm_heartbeat room s = record (clear_heartbeat s) { heartbeat_timer = some room }

-- `isCurrentSession(room)` of the call of `connect` that took `generation`.
abbrev pub is_current : ℕ → ℕ → Session → Bool
is_current generation room s = is_current_generation generation s.generation && holds s.room room

-- `room.disconnect()`, or what stands for it when the room reports it.
abbrev pub close : ℕ → Session → Session
close room s = record s { closed = room ∷ s.closed }

abbrev pub close_if : Option ℕ → Session → Session
close_if none s = s
close_if (some room) s = close room s

-- Ends the session of a room whose agent failed or fell silent.
unfoldable pub fail_current_session : ℕ → Session → Session
unfolding reset_media clear_heartbeat
fail_current_session room s =
    if holds s.room room
    then show LifecycleEvent.agent_failed (
        close room (
          reset_media (record (clear_heartbeat s) {
            generation = s.generation + 1;
            connect_in_flight = none;
            room = none;
            intentional_disconnect = true;
            session_id = none;
          })))
    else s

-- The heartbeat timer fires. `connected`: whether the state of its room is "connected".
unfoldable pub heartbeat_expired : ℕ → Bool → Session → Session
unfolding fail_current_session
heartbeat_expired room connected s =
    if holds s.heartbeat_timer room
    then if holds s.room room && connected then fail_current_session room s else s
    else s
