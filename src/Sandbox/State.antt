-- ===== src/Sandbox/State.antt =====
-- The state of frontend/src/components/sandbox/TestingSandboxPage.tsx, and its small operations.
-- Rooms, tracks, audio elements and contexts are numbers, given out by `next`.
use ai_voice_assistants.Common.{
  ℕ, ◌+◌, String, Bool, true, false, not, ◌&&◌, Option, none, some, List, [], if◌then◌else◌, holds,
}
use ai_voice_assistants.Common.Json.{Json, str, property, truthy_field, or_json}

pub data Status : Type 0 where
  disconnected connecting connected recovering speaking listening : Status

-- What `setErrorMessage` shows.
pub data Notice : Type 0 where
  another_tab worker_silent not_recovered session_ended reconnecting playback_blocked : Notice
  incomplete_token not_json no_connection : Notice
  refused : ℕ → Notice
  reported : Json → Notice
  thrown : String → Notice

pub data Sender : Type 0 where
  assistant user system : Sender

pub data Line : Type 0 where
  initiating : Json → Json → Line
  concluded : Line
  said : Json → Line

pub record Message : Type 0 where
  pub id : Json
  pub sender : Sender
  pub text : Line
  pub timestamp : String

-- How far the call of `startSession` in flight has come: `locking` waits for the lock, `fetching`
-- for the token, `joining` for `room.connect`, `capturing` for the microphone's track,
-- `publishing` for its publication, and `closing` for the audio context after a failure.
pub data Phase : Type 0 where
  idle locking fetching : Phase
  joining capturing publishing : ℕ → Phase
  closing : Notice → Phase

pub record Session : Type 0 where
  pub assistant_name : Json
  pub voice_engine : Json
  pub status : Status
  pub is_muted : Bool
  pub duration : ℕ
  pub messages : List Message
  pub error_message : Option Notice
  pub room : Option ℕ
  pub local_track : Option ℕ
  pub audio_element : Option ℕ
  pub assistant_track : Option ℕ
  pub assistant_identity : Option String
  pub audio_context : Option ℕ
  pub analyser : Option ℕ
  -- the call of `startSession` in flight
  pub phase : Phase
  -- whether the page holds the browser's lock, which its release function stands for
  pub holds_lock : Bool
  pub session_id : Option String
  pub transcript_ids : List Json
  -- the room that the pending heartbeat timer watches
  pub heartbeat_timer : Option ℕ
  pub room_name : Option Json
  -- whether the local track is muted
  pub is_track_muted : Bool
  pub next : ℕ

abbrev pub initial : Session
initial = record {
  assistant_name = str "";
  voice_engine = str "Aoede";
  status = Status.disconnected;
  is_muted = false;
  duration = 0;
  messages = [];
  error_message = none;
  room = none;
  local_track = none;
  audio_element = none;
  assistant_track = none;
  assistant_identity = none;
  audio_context = none;
  analyser = none;
  phase = Phase.idle;
  holds_lock = false;
  session_id = none;
  transcript_ids = [];
  heartbeat_timer = none;
  room_name = none;
  is_track_muted = false;
  next = 0;
}

-- `isLive`, and the statuses at which the timer of the duration runs.
abbrev pub is_live : Status → Bool
is_live Status.disconnected = false
is_live Status.connecting = false
is_live _ = true

abbrev pub is_idle : Phase → Bool
is_idle Phase.idle = true
is_idle _ = false

-- `setSessionStatus`, with the effect that follows: the duration is reset where no timer runs.
abbrev pub show : Status → Session → Session
show status s = record s { status = status; duration = if is_live status then s.duration else 0 }

-- The interval of a second.
unfoldable pub second_passed : Session → Session
second_passed s = record s { duration = if is_live s.status then s.duration + 1 else s.duration }

unfoldable pub cleanup_assistant_audio : Session → Session
cleanup_assistant_audio s = record s { audio_element = none; assistant_track = none }

abbrev pub release_voice_session_lock : Session → Session
release_voice_session_lock s = record s { holds_lock = false }

unfoldable pub clear_heartbeat : Session → Session
clear_heartbeat s = record s { heartbeat_timer = none }

unfoldable pub arm_heartbeat : ℕ → Session → Session
unfolding clear_heartbeat
arm_heartbeat room s = record (clear_heartbeat s) { heartbeat_timer = some room }

unfoldable pub fail_voice_session : ℕ → Notice → Session → Session
unfolding clear_heartbeat cleanup_assistant_audio
fail_voice_session room message s =
    if holds s.room room
    then show Status.disconnected
        (record (release_voice_session_lock (cleanup_assistant_audio (clear_heartbeat s))) {
          assistant_identity = none;
          local_track = none;
          room = none;
          audio_context = none;
          analyser = none;
          session_id = none;
          room_name = none;
          error_message = some message;
        })
    else s

-- The pending timer fires.
unfoldable pub heartbeat_fired : Session → Session
unfolding fail_voice_session
heartbeat_fired s = elim s.heartbeat_timer [
  | none ↦ s
  | some room ↦ fail_voice_session room Notice.worker_silent (record s { heartbeat_timer = none })
]

-- `json.data.k || default`.
abbrev setting : String → String → Json → Json
setting k default body =
    or_json (property k (or_json (property "data" body) (str ""))) (str default)

unfoldable pub toggle_mute : Session → Session
toggle_mute s = elim s.local_track [
  | none ↦ record s { is_muted = not s.is_muted }
  | some track ↦
      if s.is_muted
      then record s { is_track_muted = false; is_muted = false }
      else record s { is_track_muted = true; is_muted = true }
]

-- The answer with the assistant's configuration; a body that is no JSON is logged.
unfoldable pub settings_loaded : Bool → Option Json → Session → Session
settings_loaded is_ok none s = s
settings_loaded is_ok (some body) s =
    if is_ok && truthy_field (property "data" body)
    then record s {
      assistant_name = setting "assistant_name" "" body;
      voice_engine = setting "voice_engine" "Aoede" body;
    }
    else s
