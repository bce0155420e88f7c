-- ===== src/Sandbox/Connect.antt =====
-- `startSession`, cut at its awaits, `stopSession`, and the cleanup of an unmounted page, of
-- frontend/src/components/sandbox/TestingSandboxPage.tsx.
use ai_voice_assistants.Common.{
  ℕ, ◌+◌, String, Bool, true, false, not, ◌&&◌, ◌||◌, Option, none, some, [], ◌∷◌, ◌++◌,
  if◌then◌else◌, is_some, holds, str_eq,
}
use ai_voice_assistants.Common.Json.{Json, str, property, truthy_field, or_json}
use ai_voice_assistants.MobileApi.Assistant.{optional_field}
use ai_voice_assistants.Sandbox.State.{
  Session, Status, Notice, Sender, Line, Phase, show, is_idle, cleanup_assistant_audio,
  release_voice_session_lock, clear_heartbeat, arm_heartbeat,
}

unfoldable pub start_session : Session → Session
start_session s =
    if not (is_idle s.phase) || is_some s.room
    then s
    else show Status.connecting (record s { error_message = none; phase = Phase.locking })

-- What `acquireVoiceSessionLock` finds: a browser without locks, the lock, that another page has
-- it, or a request that fails.
pub data LockAnswer : Type 0 where
  unsupported granted taken failed : LockAnswer

abbrev pub owns : LockAnswer → Bool
owns LockAnswer.unsupported = true
owns LockAnswer.granted = true
owns _ = false

abbrev takes : LockAnswer → Bool
takes LockAnswer.granted = true
takes _ = false

-- `id`: the ID of the new session. `time`: the text of the time at which it begins.
unfoldable pub lock_answered : LockAnswer → String → String → Session → Session
lock_answered answer id time s = elim s.phase [
  | Phase.locking ↦
      if owns answer
      then record s {
        holds_lock = s.holds_lock || takes answer;
        phase = Phase.fetching;
        session_id = some id;
        transcript_ids = [];
        messages =
            record {
              id = str "msg-init";
              sender = Sender.system;
              text = Line.initiating s.assistant_name s.voice_engine;
              timestamp = time;
            }
            ∷ [];
      }
      else show Status.disconnected
          (record s { phase = Phase.idle; error_message = some Notice.another_tab })
  | _ ↦ s
]

-- What follows in the `catch` after the audio context is closed, and `finally`.
abbrev give_up : Notice → Session → Session
give_up message s = show Status.disconnected (record (clear_heartbeat s) {
  audio_context = none;
  analyser = none;
  room_name = none;
  error_message = some message;
  phase = Phase.idle;
})

-- The `catch` of `startSession`.
unfoldable pub caught : Notice → Session → Session
unfolding cleanup_assistant_audio clear_heartbeat
caught message s =
    let s' : Session = record (release_voice_session_lock (cleanup_assistant_audio s)) {
      room = none;
      assistant_identity = none;
      local_track = none;
    } in
    if is_some s.audio_context
    then record s' { phase = Phase.closing message }
    else give_up message s'

unfoldable pub context_closed : Session → Session
unfolding clear_heartbeat
context_closed s = elim s.phase [ Phase.closing message ↦ give_up message s | _ ↦ s ]

-- The answer to the request for a token, which is read in full.
pub record Answer : Type 0 where
  pub is_ok : Bool
  pub http_status : ℕ
  pub body : Option Json

abbrev pub refusal : Answer → Notice
refusal answer =
    if truthy_field (optional_field "error_message" answer.body)
    then Notice.reported (or_json (optional_field "error_message" answer.body) (str ""))
    else if truthy_field (optional_field "detail" answer.body)
    then Notice.reported (or_json (optional_field "detail" answer.body) (str ""))
    else Notice.refused answer.http_status

abbrev pub is_complete : Json → Bool
is_complete body =
    truthy_field (property "token" body)
    && truthy_field (property "ws_url" body)
    && truthy_field (property "room" body)

abbrev pub opened : Option Json → Session → Session
opened name s = record s {
  room_name = name;
  room = some s.next;
  next = s.next + 1;
  phase = Phase.joining s.next;
}

-- A body that is no JSON makes `res.json()` throw.
abbrev pub read_body : Option Json → Session → Session
read_body none s = caught Notice.not_json s
read_body (some body) s =
    if is_complete body then opened (property "room" body) s else caught Notice.incomplete_token s

abbrev pub token_read : Answer → Session → Session
token_read answer s = if answer.is_ok then read_body answer.body s else caught (refusal answer) s

abbrev pub token_at : Phase → Answer → Session → Session
token_at Phase.fetching answer s = token_read answer s
token_at _ answer s = s

unfoldable pub token_answered : Answer → Session → Session
unfolding caught
token_answered answer s = token_at s.phase answer s

unfoldable pub room_joined : Session → Session
unfolding arm_heartbeat
room_joined s = elim s.phase [
  | Phase.joining room ↦ record (arm_heartbeat room s) { phase = Phase.capturing room }
  | _ ↦ s
]

unfoldable pub microphone_captured : Session → Session
microphone_captured s = elim s.phase [
  | Phase.capturing room ↦ record s {
    local_track = some s.next;
    is_track_muted = false;
    next = s.next + 1;
    phase = Phase.publishing room;
  }
  | _ ↦ s
]

-- What the set-up of the visualizer leaves: nothing, a context, or a context with an analyser.
pub data Visualizer : Type 0 where
  absent broken working : Visualizer

abbrev visualized : Visualizer → Session → Session
visualized Visualizer.absent s = s
visualized Visualizer.broken s = record s { audio_context = some s.next; next = s.next + 1 }
visualized Visualizer.working s = record s {
  audio_context = some s.next;
  analyser = some (s.next + 1);
  next = s.next + 2;
}

unfoldable pub microphone_published : Visualizer → Session → Session
microphone_published v s = elim s.phase [
  | Phase.publishing room ↦ show Status.connected (record (visualized v s) { phase = Phase.idle })
  | _ ↦ s
]

abbrev is_guarded : Phase → Bool
is_guarded Phase.idle = false
is_guarded Phase.locking = false
is_guarded (Phase.closing message) = false
is_guarded _ = true

abbrev thrown : Option String → Notice
thrown none = Notice.no_connection
thrown (some message) = if str_eq message "" then Notice.no_connection else Notice.thrown message

-- An await of `startSession` throws: an error with a message, or none.
unfoldable pub connect_threw : Option String → Session → Session
unfolding caught
connect_threw message s = if is_guarded s.phase then caught (thrown message) s else s

-- What `stopSession` and the cleanup of the page have in common.
abbrev torn_down : Session → Session
torn_down s = record (release_voice_session_lock (clear_heartbeat (cleanup_assistant_audio s))) {
  local_track = none;
  room = none;
  audio_context = none;
}

-- `ending`: the ID of the message that ends the session.
unfoldable pub stop_session : String → String → Session → Session
unfolding cleanup_assistant_audio clear_heartbeat
stop_session ending time s =
    if not (is_idle s.phase)
    then s
    else show Status.disconnected (record (torn_down s) {
      assistant_identity = none;
      analyser = none;
      session_id = none;
      transcript_ids = [];
      room_name = none;
      messages =
          s.messages
          ++ (record {
            id = str ending;
            sender = Sender.system;
            text = Line.concluded;
            timestamp = time;
          }
              ∷ []);
    })

-- The page is left. A call of `startSession` in flight goes on.
unfoldable pub unmounted : Session → Session
unfolding cleanup_assistant_audio clear_heartbeat
unmounted s = torn_down s

unfoldable pub room_disconnected : ℕ → Session → Session
unfolding cleanup_assistant_audio clear_heartbeat
room_disconnected room s =
    if holds s.room room
    then show Status.disconnected
        (record (torn_down s) { assistant_identity = none; analyser = none; room_name = none })
    else s
