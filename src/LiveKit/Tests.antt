-- ===== src/LiveKit/Tests.antt =====
-- The theorems on frontend/src/hooks/useLiveKitSession.ts and livekitSessionRuntime.ts at concrete
-- inputs, and runs of the model.
use ai_voice_assistants.Common.{
  ℕ, ◌≡◌, ◌≤◌, refl, String, true, false, some, List, [], ◌∷◌, contains, All, length, keep,
}
use ai_voice_assistants.Common.Json.{Json, null, bool, num, str, obj, end, field}
use ai_voice_assistants.Common.Text.{codes, to_lower_case}
use ai_voice_assistants.LiveKit.Runtime.{
  Status, AgentState, AgentMessage, ContextState, AudioContextLike, connection_status, agent_state,
  create_room_name, normalized_id, parse_agent_message,
}
use ai_voice_assistants.LiveKit.Runtime.Laws.{IsRoomChar, create_room_name-IsRoomChar}
use ai_voice_assistants.LiveKit.State.{Session, Message, Task, initial}
use ai_voice_assistants.LiveKit.Connect.{
  connect, token_received, room_joined, microphone_published, disconnect,
}
use ai_voice_assistants.LiveKit.Audio.{track_subscribed, Activation, begin_activation}
use ai_voice_assistants.LiveKit.Events.{Event, step, run}
use ai_voice_assistants.LiveKit.Invariant.{IsSound, run-initial-IsSound}
use ai_voice_assistants.LiveKit.Tidy.{IsAccounted, run-IsAccounted}
use ai_voice_assistants.LiveKit.Disconnect.{IsDown, run-disconnect}
use ai_voice_assistants.LiveKit.Lifecycle.{IsAnswered, good_call, run-good_call}
use ai_voice_assistants.LiveKit.Speech.{step-keeps_silence, mark}

-- A call that is answered, and one that is ended while its token is fetched.
abbrev answered : List Event
answered = good_call "s-1" 7 8 true initial

abbrev in_call : Session
in_call = run answered initial

abbrev raced : List Event
raced =
    Event.connect_called "s-1"
    ∷ Event.token_arrived 1
    ∷ Event.disconnect_called
    ∷ Event.joined 1
    ∷ Event.connect_called "s-2"
    ∷ Event.token_arrived 3
    ∷ []

in_call-status : in_call.connection_status ≡ Status.waiting_for_agent
unfolding run step connect token_received room_joined microphone_published track_subscribed
    connection_status
in_call-status = refl

run-initial-IsSound_example : IsSound in_call
run-initial-IsSound_example = run-initial-IsSound answered

raced-opened : contains (run raced initial).opened 0 ≡ true
unfolding run step connect token_received disconnect room_joined
raced-opened = refl

run-IsAccounted_example : IsAccounted 0 (run raced initial)
run-IsAccounted_example = run-IsAccounted raced 0 raced-opened

abbrev late : List Event
late = Event.joined 1 ∷ Event.microphone 1 (some 7) ∷ Event.heartbeat_fired 0 true ∷ []

run-disconnect_example : IsDown (run late (disconnect in_call))
run-disconnect_example =
    run-disconnect late in_call (run-initial-IsSound answered) (tt, (tt, (tt, tt)))

in_call-timer : in_call.heartbeat_timer ≡ some 0
unfolding run step connect token_received room_joined microphone_published track_subscribed
in_call-timer = refl

run-good_call_example : IsAnswered (run (good_call "s-2" 3 4 false initial) initial) 0 3
run-good_call_example = run-good_call initial "s-2" 3 4 false refl refl

-- A session that plays the assistant's audio through the gain node 5.
abbrev playing : Session
playing = record initial {
  room = some 0;
  generation = 1;
  gain_node = some 5;
  audio_element = some 4;
  audio_context = some 3;
  has_assistant_audio = true;
}

abbrev started : Activation
started = record { generation = 1; gain = 5; element = 4 }

playing-started : begin_activation playing ≡ some started
unfolding begin_activation
playing-started = refl

-- The user speaks, and the node is silent.
abbrev spoken_over : Session
spoken_over = record playing {
  is_user_speaking = true;
  is_bot_speaking = true;
  is_audible = λ n. false;
}

step-keeps_silence_example : (step (Event.speakers 1 0 true) spoken_over).is_audible 5 ≡ false
step-keeps_silence_example = step-keeps_silence (Event.speakers 1 0 true) spoken_over 5 tt refl refl

abbrev message : String → String → Message
message id speaker = record {
  id = str id;
  speaker = str speaker;
  text = str "hello";
  is_interrupted = bool false;
  timestamp = "t";
}

abbrev asked : Message
asked = message "m-1" "user"

abbrev replied : Message
replied = message "m-2" "assistant"

mark-replied : mark replied ≡ record replied { is_interrupted = bool true }
mark-replied = refl

abbrev task : String → String → Task
task id status = record {
  id = str id;
  title = str "Book";
  tool_name = str "book_event";
  status = str status;
  output = null;
  error_message = null;
  execution_time_ms = num 0;
  idempotency_key = null;
  updated_at = "t";
}

abbrev two_tasks : List Task
two_tasks = task "t-1" "running" ∷ task "t-2" "running" ∷ []

abbrev raw_id : List ℕ
raw_id = codes "A_b-1"

raw_id-name : create_room_name raw_id ≡ some (codes "executive-voice-ab-1")
unfolding create_room_name normalized_id to_lower_case keep
raw_id-name = refl

create_room_name-IsRoomChar_example :
    All IsRoomChar (codes "executive-voice-ab-1") × (length (codes "executive-voice-ab-1") ≤ 80)
create_room_name-IsRoomChar_example =
    create_room_name-IsRoomChar raw_id (codes "executive-voice-ab-1") raw_id-name

abbrev heartbeat : Json
heartbeat = obj (
    field "type" (str "agent_heartbeat") (
      field "state" (str "ready") (
        field "session_id" (str "s-1") (field "sequence" (num 4) (field "timestamp" (num 9) end)))))

abbrev beat : AgentMessage
beat = record { state = AgentState.ready; session_id = "s-1"; sequence = 4; timestamp = 9 }

heartbeat-beat : parse_agent_message heartbeat ≡ some beat
unfolding parse_agent_message agent_state
heartbeat-beat = refl

abbrev sleeping : AudioContextLike
sleeping = record { state = ContextState.suspended; resume = some ContextState.running }
