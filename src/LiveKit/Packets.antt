-- ===== src/LiveKit/Packets.antt =====
-- The data-channel packets of frontend/src/hooks/useLiveKitSession.ts.
use ai_voice_assistants.Common.{
  ℕ, String, Bool, true, false, not, ◌&&◌, Option, none, some, List, [], ◌∷◌, ◌++◌, if◌then◌else◌,
  any, str_eq,
}
use ai_voice_assistants.Common.Json.{
  Json, null, bool, num, str, property, truthy_field, or_json, is_text, strict_eq,
}
use ai_voice_assistants.LiveKit.Runtime.{
  AgentState, AgentMessage, parse_agent_message, agent_status,
}
use ai_voice_assistants.LiveKit.State.{
  Session, Message, Task, is_current, close, clear_heartbeat, arm_heartbeat, fail_current_session,
}

-- What a handler reads of the clock and of `Math.random` when it runs.
pub record Stamp : Type 0 where
  pub message_id : String
  pub task_id : String
  pub time : String

abbrev pub message_of : Json → Stamp → Message
message_of event stamp = record {
  id = or_json (property "id" event) (str stamp.message_id);
  speaker = or_json (property "speaker" event) (str "assistant");
  text = or_json (property "text" event) (str "");
  is_interrupted = or_json (property "isInterrupted" event) (bool false);
  timestamp = stamp.time;
}

-- `value.a || value.b || other`.
abbrev first_of_two : String → String → Json → Json → Json
first_of_two a b value other = or_json (property a value) (or_json (property b value) other)

abbrev pub task_of : Json → Stamp → Task
task_of raw stamp = record {
  id = or_json (property "id" raw) (str stamp.task_id);
  title = or_json (property "title" raw) (str "Voice Action");
  tool_name = first_of_two "tool_name" "toolName" raw (str "tool");
  status = or_json (property "status" raw) (str "completed");
  output = or_json (property "output" raw) null;
  error_message = first_of_two "errorMessage" "error_message" raw null;
  execution_time_ms = first_of_two "executionTimeMs" "execution_time_ms" raw (num 0);
  idempotency_key = first_of_two "idempotencyKey" "idempotency_key" raw null;
  updated_at = stamp.time;
}

abbrev pub has_id : Json → Task → Bool
has_id id t = strict_eq t.id id

-- The write at the first index whose task has the id.
unfoldable pub replace_first : Task → List Task → List Task
replace_first task [] = []
replace_first task (t ∷ ts) = if has_id task.id t then task ∷ ts else t ∷ replace_first task ts

unfoldable pub upsert_task : Task → List Task → List Task
unfolding replace_first
upsert_task task ts = if any (has_id task.id) ts then replace_first task ts else task ∷ ts

abbrev is_failed : AgentState → Bool
is_failed AgentState.failed = true
is_failed _ = false

abbrev is_ended : AgentState → Bool
is_ended AgentState.ended = true
is_ended _ = false

abbrev has_session : Option String → String → Bool
has_session none id = false
has_session (some current) id = str_eq id current

unfoldable pub agent_message_received : ℕ → AgentMessage → Session → Session
unfolding fail_current_session clear_heartbeat arm_heartbeat
agent_message_received room m s =
    if not (has_session s.session_id m.session_id)
    then s
    else if is_failed m.state
    then fail_current_session room s
    else if is_ended m.state
    then close room (clear_heartbeat (record s { intentional_disconnect = true }))
    else let s' = arm_heartbeat room s in
      record s' {
        is_bot_speaking = false;
        connection_status = agent_status m.state s'.has_assistant_audio s'.playback_retry_pending;
      }

unfoldable pub content_received : Json → Stamp → Session → Session
unfolding upsert_task
content_received event stamp s =
    if is_text (property "type" event) "transcript"
    then record s { messages = s.messages ++ message_of event stamp ∷ [] }
    else if is_text (property "type" event) "task_update" && truthy_field (property "task" event)
    then record s {
      tasks = upsert_task (task_of (or_json (property "task" event) null) stamp) s.tasks;
    }
    else s

-- `packet` is `none` where `JSON.parse` throws, which is caught and logged.
unfoldable pub data_received : ℕ → ℕ → Option Json → Stamp → Session → Session
data_received generation room packet stamp s =
    if not (is_current generation room s) then s else elim packet [
      | none ↦ s
      | some event ↦ elim (parse_agent_message event) [
        | some m ↦ agent_message_received room m s
        | none ↦ content_received event stamp s
      ]
    ]
