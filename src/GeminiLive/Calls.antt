-- ===== src/GeminiLive/Calls.antt =====
-- The tool calls of the model, in frontend/src/hooks/useGeminiLiveSession.ts. A call whose name is
-- empty or missing is skipped.
use ai_voice_assistants.Common.{
  ℕ, ◌-◌, String, true, not, ◌||◌, Option, none, some, List, [], ◌∷◌, zero, suc, if◌then◌else◌,
  str_eq, is_some,
}
use ai_voice_assistants.Common.Json.{
  Json, null, num, str, obj, field, end, property, or_json, is_text,
}
use ai_voice_assistants.MobileApi.Assistant.{optional_field}
use ai_voice_assistants.Policy.Turns.{Action, Reason, is_allowed_calendar_tool}
use ai_voice_assistants.Policy.Tools.{stable_key}
use ai_voice_assistants.GeminiLive.State.{Session, Task, TaskStatus, Pending}

-- A function call: `id` is its own ID, or none where it is missing or empty.
pub record FunctionCall : Type 0 where
  pub name : String
  pub id : Option String
  pub args : Option Json

-- What the handler reads of the clock, of `Math.random` and of `crypto`, and the text of the logical
-- action.
pub record Stamp : Type 0 where
  pub now : ℕ
  pub time : String
  pub call_id : String
  pub task_id : String
  pub action : String
  pub uuid : String

abbrev param_title : Option Json → Json
param_title args = or_json (optional_field "title" args) (
    or_json (optional_field "start_date" args)
      (or_json (optional_field "start_time" args) (str "Executing")))

abbrev pub call_id_of : FunctionCall → Stamp → String
call_id_of call stamp = elim call.id [ none ↦ stamp.call_id | some id ↦ id ]

abbrev pub waits_for : FunctionCall → Stamp → Pending
waits_for call stamp = record {
  task_id = stamp.task_id;
  call_id = call_id_of call stamp;
  name = call.name;
  is_denied = not (is_allowed_calendar_tool call.name);
  started_at = stamp.now;
}

unfoldable pub function_called : FunctionCall → Stamp → Session → Session
unfolding stable_key
function_called call stamp s =
    if str_eq call.name ""
    then s
    else let allowed = is_allowed_calendar_tool call.name in
      record s {
        scope_decision =
            if allowed
            then some (record {
              action = Action.allow;
              reason = Reason.calendar_intent;
              context_active = true;
            })
            else s.scope_decision;
        keys = (stable_key call.name stamp.action stamp.uuid s.keys).1;
        tasks =
            record {
              id = stamp.task_id;
              title = param_title call.args;
              tool_name = call.name;
              status = TaskStatus.running;
              output = none;
              error_message = none;
              execution_time_ms = none;
              updated_at = stamp.time;
            }
            ∷ s.tasks;
        requested = if allowed then call.name ∷ s.requested else s.requested;
        waiting = waits_for call stamp ∷ s.waiting;
      }

unfoldable pub functions_called : List (FunctionCall × Stamp) → Session → Session
unfolding function_called
functions_called [] s = s
functions_called ((call, stamp) ∷ calls) s = functions_called calls (function_called call stamp s)

-- The answer to a tool that is not allowed.
abbrev pub denied : Json
denied = obj (
    field "status" (str "error") (
      field "error_code" (str "POLICY_TOOL_DENIED")
        (field "error_message" (str "That tool is not available.") end)))

abbrev pub status_of : Json → TaskStatus
status_of result =
    if is_text (property "status" result) "success"
    then TaskStatus.completed
    else if is_text (property "status" result) "conflict"
        || is_text (property "status" result) "confirmation_required"
    then TaskStatus.pending
    else TaskStatus.failed

-- `conflict`: the text that shows a conflict, of `result.error`.
abbrev message_of : (Option Json → String) → Json → Json
message_of conflict result = or_json (property "error_message" result) (
    if is_text (property "status" result) "conflict"
    then str (conflict (property "error" result))
    else null)

abbrev pub answered : (Option Json → String) → Pending → Json → ℕ → String → Task → Task
answered conflict p result now time t =
    if str_eq t.id p.task_id
    then record t {
      status = status_of result;
      output = some (or_json (property "data" result) result);
      error_message = some (message_of conflict result);
      execution_time_ms =
          some (or_json (property "execution_time_ms" result) (num (now - p.started_at)));
      updated_at = time;
    }
    else t

unfoldable pub update_tasks : (Task → Task) → List Task → List Task
update_tasks f [] = []
update_tasks f (t ∷ ts) = f t ∷ update_tasks f ts

-- `execution.then`: the call is answered, with the result of the backend, or refused.
unfoldable pub execution_settled :
    (Option Json → String) → Pending → Json → ℕ → String → Session → Session
unfolding update_tasks
execution_settled conflict p backend now time s =
    let result : Json = if p.is_denied then denied else backend in
    record s {
      tasks = update_tasks (answered conflict p result now time) s.tasks;
      replies =
          if is_some s.session
          then record { call_id = p.call_id; name = p.name; output = result } ∷ s.replies
          else s.replies;
    }

abbrev pub put_back : Pending → Option (Pending × List Pending) → Option (Pending × List Pending)
put_back p none = none
put_back p (some (q, qs)) = some (q, p ∷ qs)

-- Takes a call out of those that wait, by its place.
unfoldable pub take_out : ℕ → List Pending → Option (Pending × List Pending)
take_out n [] = none
take_out zero (p ∷ ps) = some (p, ps)
take_out (suc n) (p ∷ ps) = put_back p (take_out n ps)

abbrev pub settled_with :
    (Option Json → String) → Json → ℕ → String → Option (Pending × List Pending) → Session → Session
settled_with conflict backend now time none s = s
settled_with conflict backend now time (some (p, ps)) s =
    execution_settled conflict p backend now time (record s { waiting = ps })

-- The call at a place among those that wait is answered.
unfoldable pub settle_at : (Option Json → String) → ℕ → Json → ℕ → String → Session → Session
unfolding take_out execution_settled
settle_at conflict n backend now time s =
    settled_with conflict backend now time (take_out n s.waiting) s
