-- ===== src/MobileApi/Integrations.antt =====
-- The answers on the integrations, the company and the tasks of mobile/src/services/api.ts. Each
-- call tries its one endpoint, and takes what throws for no answer.
use ai_voice_assistants.Common.{Bool, false, Option, none, some, List, [], ◌∷◌, if◌then◌else◌}
use ai_voice_assistants.Common.Json.{
  Json, null, bool, str, obj, field, end, property, truthy_field, or_json, as_array,
}
use ai_voice_assistants.MobileApi.Assistant.{Answer, optional_field}
use ai_voice_assistants.MobileApi.Replies.{or_else, Result, success, unreachable, reported_or}

-- The body of an answer that is ok.
abbrev pub body_of : Option Answer → Option Json
body_of none = none
body_of (some answer) = if answer.is_ok then answer.body else none

abbrev pub is_answered : Option Answer → Bool
is_answered none = false
is_answered (some answer) = answer.is_ok

pub record GoogleAuthStatus : Type 0 where
  pub connected : Bool
  pub provider : Option Json
  pub google_email : Option Json
  pub email : Option Json
  pub expires_at : Option Json
  pub is_expired : Option Json
  pub can_refresh : Option Json
  pub scope : Option Json

abbrev pub unconnected : GoogleAuthStatus
unconnected = record {
  connected = false;
  provider = none;
  google_email = none;
  email = none;
  expires_at = none;
  is_expired = none;
  can_refresh = none;
  scope = none;
}

abbrev google_status_of : Option Json → GoogleAuthStatus
google_status_of none = unconnected
google_status_of (some null) = unconnected
google_status_of (some v) = record {
  connected = truthy_field (property "connected" v);
  provider = some (or_json (property "provider" v) (str "google"));
  google_email = or_else (property "google_email" v) (property "email" v);
  email = or_else (property "email" v) (property "google_email" v);
  expires_at = property "expires_at" v;
  is_expired = property "is_expired" v;
  can_refresh = property "can_refresh" v;
  scope = property "scope" v;
}

unfoldable pub get_google_auth_status : Option Answer → GoogleAuthStatus
get_google_auth_status answer = google_status_of (body_of answer)

-- The URL, or `none` where the call throws.
unfoldable pub get_google_auth_url : Option Answer → Option Json
get_google_auth_url answer =
    let url = optional_field "auth_url" (body_of answer) in if truthy_field url then url else none

abbrev disconnected_status : Option Json → Json
disconnected_status none = str "error"
disconnected_status (some null) = str "error"
disconnected_status (some v) = or_json (property "status" v) (str "disconnected")

unfoldable pub disconnect_google_auth : Option Answer → Json
disconnect_google_auth answer = disconnected_status (body_of answer)

unfoldable pub get_company_profile : Option Answer → Option Json
get_company_profile answer =
    let found = optional_field "data" (body_of answer) in if truthy_field found then found else none

unfoldable pub save_company_profile : Option Answer → Bool
save_company_profile answer = is_answered answer

abbrev pub or_empty : Option (List Json) → List Json
or_empty none = []
or_empty (some vs) = vs

unfoldable pub get_assistant_versions : Option Answer → List Json
get_assistant_versions answer = or_empty (as_array (optional_field "data" (body_of answer)))

abbrev pub unconfigured : Json
unconfigured = obj (field "configured" (bool false) (field "state" (str "unconfigured") end))

abbrev or_unconfigured : Option Json → Json
or_unconfigured none = unconfigured
or_unconfigured (some v) = v

unfoldable pub get_three_cx_status : Option Answer → Json
get_three_cx_status answer = or_unconfigured (body_of answer)

unfoldable pub save_three_cx_config : Option Answer → Result
save_three_cx_config none = unreachable
save_three_cx_config (some answer) =
    if answer.is_ok
    then success
    else reported_or
        (or_else (optional_field "detail" answer.body) (optional_field "error_message" answer.body))

unfoldable pub disconnect_three_cx : Option Answer → Bool
disconnect_three_cx answer = is_answered answer

pub record TaskRecord : Type 0 where
  pub id : Option Json
  pub title : Json
  pub tool_name : Json
  pub status : Json
  pub output_result : Option Json
  pub error_message : Option Json
  pub created_at : Option Json
  pub updated_at : Option Json

-- A task that is null makes the call throw.
abbrev task_of : Json → Option TaskRecord
task_of null = none
task_of v = some (record {
  id = or_else (property "id" v) (property "task_id" v);
  title = or_json (property "title" v) (str "");
  tool_name = or_json (property "tool_name" v) (str "");
  status = or_json (property "status" v) (str "pending");
  output_result = property "output_result" v;
  error_message = property "error_message" v;
  created_at = property "created_at" v;
  updated_at = property "updated_at" v;
})

unfoldable pub tasks_of : List Json → Option (List TaskRecord)
tasks_of [] = some []
tasks_of (v ∷ vs) = elim (task_of v) [
  | none ↦ none
  | some task ↦ elim (tasks_of vs) [ none ↦ none | some tasks ↦ some (task ∷ tasks) ]
]

abbrev first_array : Option (List Json) → Option (List Json) → Option (List Json) → List Json
first_array (some vs) _ _ = vs
first_array none (some vs) _ = vs
first_array none none (some vs) = vs
first_array none none none = []

abbrev pub raw_tasks : Option Json → List Json
raw_tasks body =
    first_array (as_array body) (as_array (optional_field "tasks" body))
      (as_array (optional_field "data" body))

abbrev or_no_tasks : Option (List TaskRecord) → List TaskRecord
or_no_tasks none = []
or_no_tasks (some tasks) = tasks

unfoldable pub get_tasks : Option Answer → List TaskRecord
unfolding tasks_of
get_tasks answer = or_no_tasks (tasks_of (raw_tasks (body_of answer)))

unfoldable pub cancel_task : Option Answer → Bool
cancel_task answer = is_answered answer
