-- ===== src/MobileApi/Replies.antt =====
-- What mobile/src/services/api.ts makes of the answers to its requests. `none` for an answer is a
-- request that throws, which a time-out does too; `none` for its body is one that is no JSON.
use ai_voice_assistants.Common.{String, ◌||◌, not, Option, none, some, if◌then◌else◌, str_eq}
use ai_voice_assistants.Common.Json.{
  Json, null, str, property, truthy, truthy_field, or_json, is_text,
}
use ai_voice_assistants.MobileApi.Assistant.{Answer, optional_field}

-- `a || b`, with `undefined` as `none`.
abbrev pub or_else : Option Json → Option Json → Option Json
or_else a b = if truthy_field a then a else b

pub record UserAccount : Type 0 where
  pub id : Option Json
  pub email : Option Json
  pub name : Option Json

pub data SessionResponse : Type 0 where
  unauthenticated : SessionResponse
  authenticated : UserAccount → Option Json → SessionResponse

abbrev account_of : Option Json → UserAccount
account_of user = record {
  id = optional_field "id" user;
  email = optional_field "email" user;
  name = optional_field "name" user;
}

abbrev session_user : Option Json → Option Json
session_user body =
    or_else (optional_field "user" body) (optional_field "user" (optional_field "session" body))

abbrev pub session_of : Option Json → SessionResponse
session_of body =
    if truthy_field (session_user body)
    then authenticated (account_of (session_user body)) (optional_field "session" body)
    else unauthenticated

unfoldable pub check_session : Option Answer → SessionResponse
check_session none = unauthenticated
check_session (some answer) = if answer.is_ok then session_of answer.body else unauthenticated

-- A result with an error: the one that the answer names, the text of the code, or what was thrown.
pub data Result : Type 0 where
  success : Result
  reported : Json → Result
  refused unreachable : Result

abbrev pub reported_or : Option Json → Result
reported_or message = elim message [
  | some v ↦ if truthy v then reported v else refused
  | none ↦ refused
]

-- A body that is null makes reading its message throw.
abbrev auth_error : Option Json → Result
auth_error (some null) = unreachable
auth_error body =
    reported_or (or_else (optional_field "message" body) (optional_field "error" body))

-- `signInEmail` and `signUpEmail`, which differ in the texts of their errors.
unfoldable pub sign_in : Option Answer → Result
sign_in none = unreachable
sign_in (some answer) = if answer.is_ok then success else auth_error answer.body

unfoldable pub sign_out : Option Answer → Result
sign_out none = unreachable
sign_out (some answer) = if answer.is_ok then success else refused

-- The URL, or `none` where the call throws.
unfoldable pub get_google_sign_in_url : Option Answer → Option Json
get_google_sign_in_url none = none
get_google_sign_in_url (some answer) =
    if not answer.is_ok || not (truthy_field (optional_field "url" answer.body))
    then none
    else optional_field "url" answer.body

pub data HealthStatus : Type 0 where
  healthy unhealthy unreached : HealthStatus

pub record BackendHealth : Type 0 where
  pub status : HealthStatus
  pub service : Option Json
  pub version : Option Json
  pub database : Option Json

abbrev pub bare : HealthStatus → BackendHealth
bare status = record { status = status; service = none; version = none; database = none }

abbrev health_of : Option Json → BackendHealth
health_of none = bare unreached
health_of (some null) = bare unreached
health_of (some v) = record {
  status = if is_text (property "status" v) "healthy" then healthy else unhealthy;
  service = property "service" v;
  version = property "version" v;
  database = property "database" v;
}

unfoldable pub check_backend_health : Option Answer → BackendHealth
check_backend_health none = bare unreached
check_backend_health (some answer) = if answer.is_ok then health_of answer.body else bare unhealthy

pub record LiveKitToken : Type 0 where
  pub token : Option Json
  pub ws_url : Json
  pub room : Json
  pub identity : Json

abbrev or_identity : Option String → Json
or_identity none = str "mobile-user"
or_identity (some identity) = if str_eq identity "" then str "mobile-user" else str identity

abbrev token_of : String → String → Option String → Option Json → Option LiveKitToken
token_of livekit_url room identity none = none
token_of livekit_url room identity (some null) = none
token_of livekit_url room identity (some v) = some (record {
  token = property "token" v;
  ws_url = or_json (property "ws_url" v) (or_json (property "wsUrl" v) (str livekit_url));
  room = or_json (property "room" v) (str room);
  identity = or_json (property "identity" v) (or_identity identity);
})

-- `none` where the call throws.
unfoldable pub fetch_livekit_token :
    String → String → Option String → Option Answer → Option LiveKitToken
fetch_livekit_token livekit_url room identity none = none
fetch_livekit_token livekit_url room identity (some answer) =
    if answer.is_ok then token_of livekit_url room identity answer.body else none

pub data ToolExecution : Type 0 where
  executed : Json → ToolExecution
  refused_tool failed_tool : ToolExecution

abbrev executed_or_failed : Option Json → ToolExecution
executed_or_failed none = failed_tool
executed_or_failed (some v) = executed v

unfoldable pub execute_tool : Option Answer → ToolExecution
execute_tool none = failed_tool
execute_tool (some answer) = if answer.is_ok then executed_or_failed answer.body else refused_tool
