-- ===== src/MobileApi/Operations.antt =====
-- The requests of mobile/src/services/api.ts to the web application: the method, the path, the
-- headers, the body and the time after which each is given up. Each is sent with the cookies.
use ai_voice_assistants.Common.{
  ℕ, String, Option, none, some, List, [], ◌∷◌, ◌++◌, if◌then◌else◌, str_eq, ◌==◌,
}
use ai_voice_assistants.Common.Text.{codes}
use ai_voice_assistants.Common.Json.{Json, str, obj, end, field}
use ai_voice_assistants.Web.Request.{Url, Headers, text}
use ai_voice_assistants.Web.UriComponent.{encode_uri_component}
use Prim.Native.Char.{code}

pub data Operation : Type 0 where
  check_session sign_out google_sign_in : Operation
  sign_in_email : String → String → Operation
  sign_up_email : String → String → Option String → Operation
  execute_tool : String → Json → Operation
  google_status google_url google_disconnect : Operation
  get_company_profile : Operation
  save_company_profile : Json → Operation
  get_assistant_config get_assistant_versions : Operation
  validate_assistant_config store_assistant_config : Json → Operation
  get_three_cx disconnect_three_cx : Operation
  save_three_cx : Json → Operation
  get_call_history get_tasks : String → Operation
  cancel_task : List ℕ → Operation

pub record Call : Type 0 where
  pub method : String
  pub path : List ℕ
  pub headers : Headers
  pub content : Option Json
  pub timeout : ℕ

-- `email.split('@')[0]`.
unfoldable pub before_at : String → String
before_at String.[] = ""
before_at (String.◌∷◌ c s) =
    let rest = before_at s in if code c == b'@' then "" else String.◌∷◌ c rest

-- `name || email.split('@')[0]`.
abbrev resolved_name : Option String → String → String
resolved_name none email = before_at email
resolved_name (some name) email = if str_eq name "" then before_at email else name

module _ (parse_url : String → Option Url) where
  unfoldable pub request_origin : String → String
  request_origin web_base = elim (parse_url web_base) [ none ↦ web_base | some url ↦ url.origin ]

  module _ (web_base callback_url : String) where
    abbrev accept : Headers
    accept = ("accept", text "application/json") ∷ []

    abbrev from_origin : Headers
    from_origin = accept ++ ("origin", text (request_origin web_base)) ∷ []

    abbrev with_json : Headers
    with_json = ("content-type", text "application/json") ∷ from_origin

    abbrev read : String → Headers → ℕ → Option Call
    read path headers timeout = some (record {
      method = "GET";
      path = codes path;
      headers = headers;
      content = none;
      timeout = timeout;
    })

    abbrev change : String → List ℕ → Headers → Option Json → ℕ → Option Call
    change method path headers content timeout = some (record {
      method = method;
      path = path;
      headers = headers;
      content = content;
      timeout = timeout;
    })

    abbrev pub cancel_call : Option (List ℕ) → Option Call
    cancel_call none = none
    cancel_call (some id) = change "POST" (codes "/api/tasks/" ++ id) from_origin none 5000

    -- `none`: the call throws before it sends a request.
    unfoldable pub call_of : Operation → Option Call
    unfolding request_origin before_at
    call_of check_session = read "/api/auth/get-session" accept 5000
    call_of (sign_in_email email password) =
        change "POST" (codes "/api/auth/sign-in/email") with_json
          (some (
            obj (
              field "email" (str email)
                (field "password" (str password) (field "callbackURL" (str callback_url) end)))))
          8000
    call_of (sign_up_email email password name) =
        change "POST" (codes "/api/auth/sign-up/email") with_json
          (some (
            obj (
              field "email" (str email) (
                field "password" (str password) (
                  field "name" (str (resolved_name name email))
                    (field "callbackURL" (str callback_url) end))))))
          8000
    call_of google_sign_in =
        change "POST" (codes "/api/auth/sign-in/social") with_json
          (some
            (obj (field "provider" (str "google") (field "callbackURL" (str callback_url) end))))
          6000
    call_of sign_out = change "POST" (codes "/api/auth/sign-out") with_json (some (obj end)) 5000
    call_of (execute_tool name args) =
        change "POST" (codes "/api/tools/execute") with_json
          (some (obj (field "tool_name" (str name) (field "parameters" args end)))) 8000
    call_of google_status = read "/auth/google/status" from_origin 4000
    call_of google_url = read "/auth/google/url" from_origin 5000
    call_of google_disconnect =
        change "POST" (codes "/auth/google/disconnect") from_origin none 5000
    call_of get_company_profile = read "/api/company-profile" accept 4000
    call_of (save_company_profile profile) =
        change "POST" (codes "/api/company-profile") with_json (some profile) 5000
    call_of get_assistant_config = read "/api/assistant-config" accept 4000
    call_of get_assistant_versions = read "/api/assistant-config/versions" accept 4000
    call_of (validate_assistant_config payload) =
        change "POST" (codes "/api/assistant-config/validate") with_json (some payload) 5000
    call_of (store_assistant_config payload) =
        change "POST" (codes "/api/assistant-config") with_json (some payload) 6000
    call_of get_three_cx = read "/api/integrations/3cx" accept 4000
    call_of (save_three_cx payload) =
        change "PUT" (codes "/api/integrations/3cx") with_json (some payload) 6000
    call_of disconnect_three_cx =
        change "DELETE" (codes "/api/integrations/3cx") from_origin none 5000
    call_of (get_call_history limit) = some (record {
      method = "GET";
      path = codes "/api/integrations/3cx/calls?limit=" ++ codes limit;
      headers = from_origin;
      content = none;
      timeout = 5000;
    })
    call_of (get_tasks limit) = some (record {
      method = "GET";
      path = codes "/api/tasks?limit=" ++ codes limit;
      headers = accept;
      content = none;
      timeout = 4000;
    })
    call_of (cancel_task id) = cancel_call (encode_uri_component id)
