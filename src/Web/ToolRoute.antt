-- ===== src/Web/ToolRoute.antt =====
-- The handler of frontend/src/app/api/tools/execute/route.ts, which hands a tool call of the
-- assistant to the backend. The texts of its error messages are left out.
use ai_voice_assistants.Common.{
  ℕ, ◌≡◌, String, Bool, true, false, not, ◌&&◌, Option, none, some, if◌then◌else◌, leb, ltb, arith,
  Bool-cases, Option-cases, inl, inr,
}
use ai_voice_assistants.Common.Json.{
  Json, null, obj, end, field, str, property, truthy_field, or_json,
}
use ai_voice_assistants.Policy.Turns.{is_allowed_calendar_tool}
use ai_voice_assistants.Web.Context.{Env, Crypto, Context}
use ai_voice_assistants.Web.Request.{Request, Url, is_same_origin_mutation}
use ai_voice_assistants.Web.Proxy.{World, is_mock_mode, verified}

-- What `JSON.stringify` is applied to.
pub record ToolCall : Type 0 where
  pub tool_name : Json
  pub parameters : Json
  pub session_id : Json
  pub idempotency_key : Json

pub data Answer : Type 0 where
  error : ℕ → String → Answer
  name_required : Answer
  mocked : Json → Json → Answer
  relayed : ℕ → Json → Answer

-- The backend's status, and its body if that is JSON.
pub record ToolReply : Type 0 where
  pub status : ℕ
  pub body : Option Json

abbrev or_object : Option Json → Json
or_object none = obj end
or_object (some v) = v

-- `isAllowedCalendarTool(tool_name)` for a value that need not be a string.
abbrev pub is_allowed : Option Json → Bool
is_allowed (some (str name)) = is_allowed_calendar_tool name
is_allowed _ = false

unfoldable pub relay : ToolReply → Answer
relay reply = elim reply.body [
  | some v ↦ relayed reply.status v
  | none ↦ relayed reply.status (
      obj (
        field "status"
          (str (if leb 200 reply.status && ltb reply.status 300 then "success" else "error"))
          (field "error_code" (str "INVALID_BACKEND_RESPONSE") end)))
]

abbrev pub call_of : Json → ToolCall
call_of body = record {
  tool_name = or_json (property "tool_name" body) null;
  parameters = or_object (property "parameters" body);
  session_id = or_json (property "session_id" body) null;
  idempotency_key = or_json (property "idempotency_key" body) null;
}

-- What is sent to the backend: the context that is vouched for, and the call.
pub record SentCall : Type 0 where
  pub context : Context
  pub call : ToolCall

abbrev is_null : Json → Bool
is_null null = true
is_null _ = false

-- The answer to a call that is sent; `none` where the request throws.
unfoldable pub settle : Option ToolReply → Answer
unfolding relay
settle none = error 502 "BACKEND_PROXY_ERROR"
settle (some reply) = relay reply

module _ (parse_url : String → Option Url) (crypto : Crypto) where
  unfoldable pub post_body :
      Env → Request → World → Option ToolReply → Json → Answer × Option SentCall
  unfolding settle is_mock_mode is_allowed_calendar_tool
  post_body env request world reply body =
      if is_null body
      then (error 502 "BACKEND_PROXY_ERROR", none)
      else if not (truthy_field (property "tool_name" body))
      then (name_required, none)
      else if is_mock_mode env
      then (mocked (call_of body).tool_name (call_of body).parameters, none)
      else if not (is_allowed (property "tool_name" body))
      then (error 403 "POLICY_TOOL_DENIED", none)
      else elim (verified parse_url crypto env request world) [
        | none ↦ (error 401 "AUTHENTICATION_REQUIRED", none)
        | some context ↦ (settle reply, some (record { context = context; call = call_of body }))
      ]

  -- `body`: the parsed body, or `none` where it is not JSON, which throws.
  unfoldable pub post :
      Env
      → Option String
      → Request
      → World
      → Option ToolReply
      → Option Json
      → Answer × Option SentCall
  unfolding post_body
  post env app_origin request world reply body =
      if not (is_same_origin_mutation parse_url app_origin request)
      then (error 403 "CSRF_REJECTED", none)
      else elim body [
        | none ↦ (error 502 "BACKEND_PROXY_ERROR", none)
        | some v ↦ post_body env request world reply v
      ]

  pub record IsGranted (env : Env) (app_origin : Option String) (request : Request) (world : World)
      (sent : SentCall) : Type 0 where
    pub live : is_mock_mode env ≡ false
    pub own : is_same_origin_mutation parse_url app_origin request ≡ true
    pub known : verified parse_url crypto env request world ≡ some sent.context
    pub allowed :
        (name : String) × (sent.call.tool_name ≡ str name) × (is_allowed_calendar_tool name ≡ true)

  -- `tool_name` of the body, if it is allowed, is the name that is sent.
  is_allowed-name :
      (o : Option Json)
      → is_allowed o ≡ true
      → truthy_field o ≡ true
      → (name : String) × (or_json o null ≡ str name) × (is_allowed_calendar_tool name ≡ true)
  is_allowed-name (some (str name)) h t = (name, ground arith, h)
  is_allowed-name _ h t = absurd (ground arith)

  post_body-sent :
      (env : Env) (request : Request) (world : World) (reply : Option ToolReply) (body : Json)
      (sent : SentCall)
      → (post_body env request world reply body).1 ≡ some sent
      → (is_mock_mode env ≡ false)
        × (truthy_field (property "tool_name" body) ≡ true)
        × (is_allowed (property "tool_name" body) ≡ true)
        × (verified parse_url crypto env request world ≡ some sent.context)
        × (call_of body ≡ sent.call)
  unfolding post_body
  post_body-sent env request world reply body sent h =
      elim (Bool-cases (truthy_field (property "tool_name" body))) [
        | inr t ↦ absurd (ground arith)
        | inl t ↦ elim (Bool-cases (is_mock_mode env)) [
          | inl m ↦ absurd (ground arith)
          | inr m ↦ elim (Bool-cases (is_allowed (property "tool_name" body))) [
            | inr a ↦ absurd (ground arith)
            | inl a ↦ elim (Option-cases (verified parse_url crypto env request world)) [
              | inl v ↦ absurd (ground arith)
              | inr (context, v) ↦ (m, t, a, ground arith, ground arith)
            ]
          ]
        ]
      ]

  -- Whatever is in the body, a tool call reaches the backend only outside of the mock mode, from a
  -- request that passes the same-origin test, with the context that is verified for the request, and
  -- under the name of an allowed calendar tool.
  pub post-IsGranted :
      (env : Env) (app_origin : Option String) (request : Request) (world : World)
      (reply : Option ToolReply) (body : Option Json) (sent : SentCall)
      → (post env app_origin request world reply body).1 ≡ some sent
      → IsGranted env app_origin request world sent
  unfolding post post_body
  post-IsGranted env app_origin request world reply none sent h = absurd (ground arith)
  post-IsGranted env app_origin request world reply (some body) sent h =
      elim (Bool-cases (is_same_origin_mutation parse_url app_origin request)) [
        | inr o ↦ absurd (ground arith)
        | inl o ↦
            let (live, named, allowed, known, call) =
              post_body-sent env request world reply body sent (ground arith) in
            record {
              live = live;
              own = o;
              known = known;
              allowed = rw (← call) (is_allowed-name (property "tool_name" body) allowed named);
            }
      ]
