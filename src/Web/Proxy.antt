-- ===== src/Web/Proxy.antt =====
-- `proxyBackend` of frontend/src/lib/backendProxy.ts, and frontend/src/lib/mockMode.ts. What the
-- backend answers to each attempt is a parameter.
use ai_voice_assistants.Common.{
  ℕ, zero, suc, ◌+◌, ◌*◌, String, Bool, true, false, not, ◌&&◌, ◌||◌, Option, none, some, List, [],
  ◌∷◌, if◌then◌else◌, str_eq, ltb, leb, ◌==◌,
}
use ai_voice_assistants.Common.Text.{codes}
use ai_voice_assistants.Web.Context.{
  Env, Crypto, Reply, Context, get_verified_request_context, context_header,
}
use ai_voice_assistants.Web.Request.{
  Request, Headers, Query, text, signed, get, delete, set, header, Url, is_same_origin_mutation,
}

unfoldable pub is_mock_mode : Env → Bool
is_mock_mode env = str_eq env.next_public_mock_mode "true" || str_eq env.mock_mode "true"

pub record Options : Type 0 where
  pub timeout_ms : Option ℕ
  pub retries : Option ℕ
  pub require_recent_auth : Bool
  pub recent_auth_window_ms : Option ℕ

abbrev pub no_options : Options
no_options = record {
  timeout_ms = none;
  retries = none;
  require_recent_auth = false;
  recent_auth_window_ms = none;
}

abbrev pub ℕ_or : ℕ → Option ℕ → ℕ
ℕ_or d none = d
ℕ_or d (some n) = n

-- What goes to the backend.
pub record Sent : Type 0 where
  pub path : List ℕ
  pub method : String
  pub query : Query
  pub headers : Headers
  pub body : Option String
  pub timeout_ms : ℕ

pub record BackendReply : Type 0 where
  pub status : ℕ
  pub headers : Headers
  pub body : String

-- An answer of the proxy's own making has a status and an error code; the other is the backend's.
pub data Response : Type 0 where
  mocked : Response
  refused : ℕ → String → Response
  passed : BackendReply → Response

abbrev pub set_if : String → Option String → Headers → Headers
set_if name none to = to
set_if name (some v) to = set name (text v) to

abbrev pub copy_header : String → Headers → Headers → Headers
copy_header name from to = set_if name (header name from) to

unfoldable pub response_headers : Headers → Headers
response_headers from =
    set "cache-control" (text "no-store")
      (copy_header "location" from (copy_header "content-type" from []))

abbrev pub passed_on : BackendReply → Response
passed_on reply = passed (record reply { headers = response_headers reply.headers })

-- A status with which `new Response` can be made for a body that is there: it throws for one that is
-- out of range, and for one that allows no body.
abbrev pub is_constructible : ℕ → Bool
is_constructible status =
    leb 200 status
    && leb status 599
    && not (status == 204)
    && not (status == 205)
    && not (status == 304)

-- The answer where a response can be made of it.
abbrev pub usable : Option BackendReply → Option BackendReply
usable none = none
usable (some reply) = if is_constructible reply.status then some reply else none

-- One attempt, and what follows it if it fails.
unfoldable pub attempt_then :
    Sent → Response × List Sent → Option BackendReply → Response × List Sent
attempt_then sent rest none = (rest.0, sent ∷ rest.1)
attempt_then sent rest (some reply) = (passed_on reply, sent ∷ [])

-- The attempts from `attempt` on, of which `left` may follow the first; `none` where the request or
-- the reading of its body throws. An attempt of whose answer no response can be made fails too. The second component is what was sent.
unfoldable pub attempts : (ℕ → Option BackendReply) → Sent → ℕ → ℕ → Response × List Sent
unfolding attempt_then
attempts backend sent attempt zero =
    attempt_then sent (refused 502 "BACKEND_PROXY_ERROR", []) (usable (backend attempt))
attempts backend sent attempt (suc left) =
    attempt_then sent (attempts backend sent (attempt + 1) left) (usable (backend attempt))

abbrev pub forwarded_headers : Headers → Headers
forwarded_headers headers =
    delete "x-verified-session-context"
      (delete "cookie" (delete "content-length" (delete "host" headers)))

abbrev pub vouch : Context → Headers → Headers
vouch context headers =
    set "x-verified-session-context" (signed (context_header context).0 (context_header context).1)
      headers

abbrev pub forwarded : Request → List ℕ → Options → Context → Sent
forwarded request path options context = record {
  path = path;
  method = request.method;
  query = delete "user_id" request.query;
  headers = vouch context (forwarded_headers request.headers);
  body =
      if str_eq request.method "GET" || str_eq request.method "HEAD"
      then none
      else some request.body;
  timeout_ms = ℕ_or 15_000 options.timeout_ms;
}

-- Whether the session is too old, or is not yet there, at the time `now`.
unfoldable pub is_stale : Options → Option ℕ → ℕ → Bool
is_stale options none now = true
is_stale options (some created) now =
    ltb now created || ltb (created + ℕ_or (10 * 60 * 1000) options.recent_auth_window_ms) now

abbrev pub parameter : String → Query → Option (List ℕ)
parameter name query = elim (get name query) [ none ↦ none | some v ↦ some (codes v) ]

abbrev pub is_present : Option String → Bool
is_present none = false
is_present (some s) = true

-- What the world answers to one request: the identity provider's answer to its cookie, the times
-- at which the context is made and the age is tested, and the backend's answers.
pub record World : Type 0 where
  pub identity : Reply
  pub now : ℕ
  pub later : ℕ
  pub backend : ℕ → Option BackendReply

module _ (parse_url : String → Option Url) (crypto : Crypto) where
  abbrev pub verified : Env → Request → World → Option Context
  verified env request world =
      get_verified_request_context env crypto (is_present (header "cookie" request.headers))
        world.identity (parameter "session_id" request.query) world.now

  unfoldable pub proxy_backend :
      Env → Option String → Request → List ℕ → Options → World → Response × List Sent
  proxy_backend env app_origin request path options world =
      if is_mock_mode env
      then (mocked, [])
      else if not (is_same_origin_mutation parse_url app_origin request)
      then (refused 403 "CSRF_REJECTED", [])
      else elim (verified env request world) [
        | none ↦ (refused 401 "AUTHENTICATION_REQUIRED", [])
        | some context ↦
            if options.require_recent_auth
              && is_stale options context.session_created_at world.later
            then (refused 403 "RECENT_AUTHENTICATION_REQUIRED", [])
            else attempts world.backend (forwarded request path options context) 0
                (ℕ_or 0 options.retries)
      ]
