-- ===== src/Web/Identity.antt =====
-- frontend/src/app/api/auth/[...path]/route.ts: the forwarding to the identity provider. Its cookies
-- are kept beside the other headers.
use ai_voice_assistants.Common.{
  ℕ, ◌≡◌, refl, ◌∙◌, inl, inr, String, Bool, true, false, not, ◌&&◌, ◌||◌, Option, none, some, List,
  [], ◌∷◌, if◌then◌else◌, ◌==◌, str_eq, any, arith, Bool-cases,
}
use Prim.Native.Char.{code}
use ai_voice_assistants.Web.Context.{Env}
use ai_voice_assistants.Web.Request.{
  Request, Headers, Query, Url, text, get, set, get-set, header, is_same_origin_mutation,
}
use ai_voice_assistants.Web.Proxy.{copy_header, set_if, is_mock_mode, is_constructible}
use ai_voice_assistants.Web.Forwarding.{
  AllowsBody, is_constructible-AllowsBody, AllowsBody-is_constructible,
}

-- Nothing is left of a text without the slashes at its end.
abbrev only_slashes : String → Bool
only_slashes String.[] = true
only_slashes (String.◌∷◌ c s) = code c == b'/' && only_slashes s

abbrev or_nothing : Option String → String
or_nothing none = ""
or_nothing (some a) = a

abbrev first_set : String → String → String
first_set a b = if str_eq a "" then b else a

unfoldable pub is_configured : Env → Bool
is_configured env =
    not
      (only_slashes (first_set (or_nothing env.neon_auth_url) (or_nothing env.neon_auth_base_url)))

unfoldable pub copy_headers : List String → Headers → Headers → Headers
copy_headers [] from to = to
copy_headers (name ∷ names) from to = copy_headers names from (copy_header name from to)

abbrev pub request_names : List String
request_names = "accept" ∷ "content-type" ∷ "cookie" ∷ "user-agent" ∷ "origin" ∷ []

abbrev response_names : List String
response_names = "content-type" ∷ "location" ∷ "cache-control" ∷ []

pub record AuthSent : Type 0 where
  pub path : List String
  pub method : String
  pub query : Query
  pub headers : Headers
  pub body : Option String

pub record AuthReply : Type 0 where
  pub status : ℕ
  pub headers : Headers
  pub cookies : List String
  pub body : String

pub data AuthResponse : Type 0 where
  mocked : AuthResponse
  refused : ℕ → AuthResponse
  passed : AuthReply → AuthResponse

abbrev answered : AuthReply → AuthReply
answered reply = record reply {
  headers = set "cache-control" (text "no-store") (copy_headers response_names reply.headers []);
}

-- The answer that is given on, unless no response can be made of it.
unfoldable pub pass_on : Option AuthReply → AuthResponse
unfolding copy_headers
pass_on none = refused 502
pass_on (some reply) =
    if is_constructible reply.status then passed (answered reply) else refused 502

abbrev pub sent_to_provider : Request → List String → AuthSent
sent_to_provider request path = record {
  path = path;
  method = request.method;
  query = request.query;
  headers = copy_headers request_names request.headers [];
  body =
      if str_eq request.method "GET" || str_eq request.method "HEAD"
      then none
      else some request.body;
}

-- `reply`: the provider's answer, or `none` where the request or the reading of its body throws.
unfoldable pub forward :
    (String → Option Url)
    → Env
    → Option String
    → Request
    → List String
    → Option AuthReply
    → AuthResponse × Option AuthSent
unfolding pass_on is_configured
forward parse_url env app_origin request path reply =
    if is_mock_mode env
    then (mocked, none)
    else if not (is_configured env)
    then (refused 503, none)
    else if not (is_same_origin_mutation parse_url app_origin request)
    then (refused 403, none)
    else (pass_on reply, some (sent_to_provider request path))

get-set_if :
    (name other : String) (v : Option String) (to : Headers)
    → str_eq name other ≡ false
    → get other (set_if name v to) ≡ get other to
get-set_if name other none to h = refl
get-set_if name other (some v) to h = get-set name other (text v) to ∙ ground arith

get-copy_headers :
    (names : List String) (other : String) (from to : Headers)
    → any (λ name. str_eq name other) names ≡ false
    → get other (copy_headers names from to) ≡ get other to
unfolding copy_headers
get-copy_headers [] other from to h = refl
get-copy_headers (name ∷ names) other from to h =
    get-copy_headers names other from (copy_header name from to) (ground arith)
    ∙ get-set_if name other (header name from) to (ground arith)

-- What the browser is answered, given what the provider answered.
abbrev pub IsPassedOn : AuthReply → AuthReply → Type 0
IsPassedOn given r =
    (r.status ≡ given.status)
    × (r.cookies ≡ given.cookies)
    × (r.body ≡ given.body)
    × (get "cache-control" r.headers ≡ some (text "no-store"))

answered-IsPassedOn : (given : AuthReply) → IsPassedOn given (answered given)
answered-IsPassedOn given = (refl, refl, refl, get-set "cache-control" "cache-control" _ _)

-- Of an answer of the provider, or none, what becomes.
abbrev pub IsAnswered : Option AuthReply → AuthResponse → Type 0
IsAnswered none response = response ≡ refused 502
IsAnswered (some given) response =
    (AllowsBody given.status → (r : AuthReply) × (response ≡ passed r) × IsPassedOn given r)
    × ((AllowsBody given.status → ⊥) → response ≡ refused 502)

not_constructible : (status : ℕ) → (AllowsBody status → ⊥) → is_constructible status ≡ false
not_constructible status h = elim (Bool-cases (is_constructible status)) [
  | inl c ↦ absurd (h (is_constructible-AllowsBody status c))
  | inr c ↦ c
]

pass_on-IsAnswered : (reply : Option AuthReply) → IsAnswered reply (pass_on reply)
unfolding pass_on
pass_on-IsAnswered none = refl
pass_on-IsAnswered (some given) = (
  λ h. (
    answered given,
    rw (AllowsBody-is_constructible given.status h) refl,
    answered-IsPassedOn given,
  ),
  λ h. rw (not_constructible given.status h) refl,
)

module _ (parse_url : String → Option Url) (env : Env) (app_origin : Option String)
    (request : Request) (path : List String) (reply : Option AuthReply) where
  -- A request reaches the identity provider only outside of the mock mode, and if it passes the
  -- same-origin test; of its headers only "accept", "content-type", "cookie", "user-agent" and
  -- "origin" go with it. Then the provider's answer is passed on with its status, its body and all its
  -- cookies, and is never stored, if its status is from 200 to 599 and allows a body, as 204 and 304 do
  -- not; and the error 502 is given if not, and if there is no answer. A request whose answer is passed on
  -- has reached the provider; and one reaches it wherever the mock mode is off, the provider is
  -- configured, and the test is passed.
  pub forward-IsPassedOn :
      ((sent : AuthSent)
        → (forward parse_url env app_origin request path reply).1 ≡ some sent
        → (is_mock_mode env ≡ false)
          × (is_same_origin_mutation parse_url app_origin request ≡ true)
          × ((name : String)
              → any (λ n. str_eq n name) request_names ≡ false
              → get name sent.headers ≡ none)
          × IsAnswered reply (forward parse_url env app_origin request path reply).0)
      × ((r : AuthReply)
          → (forward parse_url env app_origin request path reply).0 ≡ passed r
          → (forward parse_url env app_origin request path reply).1
            ≡ some (sent_to_provider request path))
      × (is_mock_mode env ≡ false
          → is_configured env ≡ true
          → is_same_origin_mutation parse_url app_origin request ≡ true
          → (forward parse_url env app_origin request path reply).1
            ≡ some (sent_to_provider request path))
  unfolding forward get
  forward-IsPassedOn = elim (Bool-cases (is_mock_mode env)) [
    | inl m ↦ (
      λ sent h. absurd (ground arith),
      λ r h. absurd (ground arith),
      λ x y z. absurd (ground arith),
    )
    | inr m ↦ elim (Bool-cases (is_configured env)) [
      | inr c ↦ (
        λ sent h. absurd (ground arith),
        λ r h. absurd (ground arith),
        λ x y z. absurd (ground arith),
      )
      | inl c ↦ elim (Bool-cases (is_same_origin_mutation parse_url app_origin request)) [
        | inr o ↦ (
          λ sent h. absurd (ground arith),
          λ r h. absurd (ground arith),
          λ x y z. absurd (ground arith),
        )
        | inl o ↦ (
          λ sent h. (
            m,
            o,
            (λ name other.
                let e : sent_to_provider request path ≡ sent = ground arith in
                rw (← e) (get-copy_headers request_names name request.headers [] other)),
            rw (m, c, o) (pass_on-IsAnswered reply),
          ),
          λ r h. rw (m, c, o) refl,
          λ x y z. rw (m, c, o) refl,
        )
      ]
    ]
  ]
