-- ===== src/Web/Tests.antt =====
-- The theorems on the web application's server side at a concrete request.
use ai_voice_assistants.Common.{
  any, str_eq, ℕ, zero, suc, ◌≡◌, refl, String, true, false, Option, none, some, List, [], ◌∷◌,
  arith, All,
}
use ai_voice_assistants.Common.Json.{Json, obj, end, field, str}
use ai_voice_assistants.Common.Text.{codes}
use ai_voice_assistants.Web.Context.{
  Env, Crypto, Context, Reply, payload, stable_company_id, company_id_of,
  get_verified_request_context, authenticate, read_neon_session, auth_of, user_of, context_of,
  is_session_id, signing_secret,
}
use ai_voice_assistants.Web.CompanyId.{uuid, fits_all, IsDigest, stable_company_id-fits}
use ai_voice_assistants.Web.Verified.{IsVouched, get_verified_request_context-IsVouched}
use ai_voice_assistants.Web.Request.{
  Url, Request, text, header, get, expected_origin, normalize_origin, is_same_origin_mutation,
}
use ai_voice_assistants.Web.Proxy.{Options, World, no_options, is_mock_mode, proxy_backend}
use ai_voice_assistants.Web.Gate.{IsAdmitted, proxy_backend-IsAdmitted}
use ai_voice_assistants.Web.Paths.{resolve, is_dots}
use ai_voice_assistants.Web.UriComponent.{
  encode_uri_component, encode_from, encode_point, escaped, utf8,
}
use ai_voice_assistants.Web.Routes.{Route, Method, respond}
use ai_voice_assistants.Web.Safety.{IsWithin, is_proper, respond-IsWithin}
use ai_voice_assistants.Web.Identity.{
  AuthSent, AuthReply, passed, IsAnswered, is_configured, sent_to_provider, request_names, forward,
  forward-IsPassedOn,
}
use ai_voice_assistants.Web.ToolRoute.{
  SentCall, call_of, IsGranted, post, post_body, post-IsGranted,
}

abbrev digest : List ℕ
digest = codes "0123456789abcdef0123456789abcdef0123456789abcdef0123456789abcdef"

digest-IsDigest : IsDigest digest
digest-IsDigest = (ground arith, refl)

abbrev crypto : Crypto
crypto = record {
  sha256_hex = λ s. digest;
  hmac_hex = λ secret claims. secret;
  parse_date = λ s. none;
}

stable_company_id-fits_example : fits_all uuid (stable_company_id crypto (codes "ann")) ≡ true
stable_company_id-fits_example = stable_company_id-fits crypto (λ s. digest-IsDigest) (codes "ann")

digest-company : company_id_of digest ≡ codes "01234567-89ab-4def-8123-456789abcdef"
unfolding company_id_of
digest-company = refl

abbrev env : Env
env = record {
  neon_auth_url = some "https://auth";
  neon_auth_base_url = none;
  node_env = "production";
  allow_dev_local_auth = "";
  mock_mode = "";
  next_public_mock_mode = "";
  session_context_secret = some "secret";
}

abbrev known : Reply
known = payload (
    obj (
      field "user" (obj (field "id" (str "ann") end))
        (field "session" (obj (field "id" (str "session-1") end)) end)))

abbrev context : Context
context = record {
  claims = record {
    session_id = codes "session-1";
    company_id = stable_company_id crypto (codes "ann");
    auth_subject = codes "ann";
    issued_at = 5;
  };
  signature = "secret";
  session_created_at = none;
}

known-context : get_verified_request_context env crypto true known none 5_000 ≡ some context
unfolding get_verified_request_context authenticate read_neon_session auth_of user_of context_of
    is_session_id signing_secret
known-context = refl

get_verified_request_context-IsVouched_example : IsVouched env crypto true known 5_000 context
get_verified_request_context-IsVouched_example =
    get_verified_request_context-IsVouched env crypto true known none 5_000 context known-context

abbrev unset : Env
unset = record env { session_context_secret = none }

abbrev parse_url : String → Option Url
parse_url s = some (record {
  protocol = "https:";
  username = "";
  password = "";
  pathname = "/";
  search = "";
  hash = "";
  origin = s;
})

abbrev request : Request
request = record {
  method = "POST";
  origin = "https://app";
  query = ("user_id", "eve") ∷ ("session_id", "session-1") ∷ [];
  headers = ("cookie", text "c") ∷ ("origin", text "https://app") ∷ ("accept", text "x") ∷ [];
  body = "{}";
}

-- The first attempt fails, and the second is answered.
abbrev world : World
world = record {
  identity = known;
  now = 5_000;
  later = 5_001;
  backend = λ i. elim i [
    | zero ↦ none
    | suc j ↦ some (record { status = 200; headers = []; body = "ok" })
  ];
}

abbrev twice : Options
twice = record no_options { retries = some 1 }

proxy_backend-IsAdmitted_example :
    All
      (IsAdmitted parse_url crypto env none request (codes "/tasks") twice world)
      (proxy_backend parse_url crypto env none request (codes "/tasks") twice world).1
proxy_backend-IsAdmitted_example =
    proxy_backend-IsAdmitted parse_url crypto env none request (codes "/tasks") twice world

abbrev booking : Json
booking = obj (field "tool_name" (str "book_event") end)

abbrev sent : SentCall
sent = record { context = context; call = call_of booking }

post-sent : (post parse_url crypto env none request world none (some booking)).1 ≡ some sent
unfolding post post_body is_same_origin_mutation normalize_origin expected_origin header get
    is_mock_mode get_verified_request_context authenticate read_neon_session auth_of user_of
    context_of is_session_id signing_secret
post-sent = refl

post-IsGranted_example : IsGranted parse_url crypto env none request world sent
post-IsGranted_example =
    post-IsGranted parse_url crypto env none request world none (some booking) sent post-sent

-- The request cancels a task, whose ID tries to leave its segment.
abbrev cancelled : List ℕ
cancelled = codes "../x?y"

cancelled-encoded : encode_uri_component cancelled ≡ some (codes "..%2Fx%3Fy")
unfolding encode_uri_component encode_from encode_point escaped utf8
cancelled-encoded = refl

cancelled-proper : is_proper (some (codes "..%2Fx%3Fy")) ≡ true
unfolding is_dots
cancelled-proper = refl

up-status : resolve (codes "/tasks/../status") ≡ codes "/status"
unfolding resolve
up-status = refl

respond-IsWithin_example :
    All
      (IsWithin "/tasks/" "/status")
      (respond parse_url crypto env none request world (Route.task cancelled) Method.get).1
    × All
        (IsWithin "/tasks/" "/cancel")
        (respond parse_url crypto env none request world (Route.task cancelled) Method.post).1
    × All
        (IsWithin "/bookings/" "")
        (respond parse_url crypto env none request world (Route.booking cancelled) Method.get).1
    × All
        (IsWithin "/bookings/" "/cancel")
        (respond parse_url crypto env none request world (Route.booking cancelled) Method.post).1
respond-IsWithin_example =
    respond-IsWithin parse_url crypto env none request world cancelled
      (rw cancelled-encoded cancelled-proper)

abbrev signed_in : AuthReply
signed_in = record { status = 200; headers = []; cookies = "s=1" ∷ []; body = "{}" }

forward-IsPassedOn_example :
    ((sent : AuthSent)
      → (forward parse_url env none request ("sign-in" ∷ []) (some signed_in)).1 ≡ some sent
      → (is_mock_mode env ≡ false)
        × (is_same_origin_mutation parse_url none request ≡ true)
        × ((name : String)
            → any (λ n. str_eq n name) request_names ≡ false
            → get name sent.headers ≡ none)
        × IsAnswered
            (some signed_in)
            (forward parse_url env none request ("sign-in" ∷ []) (some signed_in)).0)
    × ((r : AuthReply)
        → (forward parse_url env none request ("sign-in" ∷ []) (some signed_in)).0 ≡ passed r
        → (forward parse_url env none request ("sign-in" ∷ []) (some signed_in)).1
          ≡ some (sent_to_provider request ("sign-in" ∷ [])))
    × (is_mock_mode env ≡ false
        → is_configured env ≡ true
        → is_same_origin_mutation parse_url none request ≡ true
        → (forward parse_url env none request ("sign-in" ∷ []) (some signed_in)).1
          ≡ some (sent_to_provider request ("sign-in" ∷ [])))
forward-IsPassedOn_example =
    forward-IsPassedOn parse_url env none request ("sign-in" ∷ []) (some signed_in)
