-- ===== src/Web/Routes.antt =====
-- The route handlers under frontend/src/app/api, and frontend/src/app/auth/google/[path]/route.ts:
-- which of them answer by themselves, and what the others ask `proxyBackend` for.
use ai_voice_assistants.Common.{ℕ, String, true, Option, none, some, List, [], ◌∷◌, ◌++◌}
use ai_voice_assistants.Common.Text.{codes}
use ai_voice_assistants.Web.Context.{Env, Crypto}
use ai_voice_assistants.Web.Request.{Request, Url}
use ai_voice_assistants.Web.Proxy.{Options, no_options, Sent, Response, World, proxy_backend}
use ai_voice_assistants.Web.UriComponent.{encode_uri_component}

-- The files, each with the dynamic part of its path.
pub data Route : Type 0 where
  assistant_config assistant_rollback assistant_runtime assistant_publish assistant_validate : Route
  assistant_versions user_preferences company_profile threecx threecx_calls : Route
  integrations_status livekit_token tasks bookings dashboard_summary : Route
  legacy_token gemini_token : Route
  task booking google : List ℕ → Route

pub data Method : Type 0 where
  get post put patch delete : Method

-- What a handler does; `unexported` where the file has none for the method, and `throws` where
-- `encodeURIComponent` does.
pub data Handler : Type 0 where
  unexported throws : Handler
  gone : String → Handler
  id_required : Handler
  proxied : List ℕ → Options → Handler

abbrev pub patient : Options
patient = record no_options { timeout_ms = some 10_000 }

abbrev pub recently_signed_in : Options
recently_signed_in = record no_options { require_recent_auth = true }

abbrev pub retried_once : Options
retried_once = record no_options { timeout_ms = some 30_000; retries = some 1 }

abbrev plain : String → Handler
plain path = proxied (codes path) no_options

-- The path of a handler with an ID, once that is encoded.
unfoldable pub with_encoded : String → String → Option (List ℕ) → Handler
with_encoded prefix suffix none = throws
with_encoded prefix suffix (some encoded) =
    proxied (codes prefix ++ (encoded ++ codes suffix)) patient

-- A handler with an ID in the path, which must not be empty.
unfoldable pub with_id : String → List ℕ → String → Handler
unfolding with_encoded
with_id prefix [] suffix = id_required
with_id prefix (c ∷ id) suffix = with_encoded prefix suffix (encode_uri_component (c ∷ id))

unfoldable pub handler : Route → Method → Handler
unfolding with_id
handler assistant_config get = plain "/assistant-config"
handler assistant_config post = plain "/assistant-config"
handler assistant_rollback post = plain "/assistant-config/rollback"
handler assistant_runtime get = plain "/assistant-config/runtime"
handler assistant_publish post = plain "/assistant-config/publish"
handler assistant_validate post = plain "/assistant-config/validate"
handler assistant_versions get = plain "/assistant-config/versions"
handler user_preferences get = plain "/user-preferences"
handler user_preferences put = plain "/user-preferences"
handler company_profile get = plain "/company-profile"
handler company_profile post = plain "/company-profile"
handler threecx get = plain "/api/integrations/3cx"
handler threecx post = proxied (codes "/api/integrations/3cx/test") recently_signed_in
handler threecx put = proxied (codes "/api/integrations/3cx") recently_signed_in
handler threecx delete = proxied (codes "/api/integrations/3cx") recently_signed_in
handler threecx_calls get = plain "/api/integrations/3cx/calls"
handler integrations_status get = plain "/api/integrations/status"
handler livekit_token get = proxied (codes "/livekit/token") retried_once
handler tasks get = proxied (codes "/tasks") patient
handler bookings get = proxied (codes "/bookings") patient
handler dashboard_summary get = plain "/api/dashboard/summary"
handler legacy_token get = gone "LEGACY_VOICE_PATH_DISABLED"
handler gemini_token get = gone "DIRECT_VOICE_DISABLED"
handler (task id) get = with_id "/tasks/" id "/status"
handler (task id) post = with_id "/tasks/" id "/cancel"
handler (booking id) get = with_id "/bookings/" id ""
handler (booking id) post = with_id "/bookings/" id "/cancel"
handler (google path) get = proxied (codes "/auth/google/" ++ path) retried_once
handler (google path) post = proxied (codes "/auth/google/" ++ path) retried_once
handler _ _ = unexported

pub data Reply : Type 0 where
  own : Handler → Reply
  of_proxy : Response → Reply

module _ (parse_url : String → Option Url) (crypto : Crypto) where
  -- The answer of a handler, and what it sends to the backend.
  unfoldable pub perform : Env → Option String → Request → World → Handler → Reply × List Sent
  perform env app_origin request world (proxied path options) =
      let result = proxy_backend parse_url crypto env app_origin request path options world in
      (of_proxy result.0, result.1)
  perform env app_origin request world h = (own h, [])

  unfoldable pub respond :
      Env → Option String → Request → World → Route → Method → Reply × List Sent
  unfolding perform handler
  respond env app_origin request world route method =
      perform env app_origin request world (handler route method)
