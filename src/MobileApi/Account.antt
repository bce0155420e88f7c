-- ===== src/MobileApi/Account.antt =====
-- The account of the mobile application: mobile/src/context/AuthContext.tsx over the API client.
-- `refreshSession` is cut at its awaits, so that several calls and a sign-out may be in flight at
-- once; what `Promise.all` waits for is answered in one event.
use ai_voice_assistants.Common.{
  ℕ, ◌+◌, ◌-◌, String, Bool, true, false, not, Option, none, some, List, [], ◌∷◌, if◌then◌else◌,
  ltb,
}
use ai_voice_assistants.Common.Text.{is_blank}
use ai_voice_assistants.Common.Json.{Json, null, bool, str, property, is_text}
use ai_voice_assistants.MobileApi.Assistant.{Answer, Loaded, optional_field, get_assistant_config}
use ai_voice_assistants.MobileApi.Replies.{
  UserAccount, SessionResponse, unauthenticated, authenticated, check_session,
}
use ai_voice_assistants.MobileApi.Integrations.{get_company_profile, get_assistant_versions}

pub record Auth : Type 0 where
  pub user : Option UserAccount
  pub company_profile : Option Json
  pub assistant_config : Option Loaded
  pub has_completed_setup : Bool
  pub is_loading : Bool
  -- the calls of `refreshSession` that wait for the session, and for the rest
  pub checking : ℕ
  pub fetching : ℕ
  -- the calls of `signOut` in flight
  pub leaving : ℕ

abbrev pub initial : Auth
initial = record {
  user = none;
  company_profile = none;
  assistant_config = none;
  has_completed_setup = false;
  is_loading = true;
  checking = 0;
  fetching = 0;
  leaving = 0;
}

-- `value?.trim()`, as a condition; `none` where the value has no `trim`, which throws.
unfoldable pub named : Option Json → Option Bool
named none = some false
named (some null) = some false
named (some (str s)) = some (not (is_blank s))
named (some v) = none

abbrev pub is_published : Json → Option Bool
is_published null = none
is_published v = some (is_text (property "lifecycle_state" v) "published")

-- `a && b` and `a || b`, where each may throw and the second is asked only if the first leaves it open.
abbrev pub both : Option Bool → Option Bool → Option Bool
both none b = none
both (some false) b = some false
both (some true) b = b

abbrev pub either : Option Bool → Option Bool → Option Bool
either none b = none
either (some true) b = some true
either (some false) b = b

unfoldable pub some_published : List Json → Option Bool
some_published [] = some false
some_published (v ∷ vs) = either (is_published v) (some_published vs)

abbrev is_true : Option Json → Bool
is_true (some (bool b)) = b
is_true _ = false

abbrev pub content_of : Option Loaded → Option Json
content_of none = none
content_of (some config) = some config.content

abbrev pub assistant_name : Option Loaded → Option Json
assistant_name assistant = optional_field "assistant_name" (content_of assistant)

-- What `setHasCompletedSetup` is given, or `none` where computing it throws.
unfoldable pub completed : Option Json → Option Loaded → List Json → Option Bool
unfolding named some_published
completed profile assistant versions = both (named (optional_field "company_name" profile)) (
    both (named (assistant_name assistant)) (
      either (some (is_true (optional_field "is_deployed" (content_of assistant))))
        (some_published versions)))

abbrev pub cleared : Auth → Auth
cleared s = record s {
  user = none;
  company_profile = none;
  assistant_config = none;
  has_completed_setup = false;
}

unfoldable pub refresh_session : Auth → Auth
refresh_session s = record s { checking = s.checking + 1 }

-- The session's answer.
abbrev pub checked : SessionResponse → Auth → Auth
checked unauthenticated s = record (cleared s) { is_loading = false }
checked (authenticated user session) s = record s { user = some user; fetching = s.fetching + 1 }

unfoldable pub session_checked : Option Answer → Auth → Auth
unfolding check_session
session_checked answer s =
    if ltb 0 s.checking
    then checked (check_session answer) (record s { checking = s.checking - 1 })
    else s

abbrev pub stored : Option Bool → Option Json → Option Loaded → Auth → Auth
stored none profile assistant s = record (cleared s) { is_loading = false }
stored (some complete) profile assistant s = record s {
  company_profile = profile;
  assistant_config = assistant;
  has_completed_setup = complete;
  is_loading = false;
}

-- The answers for the profile, the configuration and the versions.
unfoldable pub rest_fetched : Option Answer → Option Answer → Option Answer → Auth → Auth
unfolding completed get_company_profile get_assistant_config get_assistant_versions
rest_fetched profile config versions s =
    if ltb 0 s.fetching
    then stored
        (completed (get_company_profile profile) (get_assistant_config config)
          (get_assistant_versions versions))
        (get_company_profile profile) (get_assistant_config config)
        (record s { fetching = s.fetching - 1 })
    else s

unfoldable pub sign_out_called : Auth → Auth
sign_out_called s = record s { leaving = s.leaving + 1 }

-- The sign-out settles; its answer is not read.
unfoldable pub signed_out : Auth → Auth
signed_out s = if ltb 0 s.leaving then record (cleared s) { leaving = s.leaving - 1 } else s

-- The application's state changes; it is refreshed where it becomes active.
unfoldable pub app_state_changed : String → Auth → Auth
unfolding refresh_session
app_state_changed state s = if is_text (some (str state)) "active" then refresh_session s else s

pub data Event : Type 0 where
  mounted : Event
  app_state : String → Event
  session_answered : Option Answer → Event
  rest_answered : Option Answer → Option Answer → Option Answer → Event
  sign_out_asked sign_out_settled : Event

unfoldable pub step : Event → Auth → Auth
unfolding refresh_session app_state_changed session_checked rest_fetched sign_out_called signed_out
step mounted s = refresh_session s
step (app_state state) s = app_state_changed state s
step (session_answered answer) s = session_checked answer s
step (rest_answered profile config versions) s = rest_fetched profile config versions s
step sign_out_asked s = sign_out_called s
step sign_out_settled s = signed_out s

unfoldable pub run : List Event → Auth → Auth
unfolding step
run [] s = s
run (e ∷ es) s = run es (step e s)
