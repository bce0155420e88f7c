-- ===== src/MobileApi/Tests.antt =====
-- The theorems on mobile/src/services/api.ts at concrete inputs.
use ai_voice_assistants.Common.{
  ◌≡◌, refl, ◌<◌, String, true, false, Option, none, some, [], ◌∷◌, arith,
}
use ai_voice_assistants.Common.Text.{codes, is_blank}
use ai_voice_assistants.Common.Json.{Json, bool, str, obj, end, field}
use ai_voice_assistants.Web.Request.{Url, text, expected_origin, is_same_origin_mutation}
use ai_voice_assistants.Web.UriComponent.{encode_uri_component}
use ai_voice_assistants.MobileApi.Assistant.{Switches, Answer, get_assistant_config}
use ai_voice_assistants.MobileApi.Replies.{check_session}
use ai_voice_assistants.MobileApi.Integrations.{get_company_profile, get_assistant_versions}
use ai_voice_assistants.MobileApi.Account.{
  Auth, initial, completed, refresh_session, session_checked, rest_fetched, sign_out_called,
  signed_out, mounted, session_answered, rest_answered, run,
}
use ai_voice_assistants.MobileApi.SetUp.{IsSetUp, run-initial-IsSetUp, rest_fetched-signed_out}
use ai_voice_assistants.MobileApi.Operations.{Call, call_of, cancel_task}
use ai_voice_assistants.MobileApi.Origin.{arrives, is_same_origin_mutation-call_of}

abbrev switches : Switches
switches = record { company_receptionist = true; company_faq = false; google_calendar = false }

abbrev ok_with : Json → Answer
ok_with v = record { is_ok = true; body = some v }

positive : 0 < 1
positive = omega arith

abbrev user : Json
user = obj (field "id" (str "u1") (field "email" (str "ann@example.com") end))

abbrev signed_in : Option Answer
signed_in = some (ok_with (obj (field "user" user end)))

abbrev profile : Option Answer
profile = some (ok_with (obj (field "data" (obj (field "company_name" (str "Acme") end)) end)))

abbrev config : Option Answer
config = some (
    ok_with (
      obj (
        field "data"
          (obj (field "assistant_name" (str "Zoe") (field "is_deployed" (bool true) end))) end)))

run-initial-IsSetUp_example :
    IsSetUp
      (run (mounted ∷ session_answered signed_in ∷ rest_answered profile config none ∷ []) initial)
run-initial-IsSetUp_example =
    run-initial-IsSetUp
      (mounted ∷ session_answered signed_in ∷ rest_answered profile config none ∷ [])

is_set_up :
    (run
      (mounted ∷ session_answered signed_in ∷ rest_answered profile config none ∷ [])
      initial).has_completed_setup
    ≡ true
unfolding run is_blank
is_set_up = refl

rest_fetched-signed_out_example :
    let s : Auth =
      rest_fetched profile config none
        (signed_out (sign_out_called (session_checked signed_in (refresh_session initial)))) in
    (s.user ≡ none)
    × (s.company_profile ≡ get_company_profile profile)
    × (s.assistant_config ≡ get_assistant_config config)
    × (s.has_completed_setup ≡ true)
unfolding session_checked refresh_session check_session completed get_company_profile
    get_assistant_config get_assistant_versions is_blank
rest_fetched-signed_out_example =
    rest_fetched-signed_out profile config none
      (session_checked signed_in (refresh_session initial)) true positive refl

-- A parser that takes every text for an origin.
abbrev parse_url : String → Option Url
parse_url s = some (record {
  protocol = "https:";
  username = "";
  password = "";
  pathname = "/";
  search = "";
  hash = "";
  origin = s;
})

abbrev web_base : String
web_base = "https://voice.example"

abbrev cancellation : Call
cancellation = record {
  method = "POST";
  path = codes "/api/tasks/t1";
  headers = ("accept", text "application/json") ∷ ("origin", text "https://voice.example") ∷ [];
  content = none;
  timeout = 5000;
}

is_same_origin_mutation-call_of_example :
    is_same_origin_mutation parse_url none (arrives "https://voice.example" cancellation) ≡ true
unfolding call_of expected_origin encode_uri_component
is_same_origin_mutation-call_of_example =
    is_same_origin_mutation-call_of parse_url web_base "/" (cancel_task (codes "t1")) none
      (record {
        protocol = "https:";
        username = "";
        password = "";
        pathname = "/";
        search = "";
        hash = "";
        origin = "https://voice.example";
      })
      cancellation refl refl
      (record {
        url = record {
          protocol = "https:";
          username = "";
          password = "";
          pathname = "/";
          search = "";
          hash = "";
          origin = "https://voice.example";
        };
        parsed = refl;
        web = refl;
        no_username = refl;
        no_password = refl;
        root = refl;
        no_search = refl;
        no_hash = refl;
        own = refl;
        there = refl;
      })
      refl
