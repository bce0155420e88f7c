-- ===== src/TokenClient/Requests.antt =====
-- `LiveKitApiClient` of mobile/src/services/livekitApi.ts. Session IDs and names are lists of code
-- units; `fresh` is the ID that `generateSessionId` would return.
use ai_voice_assistants.Common.{
  ℕ, String, Bool, true, false, not, ◌&&◌, ◌||◌, Option, none, some, List, [], ◌∷◌, ◌==◌, leb,
  if◌then◌else◌, str_eq,
}
use ai_voice_assistants.Common.Json.{
  Json, null, arr, truthy, truthy_field, property, as_string, is_object,
}
use ai_voice_assistants.Common.Text.{codes, trim}

pub record SessionConfig : Type 0 where
  pub session_id : Option (List ℕ)
  pub participant_name : Option (List ℕ)
  pub profile_version : Option ℕ

pub data Value : Type 0 where
  text : List ℕ → Value
  number : ℕ → Value

-- The parameters of a URL's search; `set` replaces the value of a name that is there.
abbrev pub Params : Type 0
Params = List (String × Value)

unfoldable pub set : String → Value → Params → Params
set name value [] = (name, value) ∷ []
set name value ((n, v) ∷ params) =
    if str_eq n name then (name, value) ∷ params else (n, v) ∷ set name value params

unfoldable pub get : String → Params → Option Value
get name [] = none
get name ((n, v) ∷ params) = if str_eq n name then some v else get name params

-- `value || other` for a text.
abbrev pub or_text : Option (List ℕ) → List ℕ → List ℕ
or_text none other = other
or_text (some []) other = other
or_text (some (c ∷ s)) other = c ∷ s

abbrev pub set_name : List ℕ → Params → Params
set_name [] params = params
set_name (c ∷ s) params = set "participant_name" (text (c ∷ s)) params

abbrev pub set_participant : Option (List ℕ) → Params → Params
set_participant none params = params
set_participant (some name) params = set_name (trim name) params

abbrev pub set_version : Option ℕ → Params → Params
set_version none params = params
set_version (some version) params = set "profile_version" (number version) params

-- The search parameters of the token URL, from those of the endpoint.
unfoldable pub build_token_url : SessionConfig → List ℕ → Params → Params
unfolding set
build_token_url options fresh endpoint = set_version options.profile_version (
    set_participant options.participant_name
      (set "session_id" (text (or_text options.session_id fresh)) endpoint))

pub data Message : Type 0 where
  unreachable : Message
  invalid_response no_token no_url : Message
  server : Json → Message
  http : ℕ → Message

pub data Code : Type 0 where
  network_error authentication_required token_request_failed : Code
  given : Json → Code

pub record ApiError : Type 0 where
  pub message : Message
  pub status : Option ℕ
  pub code : Option Code

pub data Result (A : Type 0) : Type 0 where
  ok : A → Result A
  err : ApiError → Result A

pub record Token : Type 0 where
  pub token : String
  pub ws_url : String
  pub room : String
  pub identity : String
  pub session_id : Option (List ℕ)

abbrev plain_error : Message → ApiError
plain_error message = record { message = message; status = none; code = none }

abbrev is_array : Json → Bool
is_array (arr vs) = true
is_array _ = false

abbrev is_blank : List ℕ → Bool
is_blank [] = true
is_blank (c ∷ s) = false

-- `typeof value === "string" && value.trim()`, with the value as it was.
unfoldable pub nonblank : Option Json → Option String
nonblank value = elim (as_string value) [
  | none ↦ none
  | some s ↦ if is_blank (trim (codes s)) then none else some s
]

abbrev or_empty : Option String → String
or_empty none = ""
or_empty (some s) = s

abbrev pub session_of : Option String → Option String → Option (List ℕ)
session_of (some s) other = some (codes s)
session_of none (some s) = some (codes s)
session_of none none = none

unfoldable pub normalize_token_response : Json → Result Token
normalize_token_response raw =
    if not (truthy raw) || not (is_object raw) || is_array raw
    then err (plain_error invalid_response)
    else elim (nonblank (property "token" raw)) [
      | none ↦ err (plain_error no_token)
      | some token ↦ elim (nonblank (property "ws_url" raw)) [
        | none ↦ err (plain_error no_url)
        | some ws_url ↦ ok (record {
          token = token;
          ws_url = ws_url;
          room = or_empty (as_string (property "room" raw));
          identity = or_empty (as_string (property "identity" raw));
          session_id =
              session_of (as_string (property "session_id" raw))
                (as_string (property "sessionId" raw));
        })
      ]
    ]

-- What the request comes to: it throws, or it is answered with a status and a body, which is null
-- where it is no JSON.
pub data Reply : Type 0 where
  thrown : Reply
  answered : ℕ → Json → Reply

abbrev pub is_ok : ℕ → Bool
is_ok status = leb 200 status && leb status 299

-- A field that is known to be there.
abbrev given_field : Option Json → Json
given_field none = null
given_field (some v) = v

abbrev message_of : Json → ℕ → Message
message_of body status =
    if truthy_field (property "error_message" body)
    then server (given_field (property "error_message" body))
    else if truthy_field (property "detail" body)
    then server (given_field (property "detail" body))
    else http status

abbrev code_of : Json → ℕ → Code
code_of body status =
    if truthy_field (property "error_code" body)
    then given (given_field (property "error_code" body))
    else if status == 401
    then authentication_required
    else token_request_failed

abbrev pub with_session : List ℕ → Result Token → Result Token
with_session session_id (err e) = err e
with_session session_id (ok t) =
    ok (record t { session_id = some (or_text t.session_id session_id) })

-- The URL's parameters and the result, for what the request comes to.
unfoldable pub fetch_token : SessionConfig → List ℕ → Params → Reply → Params × Result Token
fetch_token options fresh endpoint reply =
    let session_id = or_text options.session_id fresh in
    (
      build_token_url (record options { session_id = some session_id }) fresh endpoint,
      elim reply [
        | thrown ↦ err (record { message = unreachable; status = none; code = some network_error })
        | answered status body ↦
            if not (is_ok status)
            then err (record {
              message = message_of body status;
              status = some status;
              code = some (code_of body status);
            })
            else with_session session_id (normalize_token_response body)
      ],
    )
