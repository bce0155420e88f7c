-- ===== src/MobileApi/Assistant.antt =====
-- The assistant's configuration: `getAssistantConfig` and `saveAssistantConfig` of
-- mobile/src/services/api.ts. What is spread unread is one JSON value.
use ai_voice_assistants.Common.{
  String, Bool, true, false, Option, none, some, List, [], ◌∷◌, if◌then◌else◌,
}
use ai_voice_assistants.Common.Json.{Json, null, bool, obj, end, field, property, truthy, or_json}

-- `capabilities` of an `AssistantConfig`.
pub record Switches : Type 0 where
  pub company_receptionist : Bool
  pub company_faq : Bool
  pub google_calendar : Bool

-- `a ?? b`, with `undefined` as `none`.
unfoldable pub coalesce : Option Json → Json → Json
coalesce none other = other
coalesce (some null) other = other
coalesce (some v) other = v

-- `value?.k`.
abbrev pub optional_field : String → Option Json → Option Json
optional_field k none = none
optional_field k (some v) = property k v

-- `Boolean(raw.k?.enabled ?? raw.k ?? default)`.
unfoldable pub switched : String → Bool → Json → Bool
unfolding coalesce
switched k default raw = truthy (
    coalesce (optional_field "enabled" (property k raw)) (coalesce (property k raw) (bool default)))

unfoldable pub decode : Json → Switches
unfolding switched
decode raw = record {
  company_receptionist = switched "company_receptionist" false raw;
  company_faq = switched "company_faq" false raw;
  google_calendar = switched "google_calendar" true raw;
}

-- A response: whether it is ok, and its body if that is JSON.
pub record Answer : Type 0 where
  pub is_ok : Bool
  pub body : Option Json

-- The configuration that is returned: the data, with its capabilities replaced.
pub record Loaded : Type 0 where
  pub content : Json
  pub capabilities : Switches

-- `data` of a body, where it is truthy.
abbrev loaded : Option Json → Option Loaded
loaded none = none
loaded (some v) =
    if truthy v
    then some (record {
      content = v;
      capabilities = decode (or_json (property "capabilities" v) (obj end));
    })
    else none

-- `none` for the answer is a request that throws.
unfoldable pub get_assistant_config : Option Answer → Option Loaded
unfolding decode
get_assistant_config none = none
get_assistant_config (some answer) =
    if answer.is_ok then loaded (optional_field "data" answer.body) else none

abbrev enabled : Bool → Json
enabled b = obj (field "enabled" (bool b) end)

unfoldable pub formatted : Switches → Json
formatted s = obj (
    field "company_receptionist" (enabled s.company_receptionist) (
      field "company_faq" (enabled s.company_faq)
        (field "google_calendar" (enabled s.google_calendar) end)))

pub record Payload : Type 0 where
  pub config : Json
  pub capabilities : Json
  pub is_deployed : Bool

pub data Sent : Type 0 where
  validation storing : Payload → Sent

pub data Outcome : Type 0 where
  saved : Option Json → Bool → Outcome
  unsaved : Outcome

abbrev outcome : Bool → Option Answer → Outcome
outcome deploy none = unsaved
outcome deploy (some answer) =
    if answer.is_ok
    then saved (optional_field "profile_version" (optional_field "data" answer.body)) deploy
    else unsaved

-- `validated`: the answer to the validation, which is sent where the profile is deployed.
unfoldable pub save_assistant_config :
    Json → Switches → Bool → Option Answer → Option Answer → Outcome × List Sent
unfolding formatted
save_assistant_config config switches deploy validated stored =
    let p : Payload = record {
      config = config;
      capabilities = formatted switches;
      is_deployed = deploy;
    } in
    (outcome deploy stored, if deploy then validation p ∷ storing p ∷ [] else storing p ∷ [])
