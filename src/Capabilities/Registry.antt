-- ===== src/Capabilities/Registry.antt =====
-- The registry of frontend/src/lib/capabilityRegistry.ts.
use ai_voice_assistants.Common.{
  String, Bool, true, false, Option, none, some, List, [], ◌∷◌, if◌then◌else◌, str_eq,
}
use ai_voice_assistants.Capabilities.Sets.{includes}

pub data Capability : Type 0 where
  company_receptionist company_faq lead_qualification google_calendar : Capability
  threecx_call_transfer : Capability

pub data Integration : Type 0 where
  google_calendar threecx : Integration

abbrev pub supported_languages : List String
supported_languages = "fr-FR" ∷ "fr-BE" ∷ "en" ∷ []

abbrev pub platform_policy_version : String
platform_policy_version = "platform-v3"

unfoldable pub tools : Capability → List String
tools Capability.google_calendar =
    "get_calendar_availability" ∷ "list_events" ∷ "book_event" ∷ "cancel_event" ∷ []
tools Capability.threecx_call_transfer = "transfer_call" ∷ "hang_up_call" ∷ []
tools _ = []

unfoldable pub required_integration : Capability → List String
required_integration Capability.google_calendar = "google_calendar" ∷ []
required_integration Capability.threecx_call_transfer = "threecx" ∷ []
required_integration _ = []

unfoldable pub is_implemented : Capability → Bool
is_implemented Capability.lead_qualification = false
is_implemented Capability.threecx_call_transfer = false
is_implemented _ = true

unfoldable pub capability : String → Option Capability
capability id =
    if str_eq id "company_receptionist"
    then some Capability.company_receptionist
    else if str_eq id "company_faq"
    then some Capability.company_faq
    else if str_eq id "lead_qualification"
    then some Capability.lead_qualification
    else if str_eq id "google_calendar"
    then some Capability.google_calendar
    else if str_eq id "threecx_call_transfer"
    then some Capability.threecx_call_transfer
    else none

-- The names that every object inherits, which `in` finds too.
abbrev pub inherited : List String
inherited =
    "constructor" ∷ "__defineGetter__" ∷ "__defineSetter__" ∷ "hasOwnProperty" ∷ "__lookupGetter__"
    ∷ "__lookupSetter__" ∷ "isPrototypeOf" ∷ "propertyIsEnumerable" ∷ "toString" ∷ "valueOf"
    ∷ "__proto__" ∷ "toLocaleString" ∷ []

-- An ID that `id in CAPABILITY_REGISTRY` finds: one of the registry, or an inherited name.
pub data Known : Type 0 where
  own : Capability → Known
  foreign : String → Known

unfoldable pub known : String → Option Known
known id = elim (capability id) [
  | some c ↦ some (Known.own c)
  | none ↦ if includes id inherited then some (Known.foreign id) else none
]
