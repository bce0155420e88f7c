-- ===== src/Workspace/Capability.antt =====
-- The capability switches of the assistant's pages: `readCapabilityFlags` and `writeCapabilityFlags`
-- of frontend/src/App.tsx, and that the mobile application reads and writes the same.
use ai_voice_assistants.Common.{
  ◌≡◌, ◌≢◌, refl, Bool, true, false, ◌&&◌, Option, none, some, arith, if◌then◌else◌,
}
use ai_voice_assistants.Common.Json.{
  Json, null, bool, obj, Fields, end, field, get_field, property, truthy, truthy_field, is_object,
}
use ai_voice_assistants.MobileApi.Assistant.{
  Switches, coalesce, switched, decode, formatted, optional_field,
}

-- `DEFAULT_CAPABILITY_FLAGS`.
abbrev pub default_flags : Switches
default_flags = record { company_receptionist = false; company_faq = false; google_calendar = true }

-- `enabled(key)`, of the value under the key.
unfoldable pub flag : Bool → Option Json → Bool
flag default none = default
flag default (some (bool b)) = b
flag default (some (obj fs)) = truthy_field (get_field "enabled" fs)
flag default (some v) = false

abbrev pub flags_of : Json → Switches
flags_of values = record {
  company_receptionist =
      flag default_flags.company_receptionist (property "company_receptionist" values);
  company_faq = flag default_flags.company_faq (property "company_faq" values);
  google_calendar = flag default_flags.google_calendar (property "google_calendar" values);
}

unfoldable pub read_capability_flags : Option Json → Switches
unfolding flag
read_capability_flags none = default_flags
read_capability_flags (some raw) =
    if truthy raw && is_object raw then flags_of raw else default_flags

abbrev written : Bool → Fields → Fields
written enabled rest = field "enabled" (bool enabled) rest

unfoldable pub write_capability_flags : Switches → Json
write_capability_flags flags = obj (
    field "company_receptionist" (obj (written flags.company_receptionist end)) (
      field "company_faq" (obj (written flags.company_faq end))
        (field "google_calendar" (obj (written flags.google_calendar end)) end)))

-- A switch in the forms that the two applications write: missing, a Boolean, or an object whose
-- "enabled" is there and is not null.
abbrev pub IsSwitch : Option Json → Type 0
IsSwitch none = Unit
IsSwitch (some (bool b)) = Unit
IsSwitch (some (obj fs)) = (v : Json) × (get_field "enabled" fs ≡ some v) × (v ≢ null)
IsSwitch (some v) = ⊥

abbrev pub AreSwitches : Json → Type 0
AreSwitches raw =
    IsSwitch (property "company_receptionist" raw)
    × IsSwitch (property "company_faq" raw)
    × IsSwitch (property "google_calendar" raw)

-- What the mobile application makes of a value under a key.
abbrev mobile_flag : Bool → Option Json → Bool
mobile_flag default v = truthy (coalesce (optional_field "enabled" v) (coalesce v (bool default)))

flag_agrees :
    (default : Bool) (v : Option Json) → IsSwitch v → flag default v ≡ mobile_flag default v
unfolding flag coalesce
flag_agrees default none h = refl
flag_agrees default (some (bool b)) h = refl
flag_agrees default (some (obj fs)) (null, e, n) = absurd (n refl)
flag_agrees default (some (obj fs)) (v, e, n) = rw e refl
flag_agrees default (some null) h = absurd h
flag_agrees default (some v) h = absurd h

-- Where the switches are stored as either application writes them, both read the same from them.
read_capability_flags-agrees :
    (raw : Json) → AreSwitches raw → read_capability_flags (some raw) ≡ decode raw
unfolding read_capability_flags decode switched
read_capability_flags-agrees (obj fs) (a, b, c) = cc (
  flag_agrees false (get_field "company_receptionist" fs) a,
  flag_agrees false (get_field "company_faq" fs) b,
  flag_agrees true (get_field "google_calendar" fs) c,
)
read_capability_flags-agrees null h = refl
read_capability_flags-agrees raw h = ground arith

-- The web and the mobile application store the same for the same switches; each reads back what it
-- or the other has stored; and both read the same from any configuration whose switches are missing,
-- Boolean, or objects with an "enabled" that is not null.
pub write_capability_flags-formatted :
    (flags : Switches)
    → (write_capability_flags flags ≡ formatted flags)
      × (read_capability_flags (some (write_capability_flags flags)) ≡ flags)
      × (decode (write_capability_flags flags) ≡ flags)
      × ((raw : Json) → AreSwitches raw → read_capability_flags (some raw) ≡ decode raw)
unfolding write_capability_flags formatted read_capability_flags decode switched coalesce
write_capability_flags-formatted flags = (refl, refl, refl, read_capability_flags-agrees)

-- Beyond these forms the two differ: a switch whose "enabled" is null is off for the web application
-- and on for the mobile one.
enabled_null :
    let raw : Json = obj (field "company_faq" (obj (field "enabled" null end)) end) in
    ((read_capability_flags (some raw)).company_faq ≡ false) × ((decode raw).company_faq ≡ true)
unfolding read_capability_flags decode switched coalesce
enabled_null = (refl, refl)
