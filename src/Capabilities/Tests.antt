-- ===== src/Capabilities/Tests.antt =====
-- The theorems on frontend/src/lib/capabilityRegistry.ts at a concrete profile.
use ai_voice_assistants.Common.{true, false, none, some, [], ◌∷◌}
use ai_voice_assistants.Capabilities.Registry.{Capability, supported_languages}
use ai_voice_assistants.Capabilities.Compile.{Document, Profile, Compiled, compiled}

abbrev document : Document
document = record {
  company_policy_kernel = "kernel";
  capability_instructions = λ c. "instruction";
  calendar_only_redirect_response = "calendar";
  company_redirect_response = "company";
}

-- A company with a receptionist and a calendar, and a transfer that is switched off.
abbrev profile : Profile
profile = record {
  capabilities =
      ("google_calendar", true)
      ∷ ("threecx_call_transfer", false)
      ∷ ("company_receptionist", true)
      ∷ [];
  default_language = some "en";
  allowed_languages = none;
}

abbrev r : Compiled
r =
    compiled document (Capability.google_calendar ∷ Capability.company_receptionist ∷ []) "en"
      supported_languages
