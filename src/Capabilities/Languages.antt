-- ===== src/Capabilities/Languages.antt =====
-- The languages of a compiled profile.
use ai_voice_assistants.Common.{
  ◌≡◌, refl, String, true, false, not, List, [], ◌∷◌, arith, any, or_else,
}
use ai_voice_assistants.Capabilities.Sets.{includes, has_duplicates}
use ai_voice_assistants.Capabilities.Grants.{compile-Parts}
use ai_voice_assistants.Capabilities.Registry.{supported_languages}
use ai_voice_assistants.Capabilities.Compile.{
  Document, Profile, Compiled, ok, compiled, check_languages, with_default, default_of, requested,
  compile_company_capabilities,
}

pub record AreSafe (default : String) (allowed : List String) : Type 0 where
  pub listed : includes default allowed ≡ true
  pub once : has_duplicates allowed ≡ false
  pub supported : any (λ language. not (includes language supported_languages)) allowed ≡ false
  pub default_supported : includes default supported_languages ≡ true

pub check_languages-AreSafe :
    (default : String) (allowed checked : List String)
    → check_languages default allowed ≡ ok checked
    → (checked ≡ allowed) × AreSafe default checked
unfolding check_languages
check_languages-AreSafe default [] checked h = ground arith
check_languages-AreSafe default (l ∷ ls) checked h = ground arith

-- In a profile that compiles the default language is the requested one, or English; it is among the
-- allowed languages; these are supported and pairwise different; and they are the requested ones,
-- with the default put first if it was missing.
pub compile-languages :
    (document : Document) (profile : Profile) (r : Compiled)
    → compile_company_capabilities document profile ≡ ok r
    → (r.default_language ≡ or_else profile.default_language "en")
      × (r.allowed_languages
          ≡ with_default r.default_language (or_else profile.allowed_languages supported_languages))
      × AreSafe r.default_language r.allowed_languages
unfolding compiled
compile-languages document profile r h =
    let parts = compile-Parts document profile r h in
    let (same, safe) =
      check_languages-AreSafe (default_of profile) (requested profile) parts.languages
        parts.checked in
    rw (← parts.result) (refl, same, safe)
