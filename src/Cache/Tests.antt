-- ===== src/Cache/Tests.antt =====
-- The theorems on frontend/src/lib/workspaceCache.ts at concrete inputs. The payload of a session is
-- a number.
use ai_voice_assistants.Common.{ℕ, ◌≡◌, refl, false, none, some}
use ai_voice_assistants.Cache.{
  PartialProfile, Cache, cached, initial, empty_profile, get_company_profile, get_session,
}

abbrev filled : Cache ℕ
filled = record (initial ℕ) {
  profile = some empty_profile;
  profile_cached_at = 100;
  session = some 7;
  session_cached_at = 100;
}

filled-profile : (get_company_profile ℕ false 200 filled).1 ≡ cached empty_profile
unfolding get_company_profile
filled-profile = refl

filled-session : (get_session ℕ false 200 filled).1 ≡ cached 7
unfolding get_session
filled-session = refl

abbrev answer : PartialProfile
answer = record {
  id = none;
  user_id = none;
  company_name = some "Acme";
  website_url = none;
  company_phone = none;
  support_email = none;
  timezone = none;
  created_at = none;
  updated_at = none;
}
