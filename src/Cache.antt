-- ===== src/Cache.antt =====
-- The workspace cache of frontend/src/lib/workspaceCache.ts: the company profile and the session,
-- each with its time and its pending request. A call of `getCompanyProfile` or `getSession` is cut
-- at its request; requests are numbers, given out by `next`.
pub mod Freshness
mod Tests
use ai_voice_assistants.Common.{
  ℕ, ◌+◌, ◌-◌, String, Bool, true, false, not, ◌&&◌, ◌||◌, Option, none, some, List, [], ◌∷◌, ltb,
  leb, if◌then◌else◌, is_some,
}

abbrev pub cache_ttl_ms : ℕ
cache_ttl_ms = 30_000

pub record Profile : Type 0 where
  pub id : Option String
  pub user_id : Option String
  pub company_name : String
  pub website_url : String
  pub company_phone : String
  pub support_email : String
  pub timezone : String
  pub created_at : Option String
  pub updated_at : Option String

-- `Partial<CompanyProfile>`: `none` is a field that is not there.
pub record PartialProfile : Type 0 where
  pub id : Option String
  pub user_id : Option String
  pub company_name : Option String
  pub website_url : Option String
  pub company_phone : Option String
  pub support_email : Option String
  pub timezone : Option String
  pub created_at : Option String
  pub updated_at : Option String

abbrev pub empty_profile : Profile
empty_profile = record {
  id = none;
  user_id = none;
  company_name = "";
  website_url = "";
  company_phone = "";
  support_email = "";
  timezone = "Indian/Mauritius";
  created_at = none;
  updated_at = none;
}

abbrev over {ℓ} : {A : Type ℓ} → Option A → A → A
over none a = a
over (some b) a = b

abbrev over? : Option String → Option String → Option String
over? none a = a
over? (some b) a = some b

abbrev pub or_empty : Option Profile → Profile
or_empty none = empty_profile
or_empty (some p) = p

-- `{ ...EMPTY_PROFILE, ...profile, ...value }`.
unfoldable pub merge : Option Profile → PartialProfile → Profile
merge profile value =
    let old = or_empty profile in
    record {
      id = over? value.id old.id;
      user_id = over? value.user_id old.user_id;
      company_name = over value.company_name old.company_name;
      website_url = over value.website_url old.website_url;
      company_phone = over value.company_phone old.company_phone;
      support_email = over value.support_email old.support_email;
      timezone = over value.timezone old.timezone;
      created_at = over? value.created_at old.created_at;
      updated_at = over? value.updated_at old.updated_at;
    }

-- A session's payload is passed on unread.
module _ (Payload : Type 0) where
  pub record Cache : Type 0 where
    pub profile : Option Profile
    pub profile_cached_at : ℕ
    pub profile_request : Option ℕ
    pub session : Option Payload
    pub session_cached_at : ℕ
    pub session_request : Option ℕ
    pub next : ℕ

  -- What a call returns at once: the cached value, or the promise of a request, new or pending.
  pub data Answer (A : Type 0) : Type 0 where
    cached : A → Answer A
    pending fetched : ℕ → Answer A

  abbrev pub initial : Cache
  initial = record {
    profile = none;
    profile_cached_at = 0;
    profile_request = none;
    session = none;
    session_cached_at = 0;
    session_request = none;
    next = 0;
  }

  unfoldable pub set_cached_company_profile : Option PartialProfile → ℕ → Cache → Cache
  unfolding merge
  set_cached_company_profile none now s = record s { profile = none; profile_cached_at = 0 }
  set_cached_company_profile (some value) now s = record s {
    profile = some (merge s.profile value);
    profile_cached_at = now;
  }

  abbrev is_fresh : ℕ → ℕ → Bool
  is_fresh now at = ltb (now - at) cache_ttl_ms

  abbrev fetch_profile : Cache → Cache × Answer Profile
  fetch_profile s = (record s { profile_request = some s.next; next = s.next + 1 }, fetched s.next)

  abbrev join_profile : Bool → Cache → Cache × Answer Profile
  join_profile force s = elim s.profile_request [
    | none ↦ fetch_profile s
    | some r ↦ if force then fetch_profile s else (s, pending r)
  ]

  unfoldable pub get_company_profile : Bool → ℕ → Cache → Cache × Answer Profile
  get_company_profile force now s = elim s.profile [
    | none ↦ join_profile force s
    | some p ↦
        if not force && is_fresh now s.profile_cached_at
        then (s, cached p)
        else join_profile force s
  ]

  -- How a request ends: it fails (or its body is no JSON), or it gives a payload, which is null
  -- where the answer is not ok or has no data.
  pub data Ending (A : Type 0) : Type 0 where
    failed : Ending A
    payload : Option A → Ending A

  unfoldable pub profile_settled : Ending PartialProfile → ℕ → Cache → Cache
  unfolding set_cached_company_profile
  profile_settled failed now s = record s { profile_request = none }
  profile_settled (payload value) now s = record (set_cached_company_profile value now s) {
    profile_request = none;
  }

  abbrev fetch_session : Cache → Cache × Answer Payload
  fetch_session s = (record s { session_request = some s.next; next = s.next + 1 }, fetched s.next)

  abbrev join_session : Bool → Cache → Cache × Answer Payload
  join_session direct s = elim s.session_request [
    | none ↦ fetch_session s
    | some r ↦ if direct then fetch_session s else (s, pending r)
  ]

  -- `direct`: the call is forced or has a query.
  unfoldable pub get_session : Bool → ℕ → Cache → Cache × Answer Payload
  get_session direct now s = elim s.session [
    | none ↦ join_session direct s
    | some p ↦
        if not direct && is_fresh now s.session_cached_at
        then (s, cached p)
        else join_session direct s
  ]

  unfoldable pub session_settled : Ending Payload → ℕ → Cache → Cache
  session_settled failed now s = record s { session_request = none }
  session_settled (payload value) now s = record s {
    session = value;
    session_cached_at = if is_some value then now else 0;
    session_request = none;
  }

  unfoldable pub clear_workspace_cache : Cache → Cache
  clear_workspace_cache s = record s {
    profile = none;
    profile_cached_at = 0;
    session = none;
    session_cached_at = 0;
  }
