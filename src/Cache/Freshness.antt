-- ===== src/Cache/Freshness.antt =====
-- What the workspace cache promises: nothing older than its time to live is answered from memory,
-- and calls share one pending request.
use ai_voice_assistants.Common.{ℕ, ◌+◌, ◌≤◌, ◌<◌, ◌≡◌, Bool, false, none, some, arith}
use ai_voice_assistants.Cache.{
  cache_ttl_ms, Profile, PartialProfile, merge, Cache, cached, pending, fetched,
  get_company_profile, failed, payload, profile_settled, get_session, clear_workspace_cache,
}

module _ (Payload : Type 0) where
  -- A profile is answered from memory only if the call is not forced, the profile is the cached one,
  -- and it was cached less than 30 seconds ago; the cache is left as it is.
  pub get_company_profile-cached :
      (force : Bool) (now : ℕ) (s : Cache Payload) (p : Profile)
      → s.profile_cached_at ≤ now
      → (get_company_profile Payload force now s).1 ≡ cached p
      → (force ≡ false)
        × (s.profile ≡ some p)
        × (now < s.profile_cached_at + cache_ttl_ms)
        × ((get_company_profile Payload force now s).0 ≡ s)
  unfolding get_company_profile
  get_company_profile-cached force now s p t h = ground arith

  -- Of two calls that are not forced, with no answer between them and nothing cached, the second
  -- waits for the request of the first: one request is sent.
  pub get_company_profile-shares :
      (now later : ℕ) (s : Cache Payload)
      → s.profile ≡ none
      → s.profile_request ≡ none
      → ((get_company_profile Payload false now s).1 ≡ fetched s.next)
        × ((get_company_profile Payload false later (get_company_profile Payload false now s).0).1
            ≡ pending s.next)
        × ((get_company_profile Payload false later
              (get_company_profile Payload false now s).0).0.next
            ≡ s.next + 1)
  unfolding get_company_profile
  get_company_profile-shares now later s h r = ground arith

  -- A session is answered from memory under the same conditions.
  pub get_session-cached :
      (direct : Bool) (now : ℕ) (s : Cache Payload) (p : Payload)
      → s.session_cached_at ≤ now
      → (get_session Payload direct now s).1 ≡ cached p
      → (direct ≡ false)
        × (s.session ≡ some p)
        × (now < s.session_cached_at + cache_ttl_ms)
        × ((get_session Payload direct now s).0 ≡ s)
  unfolding get_session
  get_session-cached direct now s p t h = ground arith

  -- After an answer to the request, a call within the time to live gets the answered profile from
  -- memory, merged over the one before, and after a failure the cached profile is the one before.
  pub profile_settled-get :
      (value : PartialProfile) (now later : ℕ) (s : Cache Payload)
      → now ≤ later
      → later < now + cache_ttl_ms
      → ((get_company_profile Payload false later
            (profile_settled Payload (payload (some value)) now s)).1
          ≡ cached (merge s.profile value))
        × ((profile_settled Payload failed now s).profile ≡ s.profile)
        × ((profile_settled Payload failed now s).profile_request ≡ none)
  unfolding get_company_profile profile_settled
  profile_settled-get value now later s a b = ground arith

  -- Clearing the cache forgets the profile and the session, but not a pending request: its answer
  -- fills the cache again with what was asked for before the cache was cleared.
  pub clear-settled :
      (s : Cache Payload) (value : PartialProfile) (now : ℕ)
      → ((clear_workspace_cache Payload s).profile ≡ none)
        × ((clear_workspace_cache Payload s).session ≡ none)
        × ((clear_workspace_cache Payload s).profile_request ≡ s.profile_request)
        × ((profile_settled Payload
              (payload (some value))
              now
              (clear_workspace_cache Payload s)).profile
            ≡ some (merge none value))
  unfolding clear_workspace_cache profile_settled
  clear-settled s value now = ground arith
