-- ===== src/MobileApi/SetUp.antt =====
-- When the mobile application takes the setup for completed, and what a sign-out leaves: theorems
-- on mobile/src/context/AuthContext.tsx.
use ai_voice_assistants.Common.{
  ◌≡◌, refl, ◌<◌, ◌+◌, ◌-◌, ℕ, Bool, true, false, Option, none, some, List, [], ◌∷◌, arith,
  if◌then◌else◌, ltb,
}
use ai_voice_assistants.Common.Json.{Json, str, is_text}
use ai_voice_assistants.MobileApi.Assistant.{Answer, Loaded, optional_field, get_assistant_config}
use ai_voice_assistants.MobileApi.Replies.{
  UserAccount, SessionResponse, unauthenticated, authenticated, check_session,
}
use ai_voice_assistants.MobileApi.Integrations.{get_company_profile, get_assistant_versions}
use ai_voice_assistants.MobileApi.Account.{
  Auth, initial, named, completed, assistant_name, both, stored, checked, cleared, session_checked,
  rest_fetched, sign_out_called, signed_out, refresh_session, app_state_changed, Event, mounted,
  app_state, session_answered, rest_answered, sign_out_asked, sign_out_settled, step, run,
}

-- Where the setup counts as completed, the company and the assistant have names that are not blank,
-- and the application is no longer loading.
pub record IsSetUp (s : Auth) : Type 0 where
  pub company_named :
      s.has_completed_setup ≡ true
      → named (optional_field "company_name" s.company_profile) ≡ some true
  pub assistant_named :
      s.has_completed_setup ≡ true → named (assistant_name s.assistant_config) ≡ some true
  pub loaded : s.has_completed_setup ≡ true → s.is_loading ≡ false

both-true : (a b : Option Bool) → both a b ≡ some true → (a ≡ some true) × (b ≡ some true)
both-true (some true) b h = (refl, h)
both-true (some false) b h = absurd (ground arith)
both-true none b h = absurd (ground arith)

completed-named :
    (profile : Option Json) (assistant : Option Loaded) (versions : List Json)
    → completed profile assistant versions ≡ some true
    → (named (optional_field "company_name" profile) ≡ some true)
      × (named (assistant_name assistant) ≡ some true)
unfolding completed
completed-named profile assistant versions h =
    let (company, rest) = both-true _ _ h in (company, (both-true _ _ rest).0)

stored-IsSetUp :
    (complete : Option Bool) (profile : Option Json) (assistant : Option Loaded) (s : Auth)
    → (complete ≡ some true
        → (named (optional_field "company_name" profile) ≡ some true)
          × (named (assistant_name assistant) ≡ some true))
    → IsSetUp (stored complete profile assistant s)
stored-IsSetUp none profile assistant s h = record {
  company_named = λ e. absurd (ground arith);
  assistant_named = λ e. absurd (ground arith);
  loaded = λ e. refl;
}
stored-IsSetUp (some true) profile assistant s h = record {
  company_named = λ e. (h refl).0;
  assistant_named = λ e. (h refl).1;
  loaded = λ e. refl;
}
stored-IsSetUp (some false) profile assistant s h = record {
  company_named = λ e. absurd (ground arith);
  assistant_named = λ e. absurd (ground arith);
  loaded = λ e. refl;
}

-- A change that only counts, or clears, keeps the setup sound.
cleared-IsSetUp : (s : Auth) → s.has_completed_setup ≡ false → IsSetUp s
cleared-IsSetUp s h = record {
  company_named = λ e. absurd (ground arith);
  assistant_named = λ e. absurd (ground arith);
  loaded = λ e. absurd (ground arith);
}

kept :
    (s t : Auth)
    → t.has_completed_setup ≡ s.has_completed_setup
    → t.company_profile ≡ s.company_profile
    → t.assistant_config ≡ s.assistant_config
    → t.is_loading ≡ s.is_loading
    → IsSetUp s
    → IsSetUp t
kept s t a b c d h = record {
  company_named = λ e. rw b (h.company_named (ground arith));
  assistant_named = λ e. rw c (h.assistant_named (ground arith));
  loaded = λ e. rw d (h.loaded (ground arith));
}

checked-IsSetUp : (response : SessionResponse) (s : Auth) → IsSetUp s → IsSetUp (checked response s)
checked-IsSetUp unauthenticated s h = cleared-IsSetUp _ refl
checked-IsSetUp (authenticated user session) s h = kept s _ refl refl refl refl h

if-IsSetUp : (b : Bool) (s t : Auth) → IsSetUp s → IsSetUp t → IsSetUp (if b then s else t)
if-IsSetUp true s t h k = h
if-IsSetUp false s t h k = k

step-IsSetUp : (e : Event) (s : Auth) → IsSetUp s → IsSetUp (step e s)
unfolding step refresh_session app_state_changed session_checked rest_fetched sign_out_called
    signed_out
step-IsSetUp mounted s h = kept s (refresh_session s) refl refl refl refl h
step-IsSetUp (app_state state) s h =
    if-IsSetUp (is_text (some (str state)) "active") (refresh_session s) s
      (kept s (refresh_session s) refl refl refl refl h) h
step-IsSetUp (session_answered answer) s h =
    let counted : Auth = record s { checking = s.checking - 1 } in
    if-IsSetUp (ltb 0 s.checking) (checked (check_session answer) counted) s
      (checked-IsSetUp (check_session answer) counted (kept s counted refl refl refl refl h)) h
step-IsSetUp (rest_answered profile config versions) s h =
    let p = get_company_profile profile in
    let a = get_assistant_config config in
    let v = get_assistant_versions versions in
    let counted : Auth = record s { fetching = s.fetching - 1 } in
    if-IsSetUp (ltb 0 s.fetching) (stored (completed p a v) p a counted) s
      (stored-IsSetUp (completed p a v) p a counted (completed-named p a v)) h
step-IsSetUp sign_out_asked s h = kept s (sign_out_called s) refl refl refl refl h
step-IsSetUp sign_out_settled s h =
    let counted : Auth = record (cleared s) { leaving = s.leaving - 1 } in
    if-IsSetUp (ltb 0 s.leaving) counted s (cleared-IsSetUp counted refl) h

run-IsSetUp : (es : List Event) (s : Auth) → IsSetUp s → IsSetUp (run es s)
unfolding run
run-IsSetUp [] s h = h
run-IsSetUp (e ∷ es) s h = run-IsSetUp es (step e s) (step-IsSetUp e s h)

-- After any events from the start, in any order, the setup counts as completed only with a company
-- and an assistant whose names are not blank, and once the application is no longer loading.
pub run-initial-IsSetUp : (es : List Event) → IsSetUp (run es initial)
run-initial-IsSetUp es = run-IsSetUp es initial (cleared-IsSetUp initial refl)

ltb-suc : (n : ℕ) → ltb 0 (n + 1) ≡ true
ltb-suc n = ground arith

refreshed :
    (session profile config versions : Option Answer) (user : UserAccount) (token : Option Json)
    (s : Auth) (complete : Option Bool)
    → check_session session ≡ authenticated user token
    → completed
        (get_company_profile profile)
        (get_assistant_config config)
        (get_assistant_versions versions)
      ≡ complete
    → rest_fetched profile config versions (session_checked session (refresh_session s))
      ≡ stored complete (get_company_profile profile) (get_assistant_config config) (record s {
        user = some user;
        checking = s.checking + 1 - 1;
        fetching = s.fetching + 1 - 1;
      })
unfolding rest_fetched session_checked refresh_session
refreshed session profile config versions user token s complete h k =
    rw (ltb-suc s.checking, h, ltb-suc s.fetching, k) refl

-- A refresh that nothing interrupts, where the session's answer names a user and the loaded names are
-- texts or missing, signs this user in, stores the profile and the configuration of the answers, takes
-- the setup for completed as they say, and ends the loading.
pub run-refreshed :
    (session profile config versions : Option Answer) (user : UserAccount) (token : Option Json)
    (s : Auth) (complete : Bool)
    → check_session session ≡ authenticated user token
    → completed
        (get_company_profile profile)
        (get_assistant_config config)
        (get_assistant_versions versions)
      ≡ some complete
    → let s' : Auth =
        rest_fetched profile config versions (session_checked session (refresh_session s)) in
      (s'.user ≡ some user)
      × (s'.company_profile ≡ get_company_profile profile)
      × (s'.assistant_config ≡ get_assistant_config config)
      × (s'.has_completed_setup ≡ complete)
      × (s'.is_loading ≡ false)
run-refreshed session profile config versions user token s complete h k =
    rw (refreshed session profile config versions user token s (some complete) h k)
      (refl, refl, refl, refl, refl)

late :
    (profile config versions : Option Answer) (s : Auth) (complete : Option Bool)
    → ltb 0 s.fetching ≡ true
    → completed
        (get_company_profile profile)
        (get_assistant_config config)
        (get_assistant_versions versions)
      ≡ complete
    → rest_fetched profile config versions (signed_out (sign_out_called s))
      ≡ stored complete
          (get_company_profile profile)
          (get_assistant_config config)
          (record (cleared s) { leaving = s.leaving + 1 - 1; fetching = s.fetching - 1 })
unfolding rest_fetched signed_out sign_out_called
late profile config versions s complete waits k = rw (ltb-suc s.leaving, waits, k) refl

-- A sign-out that settles while a refresh waits for the profile does not stop it: with no user, the
-- application stores the profile and the configuration of the user who has left, and may take the
-- setup for completed.
pub rest_fetched-signed_out :
    (profile config versions : Option Answer) (s : Auth) (complete : Bool)
    → 0 < s.fetching
    → completed
        (get_company_profile profile)
        (get_assistant_config config)
        (get_assistant_versions versions)
      ≡ some complete
    → let s' : Auth = rest_fetched profile config versions (signed_out (sign_out_called s)) in
      (s'.user ≡ none)
      × (s'.company_profile ≡ get_company_profile profile)
      × (s'.assistant_config ≡ get_assistant_config config)
      × (s'.has_completed_setup ≡ complete)
rest_fetched-signed_out profile config versions s complete waits h =
    rw (late profile config versions s (some complete) (ground arith) h) (refl, refl, refl, refl)
