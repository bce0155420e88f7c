-- ===== src/TokenClient/Laws.antt =====
-- What the token service promises: an answer is used only if it is complete, and the session of the
-- call is the one that was asked for.
use ai_voice_assistants.Common.{
  ℕ, ◌≡◌, ◌≢◌, ◌⊎◌, inl, inr, refl, ◌∙◌, String, true, false, Option, none, some, List, [], ◌∷◌,
  arith, Bool-cases, str_eq, eq_iff, if◌then◌else◌, eq_refl,
}
use ai_voice_assistants.Common.Json.{as_string, Json, property}
use ai_voice_assistants.Common.Text.{trim}
use ai_voice_assistants.TokenClient.Requests.{
  SessionConfig, Value, text, Params, set, get, or_text, set_version, set_participant, set_name,
  with_session, build_token_url, Code, ApiError, Result, ok, err, Token, nonblank, session_of,
  normalize_token_response, Reply, thrown, answered, is_ok, fetch_token,
}

get-set :
    (name other : String) (v : Value) (ps : Params)
    → get other (set name v ps) ≡ (if str_eq name other then some v else get other ps)
unfolding get set
get-set name other v [] = refl
get-set name other v ((n, w) ∷ ps) =
    ground (arith, eq_iff name other, eq_iff n name, eq_iff n other, get-set name other v ps)

get-set_ne :
    (name other : String) (v : Value) (ps : Params)
    → other ≢ name
    → get other (set name v ps) ≡ get other ps
get-set_ne name other v ps h = rw get-set (ground (arith, eq_iff name other))

get-set_version :
    (version : Option ℕ) (other : String) (ps : Params)
    → other ≢ "profile_version"
    → get other (set_version version ps) ≡ get other ps
get-set_version none other ps h = refl
get-set_version (some version) other ps h = get-set_ne "profile_version" other _ ps h

get-set_name :
    (name : List ℕ) (other : String) (ps : Params)
    → other ≢ "participant_name"
    → get other (set_name name ps) ≡ get other ps
get-set_name [] other ps h = refl
get-set_name (c ∷ s) other ps h = get-set_ne "participant_name" other _ ps h

get-set_participant :
    (name : Option (List ℕ)) (other : String) (ps : Params)
    → other ≢ "participant_name"
    → get other (set_participant name ps) ≡ get other ps
get-set_participant none other ps h = refl
get-set_participant (some name) other ps h = get-set_name (trim name) other ps h

ids_differ :
    (◌≢◌ {A = String} "session_id" "profile_version")
    × (◌≢◌ {A = String} "session_id" "participant_name")
ids_differ = (
  ground (arith, eq_iff "session_id" "profile_version"),
  ground (arith, eq_iff "session_id" "participant_name"),
)

-- The token URL asks for the session of the options, or for the fresh one if they have none or an
-- empty one, and keeps every parameter of the endpoint that the client does not set.
pub build_token_url-get :
    (options : SessionConfig) (fresh : List ℕ) (endpoint : Params)
    → (get "session_id" (build_token_url options fresh endpoint)
        ≡ some (text (or_text options.session_id fresh)))
      × ((other : String)
          → other ≢ "session_id"
          → other ≢ "participant_name"
          → other ≢ "profile_version"
          → get other (build_token_url options fresh endpoint) ≡ get other endpoint)
unfolding build_token_url
build_token_url-get options fresh endpoint =
    let ps = set "session_id" (text (or_text options.session_id fresh)) endpoint in
    (
      get-set_version options.profile_version "session_id" _ ids_differ.0
          ∙ get-set_participant options.participant_name "session_id" ps ids_differ.1
          ∙ rw get-set (ground (arith, eq_refl "session_id")),
      λ other a b c.
          get-set_version options.profile_version other _ c
          ∙ get-set_participant options.participant_name other ps b
          ∙ rw get-set (ground (arith, eq_iff "session_id" other)),
    )

-- The session ID that a body gives.
abbrev pub given_session : Json → Option (List ℕ)
given_session body =
    session_of (as_string (property "session_id" body)) (as_string (property "sessionId" body))

-- What a token is made of.
pub record IsComplete (body : Json) (asked : List ℕ) (t : Token) : Type 0 where
  pub token : nonblank (property "token" body) ≡ some t.token
  pub ws_url : nonblank (property "ws_url" body) ≡ some t.ws_url
  pub session : t.session_id ≡ some (or_text (given_session body) asked)

with_session-eq-err :
    (asked : List ℕ) (r : Result Token) (e : ApiError) → with_session asked r ≡ err e → r ≡ err e
with_session-eq-err asked (ok u) e h = absurd (ground arith)
with_session-eq-err asked (err d) e h = ground arith

-- A request that throws is a network error with no status; an answer outside 200 to 299 keeps its
-- status, and has the body's code, or else the one for a missing sign-in at 401.
pub fetch_token_errors :
    (options : SessionConfig) (fresh : List ℕ) (endpoint : Params) (reply : Reply) (e : ApiError)
    → (fetch_token options fresh endpoint reply).1 ≡ err e
    → ((reply ≡ thrown) × (e.status ≡ none) × (e.code ≡ some Code.network_error))
      ⊎ ((status : ℕ) × (body : Json) × (reply ≡ answered status body)
          × (((is_ok status ≡ false)
                × (e.status ≡ some status)
                × (e.code ≢ none)
                × (e.code ≡ some Code.authentication_required → status ≡ 401))
              ⊎ ((is_ok status ≡ true) × (normalize_token_response body ≡ err e))))
unfolding fetch_token
fetch_token_errors options fresh endpoint thrown e h = inl (refl, ground arith, ground arith)
fetch_token_errors options fresh endpoint (answered status body) e h = inr (
  status,
  body,
  refl,
  elim (Bool-cases (is_ok status)) [
    | inl fine ↦ inr (
      fine,
      with_session-eq-err (or_text options.session_id fresh) (normalize_token_response body) e
          (rw fine at h),
    )
    | inr bad ↦ inl (bad, ground arith, ground arith, λ c. ground arith)
  ],
)
