-- ===== src/Web/Forwarding.antt =====
-- What leaves the server for the backend through `proxyBackend` of frontend/src/lib/backendProxy.ts.
use ai_voice_assistants.Common.{
  ℕ, zero, suc, ◌+◌, ◌≤◌, ◌<◌, ◌≡◌, ◌≢◌, ◌⊎◌, inl, inr, refl, ap, subst, ◌∙◌, String, Option, none,
  some, List, [], ◌∷◌, if◌then◌else◌, str_eq, arith, All, Bool-cases, true, length, eq_iff,
  Option-cases,
}
use ai_voice_assistants.Web.Context.{Context, context_header}
use ai_voice_assistants.Web.Request.{Request, Headers, signed, get, get-delete, get-set}
use ai_voice_assistants.Web.Proxy.{
  Options, Sent, BackendReply, Response, refused, passed_on, attempts, attempt_then, vouch,
  forwarded, is_constructible, usable,
}

pub record IsTrusted (request : Request) (path : List ℕ) (context : Context) (sent : Sent)
    : Type 0 where
  pub to_path : sent.path ≡ path
  pub by_method : sent.method ≡ request.method
  pub vouched :
      get "x-verified-session-context" sent.headers
      ≡ some (signed (context_header context).0 (context_header context).1)
  pub no_cookie : get "cookie" sent.headers ≡ none
  pub no_host : get "host" sent.headers ≡ none
  pub no_user : get "user_id" sent.query ≡ none
  pub parameters : (name : String) → name ≢ "user_id" → get name sent.query ≡ get name request.query

get-vouch :
    (context : Context) (name : String) (headers : Headers)
    → get name (vouch context headers) ≡ (
        if str_eq "x-verified-session-context" name
        then some (signed (context_header context).0 (context_header context).1)
        else get name headers)
get-vouch context name headers = get-set "x-verified-session-context" name _ headers

pub forwarded-IsTrusted :
    (request : Request) (path : List ℕ) (options : Options) (context : Context)
    → IsTrusted request path context (forwarded request path options context)
forwarded-IsTrusted request path options context = record {
  to_path = refl;
  by_method = refl;
  vouched = get-vouch context "x-verified-session-context" _;
  no_cookie =
      get-vouch context "cookie" _
      ∙ (get-delete "x-verified-session-context" "cookie" _ ∙ get-delete "cookie" "cookie" _);
  no_host =
      get-vouch context "host" _
      ∙ (get-delete "x-verified-session-context" "host" _
          ∙ (get-delete "cookie" "host" _
              ∙ (get-delete "content-length" "host" _ ∙ get-delete "host" "host" _)));
  no_user = get-delete "user_id" "user_id" request.query;
  parameters =
      λ name ne. get-delete "user_id" name request.query ∙ ground (arith, eq_iff "user_id" name);
}

attempt_then-All :
    (P : Sent → Type 0) (sent : Sent) (rest : Response × List Sent) (reply : Option BackendReply)
    → P sent
    → All P rest.1
    → All P (attempt_then sent rest reply).1
unfolding attempt_then
attempt_then-All P sent rest none p ps = (p, ps)
attempt_then-All P sent rest (some reply) p ps = (p, tt)

pub attempts-All :
    (P : Sent → Type 0) (backend : ℕ → Option BackendReply) (sent : Sent) (attempt left : ℕ)
    → P sent
    → All P (attempts backend sent attempt left).1
unfolding attempts
attempts-All P backend sent attempt zero p =
    attempt_then-All P sent (refused 502 "BACKEND_PROXY_ERROR", []) (usable (backend attempt)) p tt
attempts-All P backend sent attempt (suc left) p =
    attempt_then-All P sent _ (usable (backend attempt)) p
      (attempts-All P backend sent (attempt + 1) left p)

-- The `i`-th attempt, counted from `from`, is the first that is answered.
abbrev pub IsFirst : (ℕ → Option BackendReply) → ℕ → ℕ → BackendReply → Type 0
IsFirst backend from i reply =
    (backend (from + i) ≡ some reply) × ((j : ℕ) → j < i → backend (from + j) ≡ none)

abbrev pub IsSettled : (ℕ → Option BackendReply) → ℕ → ℕ → Response × List Sent → Type 0
IsSettled backend from left result =
    ((i : ℕ) × (reply : BackendReply) × (i ≤ left)
      × IsFirst backend from i reply
      × (result.0 ≡ passed_on reply)
      × (length result.1 ≡ suc i))
    ⊎ (((j : ℕ) → j ≤ left → backend (from + j) ≡ none)
        × (result.0 ≡ refused 502 "BACKEND_PROXY_ERROR")
        × (length result.1 ≡ suc left))

module _ (backend : ℕ → Option BackendReply) (sent : Sent) (from : ℕ) where
  IsSettled-now :
      (left : ℕ) (reply : BackendReply)
      → backend from ≡ some reply
      → IsSettled backend from left (passed_on reply, sent ∷ [])
  IsSettled-now left reply e = inl (
    0,
    reply,
    omega arith,
    (ap backend (omega arith) ∙ e, λ j lt. absurd (omega arith)),
    refl,
    refl,
  )

  IsSettled-last :
      backend from ≡ none → IsSettled backend from 0 (refused 502 "BACKEND_PROXY_ERROR", sent ∷ [])
  IsSettled-last e = inr (λ j le. ap backend (omega arith) ∙ e, refl, refl)

  none_before :
      (bound : ℕ)
      → backend from ≡ none
      → ((j : ℕ) → j < bound → backend (from + 1 + j) ≡ none)
      → (j : ℕ) → j < suc bound
      → backend (from + j) ≡ none
  none_before bound e later zero lt = ap backend (omega arith) ∙ e
  none_before bound e later (suc j) lt = ap backend (omega arith) ∙ later j (omega arith)

  IsSettled-later :
      (left : ℕ) (rest : Response × List Sent)
      → backend from ≡ none
      → IsSettled backend (from + 1) left rest
      → IsSettled backend from (suc left) (rest.0, sent ∷ rest.1)
  IsSettled-later left rest e (inl (i, reply, le, (here, before), answer, count)) = inl (
    suc i,
    reply,
    omega arith,
    (ap backend (omega arith) ∙ here, none_before i e before),
    answer,
    omega arith,
  )
  IsSettled-later left rest e (inr (all, answer, count)) = inr (
    λ j le. none_before (suc left) e (λ k lt. all k (omega arith)) j (omega arith),
    answer,
    omega arith,
  )

pub attempts-IsSettled :
    (backend : ℕ → Option BackendReply) (sent : Sent) (from left : ℕ)
    → IsSettled (λ i. usable (backend i)) from left (attempts backend sent from left)
unfolding attempts attempt_then
attempts-IsSettled backend sent from zero = elim (Option-cases (usable (backend from))) [
  | inl e ↦ rw e (IsSettled-last (λ i. usable (backend i)) sent from e)
  | inr (reply, e) ↦ rw e (IsSettled-now (λ i. usable (backend i)) sent from 0 reply e)
]
attempts-IsSettled backend sent from (suc left) = elim (Option-cases (usable (backend from))) [
  | inl e ↦ rw e (
      IsSettled-later (λ i. usable (backend i)) sent from left _ e
        (attempts-IsSettled backend sent (from + 1) left))
  | inr (reply, e) ↦ rw e (IsSettled-now (λ i. usable (backend i)) sent from (suc left) reply e)
]

-- What the fetch standard says of the status of a response with a body.
abbrev pub AllowsBody : ℕ → Type 0
AllowsBody status =
    (200 ≤ status) × (status ≤ 599) × (status ≢ 204) × (status ≢ 205) × (status ≢ 304)

pub is_constructible-AllowsBody : (status : ℕ) → is_constructible status ≡ true → AllowsBody status
is_constructible-AllowsBody status h = ground arith

pub AllowsBody-is_constructible : (status : ℕ) → AllowsBody status → is_constructible status ≡ true
AllowsBody-is_constructible status h = ground arith

-- An attempt that gives a response, and one that gives none.
abbrev pub Succeeds : Option BackendReply → BackendReply → Type 0
Succeeds o reply = (o ≡ some reply) × AllowsBody reply.status

abbrev pub Fails : Option BackendReply → Type 0
Fails o = (reply : BackendReply) → o ≡ some reply → AllowsBody reply.status → ⊥

usable-Succeeds :
    (o : Option BackendReply) (reply : BackendReply) → usable o ≡ some reply → Succeeds o reply
usable-Succeeds none reply h = absurd (ground arith)
usable-Succeeds (some given) reply h = elim (Bool-cases (is_constructible given.status)) [
  | inl c ↦
      let e : given ≡ reply = ground arith in
      (ap some e, subst (λ r. AllowsBody r.status) e (is_constructible-AllowsBody given.status c))
  | inr c ↦ absurd (ground arith)
]

usable-Fails : (o : Option BackendReply) → usable o ≡ none → Fails o
usable-Fails none h reply e allows = absurd (ground arith)
usable-Fails (some given) h reply e allows =
    let c : is_constructible reply.status ≡ true =
      AllowsBody-is_constructible reply.status allows in
    absurd (ground arith)

-- The first attempt that gives a response is the last that is made, and its answer is passed on; if
-- there is none, all are made, and the error is given.
abbrev pub IsDelivered : (ℕ → Option BackendReply) → ℕ → Response × List Sent → Type 0
IsDelivered backend left result =
    ((i : ℕ) × (reply : BackendReply) × (i ≤ left)
      × Succeeds (backend i) reply
      × ((j : ℕ) → j < i → Fails (backend j))
      × (result.0 ≡ passed_on reply)
      × (length result.1 ≡ suc i))
    ⊎ (((j : ℕ) → j ≤ left → Fails (backend j))
        × (result.0 ≡ refused 502 "BACKEND_PROXY_ERROR")
        × (length result.1 ≡ suc left))

pub attempts-IsDelivered :
    (backend : ℕ → Option BackendReply) (sent : Sent) (left : ℕ)
    → IsDelivered backend left (attempts backend sent 0 left)
attempts-IsDelivered backend sent left = elim (attempts-IsSettled backend sent 0 left) [
  | inl (i, reply, le, (here, before), answer, count) ↦ inl (
    i,
    reply,
    le,
    usable-Succeeds (backend i) reply (ap (λ k. usable (backend k)) (omega arith) ∙ here),
    λ j lt. usable-Fails (backend j) (ap (λ k. usable (backend k)) (omega arith) ∙ before j lt),
    answer,
    count,
  )
  | inr (all, answer, count) ↦ inr (
    λ j le. usable-Fails (backend j) (ap (λ k. usable (backend k)) (omega arith) ∙ all j le),
    answer,
    count,
  )
]
