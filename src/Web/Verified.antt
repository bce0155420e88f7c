-- ===== src/Web/Verified.antt =====
-- What stands behind a request context of frontend/src/lib/sessionContext.ts.
use ai_voice_assistants.Common.{
  ℕ, ◌/◌, ◌≡◌, refl, String, Bool, true, false, Option, some, none, List, str_eq, arith, Bool-cases,
  Option-cases, inl, inr,
}
use ai_voice_assistants.Common.Json.{Json}
use ai_voice_assistants.Web.Context.{
  Env, Crypto, Context, Reply, failed, refused, payload, Auth, is_local, is_set, is_session_id,
  user_of, stable_company_id, signing_secret, auth_of, authenticate, read_neon_session, context_of,
  requested_or, claims_of, get_verified_request_context,
}

-- The context that is made of an authenticated user, and signed with the secret.
abbrev made : Crypto → Auth → List ℕ → ℕ → String → Context
made crypto auth session now secret = record {
  claims = claims_of crypto auth session now;
  signature = crypto.hmac_hex secret (claims_of crypto auth session now);
  session_created_at = auth.session_created_at;
}

record IsMade (env : Env) (crypto : Crypto) (requested : Option (List ℕ)) (now : ℕ) (auth : Auth)
    (c : Context) : Type 0 where
  secret : String
  known : signing_secret env ≡ some secret
  valid : is_session_id (requested_or requested auth.session_id) ≡ true
  result : made crypto auth (requested_or requested auth.session_id) now secret ≡ c

context_of-IsMade :
    (env : Env) (crypto : Crypto) (requested : Option (List ℕ)) (now : ℕ) (auth : Auth)
    (c : Context)
    → context_of env crypto requested now auth ≡ some c
    → IsMade env crypto requested now auth c
unfolding context_of
context_of-IsMade env crypto requested now auth c h =
    elim (Bool-cases (is_session_id (requested_or requested auth.session_id))) [
      | inl v ↦ elim (Option-cases (signing_secret env)) [
        | inl n ↦ absurd (ground arith)
        | inr (secret, k) ↦ record { secret = secret; known = k; valid = v; result = ground arith }
      ]
      | inr v ↦ absurd (ground arith)
    ]

auth_of-user :
    (crypto : Crypto) (p : Json) (auth : Auth)
    → auth_of crypto p ≡ some auth
    → user_of p ≡ some auth.user_id
unfolding auth_of
auth_of-user crypto p auth h = ground arith

-- The identity provider named the user, in its answer to the request's cookie.
abbrev pub IsNamedBy : Bool → Reply → List ℕ → Type 0
IsNamedBy has_cookie reply user =
    (has_cookie ≡ true) × ((p : Json) × (reply ≡ payload p) × (user_of p ≡ some user))

read_neon_session-payload :
    (env : Env) (crypto : Crypto) (reply : Reply) (auth : Auth)
    → read_neon_session env crypto reply ≡ some auth
    → (p : Json) × (reply ≡ payload p) × (user_of p ≡ some auth.user_id)
unfolding read_neon_session
read_neon_session-payload env crypto failed auth h = absurd (ground arith)
read_neon_session-payload env crypto refused auth h = absurd (ground arith)
read_neon_session-payload env crypto (payload p) auth h =
    (p, refl, auth_of-user crypto p auth (ground arith))

authenticate-IsNamedBy :
    (env : Env) (crypto : Crypto) (has_cookie : Bool) (reply : Reply) (now : ℕ) (auth : Auth)
    → authenticate env crypto has_cookie reply now ≡ some auth
    → is_local env ≡ false
    → IsNamedBy has_cookie reply auth.user_id
unfolding authenticate
authenticate-IsNamedBy env crypto false reply now auth h l = absurd (ground arith)
authenticate-IsNamedBy env crypto true reply now auth h l =
    (refl, read_neon_session-payload env crypto reply auth (ground arith))

pub record IsVouched (env : Env) (crypto : Crypto) (has_cookie : Bool) (reply : Reply) (now : ℕ)
    (c : Context) : Type 0 where
  pub session : is_session_id c.claims.session_id ≡ true
  pub company : c.claims.company_id ≡ stable_company_id crypto c.claims.auth_subject
  pub time : c.claims.issued_at ≡ now / 1000
  pub signed :
      (secret : String) × (signing_secret env ≡ some secret)
      × (c.signature ≡ crypto.hmac_hex secret c.claims)
  pub named : is_local env ≡ false → IsNamedBy has_cookie reply c.claims.auth_subject

-- A request that is given a context has a well-formed session ID, the company ID of its user, and a
-- signature over exactly these claims with the configured secret; and outside of local development
-- its user was named by the identity provider in answer to the request's own cookie.
pub get_verified_request_context-IsVouched :
    (env : Env) (crypto : Crypto) (has_cookie : Bool) (reply : Reply) (requested : Option (List ℕ))
    (now : ℕ) (c : Context)
    → get_verified_request_context env crypto has_cookie reply requested now ≡ some c
    → IsVouched env crypto has_cookie reply now c
unfolding get_verified_request_context
get_verified_request_context-IsVouched env crypto has_cookie reply requested now c h =
    elim (Option-cases (authenticate env crypto has_cookie reply now)) [
      | inl n ↦ absurd (ground arith)
      | inr (auth, a) ↦
          let m = context_of-IsMade env crypto requested now auth c (ground arith) in
          rw (← m.result) (record {
            session = m.valid;
            company = refl;
            time = refl;
            signed = (m.secret, m.known, refl);
            named = authenticate-IsNamedBy env crypto has_cookie reply now auth a;
          })
    ]

module _ (env : Env) (d : str_eq env.node_env "development" ≡ false)
    (m : str_eq env.mock_mode "true" ≡ false) (s : is_set env.session_context_secret ≡ false) where
  context_of-none :
      (crypto : Crypto) (requested : Option (List ℕ)) (now : ℕ) (auth : Auth)
      → context_of env crypto requested now auth ≡ none
  unfolding context_of signing_secret
  context_of-none crypto requested now auth = ground arith

  -- Outside of development and the mock mode no request is given a context, whoever it comes from,
  -- unless a secret is configured: the secret of the mock mode is never used in production.
  pub get_verified_request_context-none :
      (crypto : Crypto) (has_cookie : Bool) (reply : Reply) (requested : Option (List ℕ)) (now : ℕ)
      → get_verified_request_context env crypto has_cookie reply requested now ≡ none
  unfolding get_verified_request_context
  get_verified_request_context-none crypto has_cookie reply requested now =
      elim (Option-cases (authenticate env crypto has_cookie reply now)) [
        | inl n ↦ ground arith
        | inr (auth, a) ↦ ground (arith, context_of-none crypto requested now auth)
      ]
