-- ===== src/Web/Gate.antt =====
-- The guards of `proxyBackend` of frontend/src/lib/backendProxy.ts.
use ai_voice_assistants.Common.{
  ℕ, List, ◌+◌, ◌≤◌, ◌≡◌, ◌⊎◌, inl, inr, refl, String, true, false, Option, none, some, [], arith,
  All, eq_iff, Bool-cases, Option-cases, ◌&&◌,
}
use ai_voice_assistants.Web.Context.{Env, Crypto, Context}
use ai_voice_assistants.Web.Request.{
  Request, header, Url, is_safe, same, normalize_origin, expected_origin, is_same_origin_mutation,
}
use ai_voice_assistants.Web.Proxy.{
  Options, Sent, World, ℕ_or, attempts, forwarded, is_stale, is_mock_mode, verified, proxy_backend,
}
use ai_voice_assistants.Web.Forwarding.{IsTrusted, forwarded-IsTrusted, attempts-All}

-- The session began before now, and no longer ago than the window of the options, or ten minutes.
abbrev pub IsRecent : Options → Option ℕ → ℕ → Type 0
IsRecent options created now =
    (t : ℕ) × (created ≡ some t)
    × (t ≤ now)
    × (now ≤ t + ℕ_or 600_000 options.recent_auth_window_ms)

is_stale-IsRecent :
    (options : Options) (created : Option ℕ) (now : ℕ)
    → is_stale options created now ≡ false
    → IsRecent options created now
unfolding is_stale
is_stale-IsRecent options none now h = absurd (ground arith)
is_stale-IsRecent options (some t) now h = (t, refl, ground arith, ground arith)

normalize_origin-same :
    (parse_url : String → Option Url) (value : Option String) (o : String)
    → normalize_origin parse_url value ≡ some o
    → value ≡ some o
unfolding normalize_origin
normalize_origin-same parse_url none o h = absurd (ground arith)
normalize_origin-same parse_url (some value) o h = elim (Option-cases (parse_url value)) [
  | inl n ↦ absurd (ground arith)
  | inr (url, e) ↦ ground (arith, eq_iff value url.origin)
]

module _ (parse_url : String → Option Url) (crypto : Crypto) (env : Env)
    (app_origin : Option String) (request : Request) (path : List ℕ) (options : Options)
    (world : World) where
  -- What is known of a request that is sent to the backend.
  pub record IsAdmitted (sent : Sent) : Type 0 where
    pub context : Context
    pub live : is_mock_mode env ≡ false
    pub own : is_same_origin_mutation parse_url app_origin request ≡ true
    pub known : verified parse_url crypto env request world ≡ some context
    pub trusted : IsTrusted request path context sent
    pub recent :
        options.require_recent_auth ≡ true → IsRecent options context.session_created_at world.later

  -- A run of `proxyBackend` that gets as far as the attempts.
  pub record IsPassing (context : Context) : Type 0 where
    pub live : is_mock_mode env ≡ false
    pub own : is_same_origin_mutation parse_url app_origin request ≡ true
    pub known : verified parse_url crypto env request world ≡ some context
    pub recent :
        options.require_recent_auth ≡ true → IsRecent options context.session_created_at world.later
    pub result :
        proxy_backend parse_url crypto env app_origin request path options world
        ≡ attempts world.backend (forwarded request path options context) 0 (ℕ_or 0 options.retries)

  passing :
      (context : Context)
      → is_mock_mode env ≡ false
      → is_same_origin_mutation parse_url app_origin request ≡ true
      → verified parse_url crypto env request world ≡ some context
      → (options.require_recent_auth && is_stale options context.session_created_at world.later)
        ≡ false
      → IsPassing context
  unfolding proxy_backend
  passing context live own known fresh = record {
    live = live;
    own = own;
    known = known;
    recent = λ r. is_stale-IsRecent options context.session_created_at world.later (ground arith);
    result = ground arith;
  }

  pub IsPassing-or_silent :
      ((context : Context) × IsPassing context)
      ⊎ ((proxy_backend parse_url crypto env app_origin request path options world).1 ≡ [])
  unfolding proxy_backend
  IsPassing-or_silent = elim (Bool-cases (is_mock_mode env)) [
    | inl m ↦ inr (ground arith)
    | inr m ↦ elim (Bool-cases (is_same_origin_mutation parse_url app_origin request)) [
      | inr o ↦ inr (ground arith)
      | inl o ↦ elim (Option-cases (verified parse_url crypto env request world)) [
        | inl v ↦ inr (ground arith)
        | inr (context, v) ↦
            elim (Bool-cases (
              options.require_recent_auth
              && is_stale options context.session_created_at world.later)) [
                | inl f ↦ inr (ground arith)
                | inr f ↦ inl (context, passing context m o v f)
              ]
      ]
    ]
  ]

  -- Every request that reaches the backend comes, outside of the mock mode, from a same-origin or
  -- safe request whose user is verified, and if a recent sign-in is required, from a session that is
  -- not older than the window. It carries the signed context of that user in place of any that the
  -- browser sent, no cookie, and no parameter "user_id"; the other parameters, the method and the
  -- path are kept.
  pub proxy_backend-IsAdmitted :
      All IsAdmitted (proxy_backend parse_url crypto env app_origin request path options world).1
  proxy_backend-IsAdmitted = elim IsPassing-or_silent [
    | inr silent ↦ rw silent tt
    | inl (context, p) ↦ rw p.result (
        attempts-All IsAdmitted world.backend (forwarded request path options context) 0
          (ℕ_or 0 options.retries)
          (record {
            context = context;
            live = p.live;
            own = p.own;
            known = p.known;
            trusted = forwarded-IsTrusted request path options context;
            recent = p.recent;
          }))
  ]

same-origin : (a b : Option String) → same a b ≡ true → (o : String) × (a ≡ some o) × (b ≡ some o)
same-origin none b h = absurd (ground arith)
same-origin (some o) none h = absurd (ground arith)
same-origin (some o) (some e) h = (o, refl, ground (arith, eq_iff o e))

module _ (parse_url : String → Option Url) (app_origin : Option String) (request : Request) where
  -- A request that may change something passes the same-origin test only if its header "origin" is,
  -- to the letter, the configured origin without the space around it, or the origin of its own URL if
  -- none is configured.
  pub is_same_origin_mutation-origin :
      is_safe request.method ≡ false
      → is_same_origin_mutation parse_url app_origin request ≡ true
      → (o : String) × (header "origin" request.headers ≡ some o)
        × (expected_origin parse_url app_origin request ≡ some o)
  unfolding is_same_origin_mutation
  is_same_origin_mutation-origin u h =
      let (o, a, b) =
        same-origin (normalize_origin parse_url (header "origin" request.headers))
          (expected_origin parse_url app_origin request) (ground arith) in
      (o, normalize_origin-same parse_url (header "origin" request.headers) o a, b)
