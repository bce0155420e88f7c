-- ===== src/Web/Context.antt =====
-- frontend/src/lib/sessionContext.ts: who a request comes from. SHA-256, HMAC and `Date.parse` are
-- parameters. IDs are lists of code units; an ID in an answer that is no string counts as missing.
use ai_voice_assistants.Common.{
  ℕ, ◌+◌, ◌-◌, ◌*◌, ◌/◌, ◌%◌, String, Bool, false, not, ◌&&◌, ◌||◌, Option, none, some, List, [],
  ◌∷◌, ◌++◌, if◌then◌else◌, ◌==◌, ltb, leb, all, length, take, str_eq, get_or, drop,
}
use ai_voice_assistants.Common.Json.{Json, num, str, property, as_string}
use ai_voice_assistants.Common.Text.{codes, is_letter, is_digit}

pub record Env : Type 0 where
  pub neon_auth_url : Option String
  pub neon_auth_base_url : Option String
  pub node_env : String
  pub allow_dev_local_auth : String
  pub mock_mode : String
  pub next_public_mock_mode : String
  pub session_context_secret : Option String

-- What is signed, and what is sent to the backend beside its signature.
pub record Claims : Type 0 where
  pub session_id : List ℕ
  pub company_id : List ℕ
  pub auth_subject : List ℕ
  pub issued_at : ℕ

pub record Context : Type 0 where
  pub claims : Claims
  pub signature : String
  pub session_created_at : Option ℕ

pub record Crypto : Type 0 where
  pub sha256_hex : List ℕ → List ℕ
  pub hmac_hex : String → Claims → String
  pub parse_date : String → Option ℕ

-- The value of a hexadecimal digit (`NaN` does not arise from a digest), and the digit of a value.
abbrev pub hex_value : ℕ → ℕ
hex_value c = if is_digit c then c - 48 else c - 87

abbrev pub hex_digit : ℕ → ℕ
hex_digit v = if ltb v 10 then v + 48 else v + 87

-- `((parseInt(pair, 16) & 0x3f) | 0x80).toString(16).padStart(2, "0")`: the six low bits, and 0x80.
abbrev pub variant : ℕ → ℕ → List ℕ
variant high low =
    let v = (hex_value high * 16 + hex_value low) % 64 + 128 in
    hex_digit (v / 16) ∷ hex_digit (v % 16) ∷ []

-- `slice(from, to)`.
abbrev pub slice : ℕ → ℕ → List ℕ → List ℕ
slice from to s = take (to - from) (drop from s)

abbrev dash : List ℕ
dash = b'-' ∷ []

unfoldable pub company_id_of : List ℕ → List ℕ
company_id_of digest =
    let hex = take 32 digest in
    slice 0 8 hex
    ++ (dash
        ++ (slice 8 12 hex
            ++ (dash
                ++ (b'4' ∷ [])
                ++ (slice 13 16 hex
                    ++ (dash
                        ++ (variant (get_or 0 hex 16) (get_or 0 hex 17)
                            ++ (slice 18 20 hex ++ (dash ++ drop 20 hex))))))))

unfoldable pub stable_company_id : Crypto → List ℕ → List ℕ
unfolding company_id_of
stable_company_id crypto user_id = company_id_of (crypto.sha256_hex (codes "company:" ++ user_id))

pub record Auth : Type 0 where
  pub user_id : List ℕ
  pub session_id : List ℕ
  pub session_created_at : Option ℕ

abbrev field? : String → Option Json → Option Json
field? k none = none
field? k (some v) = property k v

-- A string that is not empty.
abbrev nonempty : Option Json → Option (List ℕ)
nonempty v = elim (as_string v) [
  | none ↦ none
  | some s ↦ if str_eq s "" then none else some (codes s)
]

abbrev first_of : Option (List ℕ) → Option (List ℕ) → Option (List ℕ)
first_of none other = other
first_of (some s) other = some s

unfoldable pub user_of : Json → Option (List ℕ)
user_of payload =
    first_of (nonempty (field? "id" (property "user" payload)))
      (nonempty (field? "id" (field? "user" (property "session" payload))))

abbrev created_at : Crypto → Option Json → Option ℕ
created_at crypto (some (num n)) = some n
created_at crypto (some (str s)) = crypto.parse_date s
created_at crypto _ = none

-- Seconds are turned into milliseconds.
abbrev to_millis : Option ℕ → Option ℕ
to_millis none = none
to_millis (some t) = some (if ltb 10_000_000_000 t then t else t * 1000)

unfoldable pub auth_of : Crypto → Json → Option Auth
unfolding user_of
auth_of crypto payload = elim (user_of payload) [
  | none ↦ none
  | some user ↦ elim (nonempty (field? "id" (property "session" payload))) [
    | none ↦ none
    | some session ↦ some (record {
      user_id = user;
      session_id = session;
      session_created_at =
          to_millis (created_at crypto (field? "createdAt" (property "session" payload)));
    })
  ]
]

-- The identity provider's answer to the cookie: it fails, it is no success, or it is a payload.
pub data Reply : Type 0 where
  failed refused : Reply
  payload : Json → Reply

abbrev pub is_set : Option String → Bool
is_set none = false
is_set (some s) = not (str_eq s "")

-- `none` also where the address is not configured, which throws and is caught.
unfoldable pub read_neon_session : Env → Crypto → Reply → Option Auth
read_neon_session env crypto reply =
    if not (is_set env.neon_auth_url) && not (is_set env.neon_auth_base_url)
    then none
    else elim reply [ failed ↦ none | refused ↦ none | payload p ↦ auth_of crypto p ]

abbrev pub is_local : Env → Bool
is_local env = str_eq env.node_env "development" || str_eq env.allow_dev_local_auth "true"

abbrev pub local_auth : ℕ → Auth
local_auth now = record {
  user_id = codes "local-dev-user";
  session_id = codes "local-dev-session";
  session_created_at = some now;
}

-- `[A-Za-z0-9._:-]`, and the whole pattern.
abbrev pub is_session_char : ℕ → Bool
is_session_char c = is_letter c || is_digit c || c == b'.' || c == b'_' || c == b':' || c == b'-'

unfoldable pub is_session_id : List ℕ → Bool
is_session_id s = all is_session_char s && leb 8 (length s) && leb (length s) 128

-- `none` is the exception for a secret that is not configured.
unfoldable pub signing_secret : Env → Option String
signing_secret env =
    if is_set env.session_context_secret
    then env.session_context_secret
    else if str_eq env.node_env "development" || str_eq env.mock_mode "true"
    then some "mock-dev-secret-12345678"
    else none

abbrev pub requested_or : Option (List ℕ) → List ℕ → List ℕ
requested_or none session = session
requested_or (some []) session = session
requested_or (some (c ∷ s)) session = c ∷ s

abbrev pub claims_of : Crypto → Auth → List ℕ → ℕ → Claims
claims_of crypto auth session now = record {
  session_id = session;
  company_id = stable_company_id crypto auth.user_id;
  auth_subject = auth.user_id;
  issued_at = now / 1000;
}

-- The context of an authenticated request; `requested` is the URL's parameter "session_id".
unfoldable pub context_of : Env → Crypto → Option (List ℕ) → ℕ → Auth → Option Context
unfolding signing_secret
context_of env crypto requested now auth =
    let session = requested_or requested auth.session_id in
    if not (is_session_id session) then none else elim (signing_secret env) [
      | none ↦ none
      | some secret ↦
          let claims = claims_of crypto auth session now in
          some (record {
            claims = claims;
            signature = crypto.hmac_hex secret claims;
            session_created_at = auth.session_created_at;
          })
    ]

-- `has_cookie`: whether the request has a cookie that is not empty.
unfoldable pub authenticate : Env → Crypto → Bool → Reply → ℕ → Option Auth
unfolding read_neon_session
authenticate env crypto has_cookie reply now =
    let verified = if has_cookie then read_neon_session env crypto reply else none in
    elim verified [
      | some auth ↦ some auth
      | none ↦ if is_local env then some (local_auth now) else none
    ]

unfoldable pub get_verified_request_context :
    Env → Crypto → Bool → Reply → Option (List ℕ) → ℕ → Option Context
get_verified_request_context env crypto has_cookie reply requested now =
    elim (authenticate env crypto has_cookie reply now) [
      | none ↦ none
      | some auth ↦ context_of env crypto requested now auth
    ]

-- The header leaves the time of the session out.
unfoldable pub context_header : Context → Claims × String
context_header context = (context.claims, context.signature)
