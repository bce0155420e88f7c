-- ===== src/Web/Request.antt =====
-- Requests, and the same-origin test of frontend/src/lib/backendProxy.ts. The parser of URLs is a
-- parameter. A header's name is in lower case.
use ai_voice_assistants.Common.{
  ◌≡◌, String, Bool, true, false, not, ◌&&◌, ◌||◌, Option, none, some, List, [], ◌∷◌, if◌then◌else◌,
  str_eq, eq_iff, arith,
}
use ai_voice_assistants.Common.Text.{is_space}
use Prim.Native.Char.{code}
use ai_voice_assistants.Web.Context.{Claims}

-- The value of a header: a text, or the signed context that `contextHeader` makes.
pub data Value : Type 0 where
  text : String → Value
  signed : Claims → String → Value

abbrev pub Headers : Type 0
Headers = List (String × Value)

abbrev pub Query : Type 0
Query = List (String × String)

module _ {A : Type 0} where
  unfoldable pub get : String → List (String × A) → Option A
  get name [] = none
  get name ((n, v) ∷ entries) = if str_eq n name then some v else get name entries

  unfoldable pub delete : String → List (String × A) → List (String × A)
  delete name [] = []
  delete name ((n, v) ∷ entries) =
      let rest = delete name entries in if str_eq n name then rest else (n, v) ∷ rest

  unfoldable pub set : String → A → List (String × A) → List (String × A)
  unfolding delete
  set name v entries = (name, v) ∷ delete name entries

  pub get-delete :
      (name other : String) (entries : List (String × A))
      → get other (delete name entries) ≡ (if str_eq name other then none else get other entries)
  unfolding get delete
  get-delete name other [] = ground arith
  get-delete name other ((n, v) ∷ entries) =
      ground
        (arith, eq_iff n name, eq_iff name other, eq_iff n other, get-delete name other entries)

  pub get-set :
      (name other : String) (v : A) (entries : List (String × A))
      → get other (set name v entries) ≡ (if str_eq name other then some v else get other entries)
  unfolding get set
  get-set name other v entries = ground (arith, eq_iff name other, get-delete name other entries)

-- `headers.get(name)` where it is a text that is not empty.
unfoldable pub header : String → Headers → Option String
unfolding get
header name headers = elim (get name headers) [
  | some (text s) ↦ if str_eq s "" then none else some s
  | _ ↦ none
]

pub record Url : Type 0 where
  pub protocol : String
  pub username : String
  pub password : String
  pub pathname : String
  pub search : String
  pub hash : String
  pub origin : String

pub record Request : Type 0 where
  pub method : String
  pub origin : String
  pub query : Query
  pub headers : Headers
  pub body : String

abbrev is_blank : String → Bool
is_blank String.[] = true
is_blank (String.◌∷◌ c s) = is_space (code c) && is_blank s

abbrev trim_start : String → String
trim_start String.[] = ""
trim_start (String.◌∷◌ c s) =
    let rest = trim_start s in if is_space (code c) then rest else String.◌∷◌ c s

abbrev trim_end : String → String
trim_end String.[] = ""
trim_end (String.◌∷◌ c s) =
    let rest = trim_end s in if is_space (code c) && is_blank s then "" else String.◌∷◌ c rest

abbrev pub trim_text : String → String
trim_text s = trim_end (trim_start s)

abbrev pub is_safe : String → Bool
is_safe method = str_eq method "GET" || str_eq method "HEAD" || str_eq method "OPTIONS"

-- The last line of `isSameOriginMutation`.
abbrev pub same : Option String → Option String → Bool
same (some o) (some expected) = not (str_eq o "") && not (str_eq expected "") && str_eq o expected
same _ _ = false

module _ (parse_url : String → Option Url) where
  -- `normalizeOrigin`; the absent value and the empty text are one.
  unfoldable pub normalize_origin : Option String → Option String
  normalize_origin none = none
  normalize_origin (some value) = if str_eq value "" then none else elim (parse_url value) [
    | none ↦ none
    | some url ↦
        if not (str_eq url.protocol "http:" || str_eq url.protocol "https:")
          || not (str_eq url.username "")
          || not (str_eq url.password "")
          || not (str_eq url.pathname "/")
          || not (str_eq url.search "")
          || not (str_eq url.hash "")
          || not (str_eq value url.origin)
        then none
        else some url.origin
  ]

  -- `app_origin`: the variable APP_ORIGIN. It counts where something is left of it when trimmed.
  unfoldable pub expected_origin : Option String → Request → Option String
  unfolding normalize_origin
  expected_origin none request = some request.origin
  expected_origin (some configured) request =
      if str_eq (trim_text configured) ""
      then some request.origin
      else normalize_origin (some (trim_text configured))

  unfoldable pub is_same_origin_mutation : Option String → Request → Bool
  unfolding normalize_origin expected_origin header
  is_same_origin_mutation app_origin request =
      if is_safe request.method
      then true
      else same (normalize_origin (header "origin" request.headers))
          (expected_origin app_origin request)
