-- ===== src/Web/Safety.antt =====
-- What the route handlers under frontend/src/app/api promise together with `proxyBackend`.
use ai_voice_assistants.Common.{
  ℕ, ◌≡◌, refl, ap, ◌∙◌, String, Bool, true, false, not, Option, none, some, List, [], ◌∷◌, ◌++◌,
  arith, All, All-map,
}
use ai_voice_assistants.Common.Text.{codes}
use ai_voice_assistants.Web.Context.{Env, Crypto, Context}
use ai_voice_assistants.Web.Request.{Request, Url}
use ai_voice_assistants.Web.Proxy.{no_options, Sent, World, verified}
use ai_voice_assistants.Web.Gate.{IsRecent, proxy_backend-IsAdmitted}
use ai_voice_assistants.Web.UriComponent.{
  encode_uri_component, IsSegmentChar, encode_uri_component-All,
}
use ai_voice_assistants.Web.Paths.{
  resolve, is_dots, IsFixed, status-IsFixed, cancel-IsFixed, booking-IsFixed,
  booking_cancel-IsFixed,
}
use ai_voice_assistants.Web.Routes.{
  Route, Method, Handler, proxied, patient, with_id, with_encoded, handler, perform, respond,
}

-- A handler that asks for no second attempt.
abbrev pub IsOnce : Handler → Type 0
IsOnce (proxied path options) = options.retries ≡ none
IsOnce _ = Unit

-- A method that only reads; and the routes of the Google sign-in.
abbrev pub is_get : Method → Bool
is_get Method.get = true
is_get _ = false

abbrev pub is_google : Route → Bool
is_google (Route.google path) = true
is_google _ = false

-- The path that `fetch` makes of the one it gets is one segment between two fixed parts.
abbrev pub IsWithin : String → String → Sent → Type 0
IsWithin prefix suffix sent =
    (segment : List ℕ) × All IsSegmentChar segment
    × (resolve sent.path ≡ codes prefix ++ (segment ++ codes suffix))

-- The encoded ID is neither of the segments `.` and `..`.
abbrev pub is_proper : Option (List ℕ) → Bool
is_proper none = true
is_proper (some encoded) = not (is_dots encoded)

abbrev Fixes : String → String → Type 0
Fixes prefix suffix =
    (segment : List ℕ)
    → All IsSegmentChar segment
    → is_dots segment ≡ false
    → IsFixed (codes prefix) segment (codes suffix)

module _ (parse_url : String → Option Url) (crypto : Crypto) (env : Env)
    (app_origin : Option String) (request : Request) (world : World) where
  -- The verified session of the request began within the last ten minutes.
  abbrev pub HasSignedIn : Sent → Type 0
  HasSignedIn sent =
      (context : Context) × (verified parse_url crypto env request world ≡ some context)
      × IsRecent no_options context.session_created_at world.later

  with_encoded-IsWithin :
      (prefix suffix : String) (id : List ℕ) (encoded : Option (List ℕ))
      → Fixes prefix suffix
      → encode_uri_component id ≡ encoded
      → is_proper encoded ≡ true
      → All
          (IsWithin prefix suffix)
          (perform parse_url crypto env app_origin request world
            (with_encoded prefix suffix encoded)).1
  unfolding with_encoded perform
  with_encoded-IsWithin prefix suffix id none fixes e proper = tt
  with_encoded-IsWithin prefix suffix id (some encoded) fixes e proper =
      let chars : All IsSegmentChar encoded = encode_uri_component-All id encoded e in
      All-map
        (λ sent a.
          (encoded, chars, ap resolve a.trusted.to_path ∙ fixes encoded chars (ground arith)))
        _
        (proxy_backend-IsAdmitted parse_url crypto env app_origin request
          (codes prefix ++ (encoded ++ codes suffix)) patient world)

  with_id-IsWithin :
      (prefix : String) (id : List ℕ) (suffix : String)
      → Fixes prefix suffix
      → is_proper (encode_uri_component id) ≡ true
      → All
          (IsWithin prefix suffix)
          (perform parse_url crypto env app_origin request world (with_id prefix id suffix)).1
  unfolding with_id perform
  with_id-IsWithin prefix [] suffix fixes proper = tt
  with_id-IsWithin prefix (c ∷ id) suffix fixes proper =
      with_encoded-IsWithin prefix suffix (c ∷ id) (encode_uri_component (c ∷ id)) fixes refl proper

  -- Whatever the ID in the path of a task or a booking is, unless it becomes the segment `.` or `..`
  -- when encoded, the request goes to one segment below the path of tasks or bookings, after `fetch`
  -- has resolved the dots of the path: the ID cannot separate the parts of a path, or begin a query.
  pub respond-IsWithin :
      (id : List ℕ)
      → is_proper (encode_uri_component id) ≡ true
      → All
          (IsWithin "/tasks/" "/status")
          (respond parse_url crypto env app_origin request world (Route.task id) Method.get).1
        × All
            (IsWithin "/tasks/" "/cancel")
            (respond parse_url crypto env app_origin request world (Route.task id) Method.post).1
        × All
            (IsWithin "/bookings/" "")
            (respond parse_url crypto env app_origin request world (Route.booking id) Method.get).1
        × All
            (IsWithin "/bookings/" "/cancel")
            (respond parse_url crypto env app_origin request world (Route.booking id) Method.post).1
  unfolding respond handler
  respond-IsWithin id proper = (
    with_id-IsWithin "/tasks/" id "/status" status-IsFixed proper,
    with_id-IsWithin "/tasks/" id "/cancel" cancel-IsFixed proper,
    with_id-IsWithin "/bookings/" id "" booking-IsFixed proper,
    with_id-IsWithin "/bookings/" id "/cancel" booking_cancel-IsFixed proper,
  )
