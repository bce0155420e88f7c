-- ===== src/Policy/Tools.antt =====
-- `executeBackendTool` of frontend/src/lib/tools.ts, and the tool calls and idempotency keys of
-- frontend/src/hooks/useGeminiLiveSession.ts.
use ai_voice_assistants.Common.{
  Bool-cases, inl, inr, ◌≡◌, ◌≢◌, ◌↔◌, refl, String, Bool, true, false, not, ◌&&◌, Option, none,
  some, List, [], ◌∷◌, arith, if◌then◌else◌, str_eq, eq_iff, eq_refl,
}
use ai_voice_assistants.Common.Json.{Json, property, is_text}
use ai_voice_assistants.Policy.Turns.{is_allowed_calendar_tool}

-- The answers of the function's own making, and the backend's.
pub data Response : Type 0 where
  tool_denied : String → Response
  request_failed : Response
  answer : Json → Response

-- What `executeBackendTool` does: its answer, whether it sends a request, and whether it dispatches
-- the event "booking-request-created".
pub record Outcome : Type 0 where
  pub response : Response
  pub is_sent : Bool
  pub is_booking_announced : Bool

abbrev settle : String → Bool → Option Json → Outcome
settle name in_browser none = record {
  response = request_failed;
  is_sent = true;
  is_booking_announced = false;
}
settle name in_browser (some answered) = record {
  response = answer answered;
  is_sent = true;
  is_booking_announced =
      str_eq name "book_event" && in_browser && not (is_text (property "status" answered) "error");
}

-- `reply`: the parsed body, or `none` where the request or the parsing throws. `in_browser`: whether
-- there is a `window`.
unfoldable pub execute_backend_tool : String → Bool → Option Json → Outcome
execute_backend_tool name in_browser reply =
    if not (is_allowed_calendar_tool name)
    then record { response = tool_denied name; is_sent = false; is_booking_announced = false }
    else settle name in_browser reply

-- A request leaves the browser exactly for the allowed tools, whatever the model asks for; a booking
-- is announced only when `book_event` was answered, and not with an error.
pub execute_backend_tool_iff :
    (name : String) (in_browser : Bool) (reply : Option Json)
    → (((execute_backend_tool name in_browser reply).is_sent ≡ true)
        ↔ (is_allowed_calendar_tool name ≡ true))
      × (((execute_backend_tool name in_browser reply).is_booking_announced ≡ true)
          → (name ≡ "book_event")
            × ((v : Json) × (reply ≡ some v) × (is_text (property "status" v) "error" ≡ false)))
unfolding execute_backend_tool
execute_backend_tool_iff name in_browser none =
    ((λ h. ground arith, λ h. ground arith), λ h. absurd (ground arith))
execute_backend_tool_iff name in_browser (some v) = (
  (λ h. ground arith, λ h. ground arith),
  λ h. (ground (arith, eq_iff name "book_event"), (v, refl, ground arith)),
)

-- The map of the idempotency keys, by the logical action (tool, sorted arguments and call ID).
abbrev pub Keys : Type 0
Keys = List (String × String)

unfoldable pub get : String → Keys → Option String
get action [] = none
get action ((a, key) ∷ keys) = if str_eq a action then some key else get action keys

abbrev is_empty : Option String → Bool
is_empty none = true
is_empty (some key) = str_eq key ""

-- `getStableIdempotencyKey`, with the text of the logical action and the random UUID that would be
-- taken. A key that is found empty counts as missing, and is written anew.
unfoldable pub stable_key : String → String → String → Keys → Option String × Keys
stable_key name action uuid keys =
    if not (str_eq name "book_event") && not (str_eq name "cancel_event")
    then (none, keys)
    else if is_empty (get action keys)
    then (some uuid, (action, uuid) ∷ keys)
    else (get action keys, keys)

-- The map after a sequence of calls, each with its tool, its action, and its random UUID.
unfoldable pub keys_after : List (String × String × String) → Keys → Keys
keys_after [] keys = keys
keys_after ((name, action, uuid) ∷ calls) keys =
    keys_after calls (stable_key name action uuid keys).1

get-stable_key :
    (name other uuid action key : String) (keys : Keys)
    → get action keys ≡ some key
    → key ≢ ""
    → get action (stable_key name other uuid keys).1 ≡ some key
unfolding stable_key get
get-stable_key name other uuid action key keys h n =
    ground (arith, eq_iff other action, eq_iff key "")

get-keys_after :
    (calls : List (String × String × String)) (action key : String) (keys : Keys)
    → get action keys ≡ some key
    → key ≢ ""
    → get action (keys_after calls keys) ≡ some key
unfolding keys_after
get-keys_after [] action key keys h n = h
get-keys_after ((name, other, uuid) ∷ calls) action key keys h n =
    get-keys_after calls action key (stable_key name other uuid keys).1
      (get-stable_key name other uuid action key keys h n) n

stable_key-has_key :
    (name action uuid key : String) (keys : Keys)
    → (stable_key name action uuid keys).0 ≡ some key
    → (not (str_eq name "book_event") && not (str_eq name "cancel_event")) ≡ false
unfolding stable_key
stable_key-has_key name action uuid key keys h = ground arith

stable_key-known :
    (name action again key : String) (keys : Keys)
    → (not (str_eq name "book_event") && not (str_eq name "cancel_event")) ≡ false
    → get action keys ≡ some key
    → key ≢ ""
    → (stable_key name action again keys).0 ≡ some key
unfolding stable_key
stable_key-known name action again key keys b h n = ground (arith, eq_iff key "")

-- Where a call has a key, the map holds that key afterwards, and it is not empty.
stable_key-get :
    (name action uuid key : String) (keys : Keys)
    → uuid ≢ ""
    → (stable_key name action uuid keys).0 ≡ some key
    → (get action (stable_key name action uuid keys).1 ≡ some key) × (key ≢ "")
unfolding stable_key get
stable_key-get name action uuid key keys u h = elim (Bool-cases (is_empty (get action keys))) [
  | inl e ↦ (
    ground (arith, eq_refl action, stable_key-has_key name action uuid key keys h),
    ground (arith, eq_iff uuid "", stable_key-has_key name action uuid key keys h),
  )
  | inr e ↦ (
    ground (arith, stable_key-has_key name action uuid key keys h),
    ground (arith, eq_iff key "", stable_key-has_key name action uuid key keys h),
  )
]

-- Once a call is given a key, every repetition of its action by a tool that books or cancels is
-- given the same key, whatever calls come between, where no UUID is empty.
pub stable_key_repeats :
    (name action uuid again key : String) (calls : List (String × String × String)) (keys : Keys)
    → uuid ≢ ""
    → (stable_key name action uuid keys).0 ≡ some key
    → (stable_key name action again (keys_after calls (stable_key name action uuid keys).1)).0
      ≡ some key
stable_key_repeats name action uuid again key calls keys u h =
    let (held, full) = stable_key-get name action uuid key keys u h in
    let kept = get-keys_after calls action key (stable_key name action uuid keys).1 held full in
    stable_key-known name action again key (keys_after calls (stable_key name action uuid keys).1)
      (stable_key-has_key name action uuid key keys h) kept full
