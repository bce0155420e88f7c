-- ===== src/Workspace/GoogleCard.antt =====
-- The card of the Google connection of frontend/src/App.tsx. `handleConnect` and `handleDisconnect`
-- are cut at their awaits; where the popup is sent is recorded.
use ai_voice_assistants.Common.{◌≡◌, refl, Bool, true, false, Option, none, some, if◌then◌else◌}
use ai_voice_assistants.Common.Json.{Json, null, str, property, truthy_field, or_json, is_text}
use ai_voice_assistants.MobileApi.Assistant.{Answer}

pub record GoogleCard : Type 0 where
  pub is_connected : Bool
  pub connection_state : Json
  pub connected_email : Option Json
  pub is_loading : Bool
  pub is_busy : Bool
  -- where the open popup was sent last, with the popup; `none` where it is blocked or closed
  pub popup : Option (Option Json)

abbrev either_text : Bool → Json
either_text connected = if connected then str "connected" else str "disconnected"

-- `a || b || null`.
abbrev first_truthy : Option Json → Option Json → Option Json
first_truthy a b = if truthy_field a then a else if truthy_field b then b else none

abbrev pub unreadable : GoogleCard → GoogleCard
unreadable s = record s { is_connected = false; connected_email = none; is_loading = false }

abbrev read : Option Json → GoogleCard → GoogleCard
read none s = unreadable s
read (some null) s = unreadable s
read (some v) s = record s {
  is_connected = truthy_field (property "connected" v);
  connection_state =
      or_json (property "connection_state" v) (either_text (truthy_field (property "connected" v)));
  connected_email = first_truthy (property "email" v) (property "google_email" v);
  is_loading = false;
}

-- `checkStatus`, with its answer.
unfoldable pub status_checked : Option Answer → GoogleCard → GoogleCard
status_checked none s = unreadable s
status_checked (some answer) s = if answer.is_ok then read answer.body s else unreadable s

-- The status that the page loaded first: `undefined` changes nothing.
unfoldable pub initial_status : Option Json → GoogleCard → GoogleCard
initial_status none s = s
initial_status (some v) s = record s {
  is_connected = truthy_field (property "connected" v);
  connection_state =
      or_json (property "connection_state" v) (either_text (truthy_field (property "connected" v)));
  connected_email = first_truthy (property "google_email" v) (property "email" v);
  is_loading = false;
}

-- `allowed`: whether the browser opens the popup. The button is disabled while the card is busy.
unfoldable pub handle_connect : Bool → GoogleCard → GoogleCard
handle_connect allowed s =
    if s.is_busy
    then s
    else record s { is_busy = true; popup = if allowed then some none else none }

abbrev sent_to : Json → Option (Option Json) → Option (Option Json)
sent_to url none = none
sent_to url (some before) = some (some url)

abbrev login : Json
login = str "/auth/google/login"

abbrev auth_url : Option Json → Json
auth_url none = login
auth_url (some v) = or_json (property "auth_url" v) login

-- The answer for the URL; what throws, or is not ok, sends the popup to the login.
unfoldable pub url_answered : Option Answer → GoogleCard → GoogleCard
url_answered none s = record s { popup = sent_to login s.popup }
url_answered (some answer) s = record s {
  popup = sent_to (if answer.is_ok then auth_url answer.body else login) s.popup;
}

-- The timer finds the popup closed, or none; the status is then checked.
unfoldable pub popup_closed : GoogleCard → GoogleCard
popup_closed s = record s { is_busy = false; popup = none }

unfoldable pub handle_disconnect : GoogleCard → GoogleCard
handle_disconnect s = if s.is_busy then s else record s { is_busy = true }

-- The request throws, or is answered, whatever the answer is, and so is the status.
unfoldable pub disconnect_settled : Option (Option Answer) → GoogleCard → GoogleCard
unfolding status_checked
disconnect_settled none s = record s { is_busy = false }
disconnect_settled (some status) s = record (status_checked status s) { is_busy = false }

pub data Badge : Type 0 where
  checking refreshed_on_use connected not_connected : Badge

unfoldable pub badge : GoogleCard → Badge
badge s =
    if s.is_loading
    then checking
    else if is_text (some s.connection_state) "refreshable"
    then refreshed_on_use
    else if s.is_connected
    then connected
    else not_connected

-- A card that showed a refreshable connection shows it still when the status cannot be read, while it
-- takes the connection for none and has no account.
pub badge-status_checked :
    (s : GoogleCard)
    → is_text (some s.connection_state) "refreshable" ≡ true
    → let s' : GoogleCard = status_checked none s in
      (badge s' ≡ refreshed_on_use) × (s'.is_connected ≡ false) × (s'.connected_email ≡ none)
unfolding status_checked badge
badge-status_checked s h = (rw h refl, refl, refl)
