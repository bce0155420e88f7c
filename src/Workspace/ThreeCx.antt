-- ===== src/Workspace/ThreeCx.antt =====
-- The card of the 3CX connection of frontend/src/App.tsx. Texts are lists of code units; the details
-- that the server answers have their declared types. `save` is cut at its awaits. Texts of errors are
-- constructors.
use ai_voice_assistants.Common.{
  ℕ, Bool, true, false, not, ◌&&◌, ◌||◌, Option, none, some, List, [], ◌∷◌, ◌++◌, ◌==◌,
  if◌then◌else◌, any,
}
use ai_voice_assistants.Common.Text.{codes, trim}
use ai_voice_assistants.Workspace.Lines.{entries, join, is_full}
use ai_voice_assistants.Workspace.Rules.{same_text}

pub data FailureAction : Type 0 where
  unset disconnecting transferring : FailureAction

-- What the server answers; `none` is a field that is missing, or a list that is no array.
pub record Details : Type 0 where
  pub is_configured : Bool
  pub connection_name : Option (List ℕ)
  pub pbx_host : Option (List ℕ)
  pub app_id : Option (List ℕ)
  pub route_point_dn : Option (List ℕ)
  pub dids : Option (List (List ℕ))
  pub transfer_destinations : Option (List (List ℕ))
  pub failure_action : FailureAction
  pub failure_destination : Option (List ℕ)
  pub error : Option (List ℕ)

pub data Failure : Type 0 where
  sign_in_again too_many not_loaded : Failure
  reported : List ℕ → Failure
  refused threw : Failure

pub record Payload : Type 0 where
  pub connection_name : List ℕ
  pub pbx_url : List ℕ
  pub app_id : List ℕ
  pub route_point_dn : List ℕ
  pub client_secret : List ℕ
  pub dids : List (List ℕ)
  pub transfer_destinations : List (List ℕ)
  pub failure_action : FailureAction
  pub failure_destination : Option (List ℕ)

-- The request of the card that is waited for.
pub data Phase : Type 0 where
  idle saving reloading removing : Phase

pub record Card : Type 0 where
  pub connection_name : List ℕ
  pub pbx_url : List ℕ
  pub app_id : List ℕ
  pub route_point_dn : List ℕ
  pub client_secret : List ℕ
  pub dids : List ℕ
  pub transfer_destinations : List ℕ
  pub failure_action : FailureAction
  pub failure_destination : List ℕ
  pub status : Option Details
  pub error : Option Failure
  pub busy : Bool
  pub phase : Phase
  pub sent : List Payload

abbrev pub comma : ℕ
comma = b','

abbrev pub default_name : List ℕ
default_name = codes "3CX PBX Connection"

-- `a || b` on texts.
abbrev pub or_text : Option (List ℕ) → List ℕ → List ℕ
or_text none other = other
or_text (some s) other = if is_full s then s else other

abbrev pub https : List ℕ → List ℕ
https host = codes "https://" ++ host

abbrev pub url_of : Option (List ℕ) → List ℕ
url_of none = []
url_of (some host) = if is_full host then https host else []

-- `join(", ")`, or nothing where the list is no array.
abbrev pub listed : Option (List (List ℕ)) → List ℕ
listed none = []
listed (some xs) = join (comma ∷ 32 ∷ []) xs

abbrev pub or_disconnecting : FailureAction → FailureAction
or_disconnecting unset = disconnecting
or_disconnecting action = action

abbrev shown_error : Option (List ℕ) → Option Failure
shown_error none = none
shown_error (some message) = some (reported message)

-- `applyStatus`.
unfoldable pub apply_status : Details → Card → Card
unfolding join
apply_status details s = record s {
  status = some details;
  error = shown_error details.error;
  connection_name = or_text details.connection_name default_name;
  pbx_url = url_of details.pbx_host;
  app_id = or_text details.app_id [];
  route_point_dn = or_text details.route_point_dn [];
  dids = listed details.dids;
  transfer_destinations = listed details.transfer_destinations;
  failure_action = or_disconnecting details.failure_action;
  failure_destination = or_text details.failure_destination [];
  client_secret = [];
}

abbrev pub starts_with : List ℕ → List ℕ → Bool
starts_with [] s = true
starts_with (c ∷ prefix) [] = false
starts_with (c ∷ prefix) (d ∷ s) = c == d && starts_with prefix s

abbrev pub normalized_url : List ℕ → List ℕ
normalized_url url =
    if not (is_full url)
    then []
    else if starts_with (codes "http://") url || starts_with (codes "https://") url
    then url
    else https url

abbrev pub destination : FailureAction → List ℕ → Option (List ℕ)
destination transferring to = some to
destination action to = none

unfoldable pub payload_of : Card → Payload
unfolding entries trim
payload_of s = record {
  connection_name = or_text (some (trim s.connection_name)) default_name;
  pbx_url = normalized_url (trim s.pbx_url);
  app_id = s.app_id;
  route_point_dn = or_text (some (trim s.route_point_dn)) (trim s.app_id);
  client_secret = s.client_secret;
  dids = entries comma s.dids;
  transfer_destinations = entries comma s.transfer_destinations;
  failure_action = s.failure_action;
  failure_destination = destination s.failure_action s.failure_destination;
}

-- The choice of the action on failure.
abbrev pub choose_action : FailureAction → Card → Card
choose_action transferring s = record s { failure_action = transferring }
choose_action action s = record s { failure_action = action; failure_destination = [] }

abbrev is_unset : FailureAction → Bool
is_unset unset = true
is_unset _ = false

abbrev is_transferring : FailureAction → Bool
is_transferring transferring = true
is_transferring _ = false

-- `saveDisabled`.
unfoldable pub is_save_disabled : Card → Bool
unfolding entries
is_save_disabled s =
    s.busy
    || not (is_full s.client_secret)
    || not (is_full s.app_id)
    || not (is_full s.pbx_url)
    || not (is_full s.route_point_dn)
    || is_unset s.failure_action
    || is_transferring s.failure_action
      && (not (is_full s.failure_destination)
          || not (
              any (λ d. same_text d s.failure_destination) (entries comma s.transfer_destinations)))

-- The button is disabled where the card is incomplete or busy.
unfoldable pub save : Card → Card
unfolding payload_of is_save_disabled
save s =
    if is_save_disabled s
    then s
    else record s { busy = true; phase = saving; sent = payload_of s ∷ s.sent }

-- An answer: whether it is ok, and else what makes the error.
pub data Answer : Type 0 where
  accepted : Answer
  rejected : Bool → Bool → Option (List ℕ) → Answer

-- `is_stale`: the error code says that a recent sign-in is required; `limited`: the status is 429.
abbrev failure_of : Bool → Bool → Option (List ℕ) → Failure
failure_of is_stale limited message =
    if is_stale then sign_in_again else if limited then too_many else reason message
  where
    reason : Option (List ℕ) → Failure
    reason none = refused
    reason (some text) = if is_full text then reported text else refused

-- The end of `save`: its `catch` and `finally`.
abbrev pub settled : Option Failure → Card → Card
settled none s = record s { client_secret = []; busy = false; phase = idle }
settled (some failure) s = record s {
  error = some failure;
  client_secret = [];
  busy = false;
  phase = idle;
}

-- `none` is a request that throws.
abbrev pub saved : Phase → Option Answer → Card → Card
saved saving none s = settled (some threw) s
saved saving (some accepted) s = record s { client_secret = []; phase = reloading }
saved saving (some (rejected is_stale limited message)) s =
    settled (some (failure_of is_stale limited message)) s
saved _ answer s = s

unfoldable pub save_answered : Option Answer → Card → Card
save_answered answer s = saved s.phase answer s

-- The answer to `loadStatus`: it throws, is not ok, or has the details.
pub data Loaded : Type 0 where
  load_threw load_refused : Loaded
  details : Details → Loaded

abbrev pub reloaded : Phase → Loaded → Card → Card
reloaded reloading load_threw s = settled (some threw) s
reloaded reloading load_refused s = settled (some not_loaded) s
reloaded reloading (details d) s = settled none (apply_status d s)
reloaded _ answer s = s

unfoldable pub load_answered : Loaded → Card → Card
unfolding apply_status
load_answered answer s = reloaded s.phase answer s

abbrev is_configured : Option Details → Bool
is_configured none = false
is_configured (some d) = d.is_configured

-- `confirmed`: what the user answers to `confirm`.
unfoldable pub disconnect : Bool → Card → Card
disconnect confirmed s =
    if s.busy || not (is_configured s.status) || not confirmed
    then s
    else record s { busy = true; phase = removing }

abbrev pub unconfigured : Details
unconfigured = record {
  is_configured = false;
  connection_name = none;
  pbx_host = none;
  app_id = none;
  route_point_dn = none;
  dids = none;
  transfer_destinations = none;
  failure_action = unset;
  failure_destination = none;
  error = none;
}

abbrev emptied : Card → Card
emptied s = record s {
  status = some unconfigured;
  error = none;
  connection_name = [];
  pbx_url = [];
  app_id = [];
  route_point_dn = [];
  dids = [];
  transfer_destinations = [];
  failure_action = unset;
  failure_destination = [];
  client_secret = [];
  busy = false;
  phase = idle;
}

abbrev pub removed : Phase → Option Answer → Card → Card
removed removing none s = record s { error = some threw; busy = false; phase = idle }
removed removing (some accepted) s = emptied s
removed removing (some (rejected is_stale limited message)) s = record s {
  error = some (failure_of is_stale false message);
  busy = false;
  phase = idle;
}
removed _ answer s = s

unfoldable pub disconnect_answered : Option Answer → Card → Card
disconnect_answered answer s = removed s.phase answer s
