-- ===== src/Workspace/Stored.antt =====
-- What the card of the 3CX connection sends and keeps: theorems on frontend/src/App.tsx.
use ai_voice_assistants.Common.{
  ◌≡◌, ◌≢◌, refl, ℕ, true, false, Option, none, some, List, [], ◌∷◌, arith, All, if◌then◌else◌,
}
use ai_voice_assistants.Common.Text.{trim, StartsPlain, EndsPlain}
use ai_voice_assistants.Workspace.Lines.{is_full, IsEntry, entries-join, trim-plain}
use ai_voice_assistants.Workspace.ThreeCx.{
  FailureAction, unset, disconnecting, transferring, Details, Payload, Card, idle, comma, https,
  apply_status, payload_of, is_save_disabled, save, Answer, accepted, rejected, save_answered,
  Loaded, load_threw, load_refused, details, load_answered, or_text, default_name, normalized_url,
  or_disconnecting, destination,
}

-- Whatever the server answers to a save, the card sends one request, which carries the secret, the
-- client ID and the chosen action as they stand in the card, and ends free for the next one, with no
-- secret left in it.
pub save-settled :
    (answer : Option Answer) (loaded : Loaded) (s : Card)
    → is_save_disabled s ≡ false
    → let t : Card = load_answered loaded (save_answered answer (save s)) in
      (t.busy ≡ false)
      × (t.phase ≡ idle)
      × (t.client_secret ≡ [])
      × (t.sent ≡ payload_of s ∷ s.sent)
      × ((payload_of s).client_secret ≡ s.client_secret)
      × ((payload_of s).app_id ≡ s.app_id)
      × ((payload_of s).failure_action ≡ s.failure_action)
unfolding payload_of save save_answered load_answered apply_status
save-settled none loaded s h = rw h (refl, refl, refl, refl, refl, refl, refl)
save-settled (some (rejected is_stale limited message)) loaded s h =
    rw h (refl, refl, refl, refl, refl, refl, refl)
save-settled (some accepted) load_threw s h = rw h (refl, refl, refl, refl, refl, refl, refl)
save-settled (some accepted) load_refused s h = rw h (refl, refl, refl, refl, refl, refl, refl)
save-settled (some accepted) (details d) s h = rw h (refl, refl, refl, refl, refl, refl, refl)

-- A text that a field keeps: neither empty nor with white space at an end.
abbrev pub IsField : List ℕ → Type 0
IsField s = StartsPlain s × EndsPlain s × (is_full s ≡ true)

or_text-IsField : (s other : List ℕ) → IsField s → or_text (some (trim s)) other ≡ s
or_text-IsField s other (starts, ends, full) = rw (trim-plain comma s starts ends, full) refl

https-trim : (host : List ℕ) → IsField host → trim (https host) ≡ https host
https-trim [] h = absurd (ground arith)
https-trim (c ∷ host) (starts, ends, full) = trim-plain comma (https (c ∷ host)) refl ends

named :
    (s first other : List ℕ) → IsField s → or_text (some (trim (or_text (some s) first))) other ≡ s
named [] first other (starts, ends, full) = absurd (ground arith)
named (c ∷ s) first other h = or_text-IsField (c ∷ s) other h

hosted :
    (host : List ℕ)
    → IsField host
    → normalized_url (trim (if is_full host then https host else [])) ≡ https host
hosted host (starts, ends, full) = rw (full, https-trim host (starts, ends, full)) refl

app_kept : (app : List ℕ) → is_full app ≡ true → or_text (some app) [] ≡ app
app_kept app h = rw h refl

-- Where a call goes when the card transfers it; for another action there is no destination.
abbrev pub destination_for : FailureAction → List ℕ → Option (List ℕ)
destination_for transferring to = some to
destination_for _ to = none

destined :
    (action : FailureAction) (to : List ℕ)
    → action ≢ unset
    → (or_disconnecting action ≡ action)
      × (destination (or_disconnecting action) (or_text (some to) []) ≡ destination_for action to)
destined unset to h = absurd (h refl)
destined disconnecting to h = (refl, refl)
destined transferring [] h = (refl, refl)
destined transferring (c ∷ to) h = (refl, refl)

same_payload :
    (p q : Payload)
    → p.connection_name ≡ q.connection_name
    → p.pbx_url ≡ q.pbx_url
    → p.app_id ≡ q.app_id
    → p.route_point_dn ≡ q.route_point_dn
    → p.client_secret ≡ q.client_secret
    → p.dids ≡ q.dids
    → p.transfer_destinations ≡ q.transfer_destinations
    → p.failure_action ≡ q.failure_action
    → p.failure_destination ≡ q.failure_destination
    → p ≡ q
same_payload p q a b c d e f g h k = ground (arith, a, b, c, d, e, f, g, h, k)

-- The details that the card loads are the details that it sends, with the host as a URL, no secret, and
-- the destination only where the action is a transfer, if each of them is there, no text
-- but the destination is empty, no name, host, route point or entry of a list has white space at an end,
-- no entry has a comma, and an action is chosen.
pub payload_of-apply_status :
    (name host app route to : List ℕ) (dids destinations : List (List ℕ)) (action : FailureAction)
    (d : Details) (s : Card)
    → d.connection_name ≡ some name
    → d.pbx_host ≡ some host
    → d.app_id ≡ some app
    → d.route_point_dn ≡ some route
    → d.dids ≡ some dids
    → d.transfer_destinations ≡ some destinations
    → d.failure_action ≡ action
    → d.failure_destination ≡ some to
    → IsField name
    → IsField host
    → is_full app ≡ true
    → IsField route
    → All (IsEntry comma) dids
    → All (IsEntry comma) destinations
    → action ≢ unset
    → payload_of (apply_status d s) ≡ record {
      connection_name = name;
      pbx_url = https host;
      app_id = app;
      route_point_dn = route;
      client_secret = [];
      dids = dids;
      transfer_destinations = destinations;
      failure_action = action;
      failure_destination = destination_for action to;
    }
unfolding payload_of apply_status
payload_of-apply_status name host app route to dids destinations action d s a b c e f g x y
      name-field host-field full route-field k l chosen =
    same_payload (payload_of (apply_status d s)) _
      (rw a (named name default_name default_name name-field)) (rw b (hosted host host-field))
      (rw c (app_kept app full)) (rw e (named route [] (trim (or_text d.app_id [])) route-field))
      refl (rw f (entries-join comma (32 ∷ []) dids ((refl, refl), tt) k))
      (rw g (entries-join comma (32 ∷ []) destinations ((refl, refl), tt) l))
      (rw x ((destined action to chosen).0)) (rw (x, y) ((destined action to chosen).1))
