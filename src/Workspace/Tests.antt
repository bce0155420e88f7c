-- ===== src/Workspace/Tests.antt =====
-- Runs of the pages' logic, and the hypotheses of the theorems at concrete inputs.
use ai_voice_assistants.Common.{
  arith, ◌≡◌, ◌≢◌, refl, keep, ℕ, none, String, true, false, some, List, [], ◌∷◌,
}
use ai_voice_assistants.Common.Json.{Json, cons, nil, str, arr, bool, obj, field, end}
use ai_voice_assistants.MobileApi.Assistant.{Switches, decode, formatted}
use ai_voice_assistants.Capabilities.Compile.{check_languages, ok}
use ai_voice_assistants.Workspace.Capability.{
  read_capability_flags, write_capability_flags, write_capability_flags-formatted, AreSwitches,
}
use ai_voice_assistants.Workspace.Languages.{
  choose_default, check_language, read_allowed_languages, read_response_language,
}
use ai_voice_assistants.Common.Text.{codes}
use ai_voice_assistants.Workspace.Lines.{entries}
use ai_voice_assistants.Workspace.Rules.{parse_rules, typed, replaced, run, opened}
use ai_voice_assistants.Workspace.RulesKept.{run-opened-IsShown}
use ai_voice_assistants.Workspace.ThreeCx.{
  unset, Details, Card, transferring, disconnecting, idle, https, apply_status, payload_of,
  is_save_disabled, save, accepted, save_answered, load_refused, load_answered,
}
use ai_voice_assistants.Workspace.Stored.{payload_of-apply_status, save-settled}
use ai_voice_assistants.Workspace.Policy.{load, choose, check, loaded, check_languages-Reached}

abbrev stored : Json
stored = obj (field "company_faq" (bool true) end)

write_capability_flags-formatted_example :
    let on : Switches = record {
      company_receptionist = true;
      company_faq = false;
      google_calendar = false;
    } in
    (write_capability_flags on ≡ formatted on)
    × (read_capability_flags (some (write_capability_flags on)) ≡ on)
    × (decode (write_capability_flags on) ≡ on)
    × ((raw : Json) → AreSwitches raw → read_capability_flags (some raw) ≡ decode raw)
write_capability_flags-formatted_example =
    write_capability_flags-formatted
      (record { company_receptionist = true; company_faq = false; google_calendar = false })

abbrev edited : String × List String
unfolding choose_default check_language
edited = check_language "en" false (
    choose_default "fr-BE" (
      loaded (some (str "en"))
        (some (arr (cons (str "en") (cons (str "nl") (cons (str "fr-FR") nil)))))))

loaded_and_edited : edited ≡ ("fr-BE", "fr-FR" ∷ "fr-BE" ∷ [])
unfolding edited keep read_allowed_languages read_response_language
loaded_and_edited = refl

check_languages-Reached_example : check_languages edited.0 edited.1 ≡ ok edited.1
unfolding edited choose_default
check_languages-Reached_example = check_languages-Reached edited (
    check "en" false refl refl (
      choose "fr-BE" refl (
        load (some (str "en"))
          (some (arr (cons (str "en") (cons (str "nl") (cons (str "fr-FR") nil))))))))

abbrev lines : List ℕ
lines = codes "  call the owner \n\n\tsend a mail\n"

lines_read : parse_rules lines ≡ codes "call the owner" ∷ codes "send a mail" ∷ []
unfolding parse_rules entries keep
lines_read = refl

run-opened-IsShown_example :
    parse_rules (run (typed lines ∷ replaced [] ∷ []) (opened [])).text
    ≡ (run (typed lines ∷ replaced [] ∷ []) (opened [])).rules
unfolding parse_rules entries keep
run-opened-IsShown_example =
    run-opened-IsShown [] (typed lines ∷ replaced [] ∷ []) ([], refl) (([], refl), tt)

abbrev d : Details
d = record {
  is_configured = true;
  connection_name = some (codes "Office");
  pbx_host = some (codes "pbx.example");
  app_id = some (codes "app");
  route_point_dn = some (codes "900");
  dids = some (codes "+1" ∷ codes "+2" ∷ []);
  transfer_destinations = some (codes "100" ∷ []);
  failure_action = transferring;
  failure_destination = some (codes "100");
  error = none;
}

chosen : transferring ≢ unset
chosen = ground arith

abbrev empty_card : Card
empty_card = record {
  connection_name = codes "3CX PBX Connection";
  pbx_url = [];
  app_id = [];
  route_point_dn = [];
  client_secret = [];
  dids = [];
  transfer_destinations = [];
  failure_action = disconnecting;
  failure_destination = [];
  status = none;
  error = none;
  busy = false;
  phase = idle;
  sent = [];
}

payload_of-apply_status_example : payload_of (apply_status d empty_card) ≡ record {
  connection_name = codes "Office";
  pbx_url = https (codes "pbx.example");
  app_id = codes "app";
  route_point_dn = codes "900";
  client_secret = [];
  dids = codes "+1" ∷ codes "+2" ∷ [];
  transfer_destinations = codes "100" ∷ [];
  failure_action = transferring;
  failure_destination = some (codes "100");
}
payload_of-apply_status_example =
    payload_of-apply_status (codes "Office") (codes "pbx.example") (codes "app") (codes "900")
      (codes "100") (codes "+1" ∷ codes "+2" ∷ []) (codes "100" ∷ []) transferring d empty_card refl
      refl refl refl refl refl refl refl (refl, refl, refl) (refl, refl, refl) refl
      (refl, refl, refl)
      ((refl, refl, refl, (refl, (refl, tt))), ((refl, refl, refl, (refl, (refl, tt))), tt))
      ((refl, refl, refl, (refl, (refl, (refl, tt)))), tt) chosen

abbrev filled : Card
unfolding apply_status
filled = record (apply_status d empty_card) { client_secret = codes "secret" }

save-settled_example :
    let t : Card = load_answered load_refused (save_answered (some accepted) (save filled)) in
    (t.busy ≡ false)
    × (t.phase ≡ idle)
    × (t.client_secret ≡ [])
    × (t.sent ≡ payload_of filled ∷ [])
    × ((payload_of filled).client_secret ≡ filled.client_secret)
    × ((payload_of filled).app_id ≡ filled.app_id)
    × ((payload_of filled).failure_action ≡ filled.failure_action)
unfolding is_save_disabled filled keep
save-settled_example = save-settled (some accepted) load_refused filled refl
