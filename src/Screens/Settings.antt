-- ===== src/Screens/Settings.antt =====
-- The settings of the company and the assistant: mobile/src/screens/SettingsScreen.tsx, with the
-- fields that its handlers test or change. The saves are cut at their awaits.
use ai_voice_assistants.Common.{
  ℕ, zero, suc, ◌+◌, Bool, true, false, not, Option, none, some, List, [], ◌∷◌, ◌++◌, if◌then◌else◌,
  leb, length,
}
use ai_voice_assistants.Common.Text.{trim}
use ai_voice_assistants.Workspace.Lines.{entries, is_full}
use ai_voice_assistants.Workspace.Rules.{newline}

pub record FaqEntry : Type 0 where
  pub question : List ℕ
  pub answer : List ℕ

pub data Field : Type 0 where
  question answer : Field

pub data Message : Type 0 where
  company_saved company_refused : Message
  published drafted : Message
  not_saved : Message

-- A save that is sent: the rules and the questions, and whether it publishes.
pub record Sent : Type 0 where
  pub rules : List (List ℕ)
  pub faq_entries : List FaqEntry
  pub is_deployed : Bool

pub record Settings : Type 0 where
  pub company_name : List ℕ
  pub is_company_saving : Bool
  pub company_message : Option Message
  pub assistant_name : List ℕ
  pub escalation_rules : List (List ℕ)
  pub faq_entries : List FaqEntry
  pub escalation_input : List ℕ
  pub published_version : Option ℕ
  pub is_assistant_saving : Bool
  pub assistant_message : Option Message
  pub alert : Bool
  pub sent : List Sent

unfoldable pub handle_save_company : Settings → Settings
unfolding trim
handle_save_company s =
    if not (is_full (trim s.company_name))
    then record s { alert = true }
    else record s { is_company_saving = true; company_message = none }

-- `success`: what `saveCompanyProfile` returns.
unfoldable pub company_saved_answered : Bool → Settings → Settings
company_saved_answered success s = record s {
  company_message = some (if success then company_saved else company_refused);
  is_company_saving = false;
}

abbrev pub rules_of : List ℕ → List (List ℕ)
rules_of text = entries newline text

unfoldable pub handle_save_assistant : Bool → Settings → Settings
unfolding trim entries
handle_save_assistant deploy s =
    if not (is_full (trim s.assistant_name)) then record s { alert = true } else record s {
      is_assistant_saving = true;
      assistant_message = none;
      sent =
          record {
            rules = rules_of s.escalation_input;
            faq_entries = s.faq_entries;
            is_deployed = deploy;
          }
          ∷ s.sent;
    }

-- `version || (publishedVersion ? publishedVersion + 1 : 1)`.
abbrev next_version : Option ℕ → ℕ
next_version none = 1
next_version (some zero) = 1
next_version (some (suc n)) = suc n + 1

abbrev version_of : Option ℕ → Option ℕ → ℕ
version_of none shown = next_version shown
version_of (some zero) shown = next_version shown
version_of (some (suc n)) shown = suc n

-- `shown`: the version that was published when the save began; `none` for the result is a save
-- that fails.
unfoldable pub assistant_saved : Bool → Option ℕ → Option (Option ℕ) → Settings → Settings
assistant_saved deploy shown none s = record s {
  assistant_message = some not_saved;
  is_assistant_saving = false;
}
assistant_saved true shown (some version) s = record s {
  published_version = some (version_of version shown);
  assistant_message = some published;
  is_assistant_saving = false;
}
assistant_saved false shown (some version) s = record s {
  assistant_message = some drafted;
  is_assistant_saving = false;
}

unfoldable pub handle_add_faq : Settings → Settings
handle_add_faq s =
    if leb 20 (length s.faq_entries)
    then record s { alert = true }
    else record s { faq_entries = s.faq_entries ++ record { question = []; answer = [] } ∷ [] }

abbrev pub set_field : Field → List ℕ → FaqEntry → FaqEntry
set_field question value e = record e { question = value }
set_field answer value e = record e { answer = value }

-- The entry of an index that is shown.
unfoldable pub update_at : ℕ → Field → List ℕ → List FaqEntry → List FaqEntry
update_at i part value [] = []
update_at zero part value (e ∷ es) = set_field part value e ∷ es
update_at (suc i) part value (e ∷ es) = e ∷ update_at i part value es

unfoldable pub handle_update_faq : ℕ → Field → List ℕ → Settings → Settings
unfolding update_at
handle_update_faq i part value s = record s { faq_entries = update_at i part value s.faq_entries }

unfoldable pub remove_at : ℕ → List FaqEntry → List FaqEntry
remove_at i [] = []
remove_at zero (e ∷ es) = es
remove_at (suc i) (e ∷ es) = e ∷ remove_at i es

unfoldable pub handle_remove_faq : ℕ → Settings → Settings
unfolding remove_at
handle_remove_faq i s = record s { faq_entries = remove_at i s.faq_entries }
