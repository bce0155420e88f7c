-- ===== src/Policy/Turns.antt =====
-- frontend/src/lib/assistantPolicy.ts. The patterns of assistantPolicy.json are compiled to regular
-- expressions that ignore case; whether an expression matches a text is the parameter `test`, and
-- `toLowerCase` is the parameter `to_lower`.
use ai_voice_assistants.Common.{
  ℕ, String, Bool, true, false, ◌&&◌, List, [], ◌∷◌, any, if◌then◌else◌, str_eq,
}
use ai_voice_assistants.Common.Text.{trim}

pub data Action : Type 0 where
  allow clarify redirect : Action

pub data Reason : Type 0 where
  calendar_intent calendar_follow_up social hard_diversion off_topic unsupported_language : Reason
  unclear_input empty_input : Reason

pub record Decision : Type 0 where
  pub action : Action
  pub reason : Reason
  pub context_active : Bool

pub record Patterns : Type 0 where
  pub hard_diversion : List String
  pub off_topic : List String
  pub calendar_intent : List String
  pub social : List String
  pub calendar_follow_up : List String
  pub unclear : List String
  pub unsupported_language : List String

-- `allowedTools` of assistantPolicy.json.
abbrev pub allowed_tools : List String
allowed_tools = "get_calendar_availability" ∷ "list_events" ∷ "book_event" ∷ "cancel_event" ∷ []

unfoldable pub is_allowed_calendar_tool : String → Bool
is_allowed_calendar_tool name = any (λ tool. str_eq tool name) allowed_tools

abbrev decide : Action → Reason → Bool → Decision
decide action reason active = record { action = action; reason = reason; context_active = active }

module _ (patterns : Patterns) (test : String → List ℕ → Bool) where
  abbrev pub matches : List String → List ℕ → Bool
  matches expressions text = any (λ e. test e text) expressions

  -- The decision on a text that is not empty.
  unfoldable pub classify_text : List ℕ → Bool → Decision
  classify_text text active =
      if matches patterns.unclear text
      then decide Action.clarify Reason.unclear_input active
      else if matches patterns.unsupported_language text
      then decide Action.clarify Reason.unsupported_language active
      else if matches patterns.hard_diversion text
      then decide Action.redirect Reason.hard_diversion false
      else if matches patterns.off_topic text
      then decide Action.redirect Reason.off_topic false
      else if matches patterns.calendar_intent text
      then decide Action.allow Reason.calendar_intent true
      else if matches patterns.social text
      then decide Action.allow Reason.social active
      else if active && matches patterns.calendar_follow_up text
      then decide Action.allow Reason.calendar_follow_up true
      else decide Action.redirect Reason.off_topic false

  unfoldable pub classify_trimmed : List ℕ → Bool → Decision
  unfolding classify_text
  classify_trimmed [] active = decide Action.clarify Reason.empty_input active
  classify_trimmed (c ∷ text) active = classify_text (c ∷ text) active

  unfoldable pub classify_assistant_turn : (List ℕ → List ℕ) → List ℕ → Bool → Decision
  unfolding classify_trimmed
  classify_assistant_turn to_lower input active = classify_trimmed (to_lower (trim input)) active
