-- ===== src/Policy/Tests.antt =====
-- The theorems on the policy of the assistant at concrete inputs, with patterns that match a text
-- that is the pattern.
use ai_voice_assistants.Common.{
  ℕ, ◌≡◌, ◌≤◌, ◌⊎◌, refl, String, Bool, true, false, some, List, [], ◌∷◌, length, ◌==◌, ◌&&◌,
}
use ai_voice_assistants.Common.Json.{Json, obj, end, field, str}
use ai_voice_assistants.Common.Text.{codes, trim}
use ai_voice_assistants.Policy.Turns.{Patterns, matches}
use ai_voice_assistants.Policy.Tools.{stable_key, get}
use ai_voice_assistants.Policy.Logging.{
  is_type_name, log_safe_failure, Level, log_safe_failure-is_type_name,
}

abbrev same_text : List ℕ → List ℕ → Bool
same_text [] [] = true
same_text (a ∷ s) (b ∷ t) = (a == b) && same_text s t
same_text _ _ = false

abbrev test : String → List ℕ → Bool
test pattern text = same_text (codes pattern) text

abbrev patterns : Patterns
patterns = record {
  hard_diversion = "joke" ∷ [];
  off_topic = "weather" ∷ [];
  calendar_intent = "book" ∷ [];
  social = "hi" ∷ [];
  calendar_follow_up = "yes" ∷ [];
  unclear = [];
  unsupported_language = [];
}

abbrev as_is : List ℕ → List ℕ
as_is s = s

joke-matches : matches patterns test patterns.hard_diversion (as_is (trim (codes "joke"))) ≡ true
unfolding trim
joke-matches = refl

abbrev booked : Json
booked = obj (field "status" (str "success") end)

new-key : (stable_key "book_event" "a" "u1" []).0 ≡ some "u1"
unfolding stable_key get
new-key = refl

log_safe_failure-is_type_name_example :
    (is_type_name (log_safe_failure (codes "l") (some (codes "a secret")) Level.error).error_type
      ≡ true)
    × (length (log_safe_failure (codes "l") (some (codes "a secret")) Level.error).error_type ≤ 64)
    × ((name : List ℕ)
        → some (codes "a secret") ≡ some name
        → ((log_safe_failure (codes "l") (some (codes "a secret")) Level.error).error_type ≡ name)
          ⊎ ((is_type_name name ≡ false)
              × ((log_safe_failure (codes "l") (some (codes "a secret")) Level.error).error_type
                  ≡ codes "Error")))
log_safe_failure-is_type_name_example =
    log_safe_failure-is_type_name (codes "l") (some (codes "a secret")) Level.error
