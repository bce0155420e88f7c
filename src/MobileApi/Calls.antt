-- ===== src/MobileApi/Calls.antt =====
-- A record of the call history: `getCallHistory` of mobile/src/services/api.ts. A time is its
-- milliseconds, or `none` where the date is invalid.
use ai_voice_assistants.Common.{ℕ, ◌-◌, ◌/◌, ◌%◌, ◌||◌, Option, some, if◌then◌else◌}
use ai_voice_assistants.Common.Json.{Json, str, or_json, is_text}

-- `ended`: the end of the call, or of its last update; `none` where it has neither.
unfoldable pub duration_seconds : Option ℕ → Option (Option ℕ) → ℕ
duration_seconds (some start) (some (some ended)) = (ended - start) / 1000
duration_seconds _ _ = 0

-- The parts of the text `12m 05s`.
pub record Duration : Type 0 where
  pub minutes : ℕ
  pub tens : ℕ
  pub ones : ℕ

unfoldable pub duration : ℕ → Duration
duration seconds = record {
  minutes = seconds / 60;
  tens = seconds % 60 / 10;
  ones = seconds % 60 % 10;
}

pub data CallStatus : Type 0 where
  ended failed ringing active : CallStatus

unfoldable pub status : Option Json → CallStatus
status state =
    if is_text state "ended" || is_text state "completed"
    then ended
    else if is_text state "failed"
    then failed
    else if is_text state "ringing"
    then ringing
    else active

unfoldable pub listed_state : Option Json → Json
listed_state state = or_json state (str "ended")
