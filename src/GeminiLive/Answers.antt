-- ===== src/GeminiLive/Answers.antt =====
-- A tool call of the model from its arrival to its answer, and what a mute and a reconnection do, in
-- frontend/src/hooks/useGeminiLiveSession.ts.
use ai_voice_assistants.Common.{
  ℕ, ◌≤◌, ◌≡◌, Option, none, some, List, [], ◌∷◌, arith, if◌then◌else◌,
}
use ai_voice_assistants.Common.Json.{Json}
use ai_voice_assistants.Policy.Turns.{is_allowed_calendar_tool}
use ai_voice_assistants.GeminiLive.State.{Session, Task, TaskStatus}
use ai_voice_assistants.GeminiLive.Calls.{FunctionCall, denied}
use ai_voice_assistants.GeminiLive.Playback.{schedule}
use ai_voice_assistants.GeminiLive.Connect.{disconnect, token_received}

-- What the model is told of a call: the refusal, or what the backend answered.
abbrev pub result_of : FunctionCall → Json → Json
result_of call backend = if is_allowed_calendar_tool call.name then backend else denied

-- The status that the first task of a list shows.
abbrev pub first_status : List Task → Option TaskStatus
first_status [] = none
first_status (t ∷ ts) = some t.status

-- The next audio time is kept over a disconnection, while the clock of a new audio context begins
-- anew: the first chunk of the next session waits until the time at which the last session's audio
-- would have ended.
pub disconnect-schedule :
    (now samples : ℕ) (s : Session)
    → now ≤ s.next_play_time
    → (schedule now samples (token_received (disconnect s))).chunks
      ≡ record { start = s.next_play_time; samples = samples } ∷ s.chunks
unfolding token_received disconnect
disconnect-schedule now samples s h = ground arith
