-- ===== src/Vad.antt =====
-- The voice activity hook: frontend/src/hooks/useClientVAD.ts. The worklet posts the start and the
-- end of the user's speech; the hook decides whether that interrupts the assistant.
pub mod BargeIn
mod Tests
use ai_voice_assistants.Common.{
  ℕ, ◌+◌, Bool, true, false, Option, none, some, List, [], ◌∷◌, leb, if◌then◌else◌, is_some,
  or_else,
}

abbrev pub backchannel_threshold_ms : ℕ
backchannel_threshold_ms = 320

pub record Vad : Type 0 where
  -- the clock, in milliseconds
  pub now : ℕ
  pub is_bot_speaking : Bool
  -- whether there is a gain node, and whether its value is 1.0
  pub has_gain : Bool
  pub is_audible : Bool
  -- when the armed timer is due
  pub timer : Option ℕ
  -- how often the callbacks were called
  pub interruptions : ℕ
  pub speech_starts : ℕ
  pub speech_ends : ℕ
  -- since when the worklet has reported speech; the hook does not keep this
  pub speaking_since : Option ℕ

-- The hook as it is rendered with a gain node, whose value is 1.0, and with nobody speaking.
abbrev pub initial : Vad
initial = record {
  now = 0;
  is_bot_speaking = false;
  has_gain = true;
  is_audible = true;
  timer = none;
  interruptions = 0;
  speech_starts = 0;
  speech_ends = 0;
  speaking_since = none;
}

unfoldable pub clear_timer : Vad → Vad
clear_timer s = record s { timer = none }

unfoldable pub mute_gain : Vad → Vad
mute_gain s = if s.has_gain then record s { is_audible = false } else s

unfoldable pub unmute_gain : Vad → Vad
unmute_gain s = if s.has_gain then record s { is_audible = true } else s

-- The message "speech_start".
unfoldable pub speech_start : Vad → Vad
unfolding clear_timer
speech_start s =
    let s' = record s {
      speech_starts = s.speech_starts + 1;
      speaking_since = some (or_else s.speaking_since s.now);
    } in
    if s.is_bot_speaking
    then record (clear_timer s') { timer = some (s.now + backchannel_threshold_ms) }
    else s'

-- The message "speech_end".
unfoldable pub speech_end : Vad → Vad
unfolding clear_timer unmute_gain
speech_end s =
    let s' = record s { speech_ends = s.speech_ends + 1; speaking_since = none } in
    if is_some s.timer then clear_timer s' else unmute_gain s'

-- The callback of the timer, which runs only once the timer is due.
unfoldable pub timer_fired : Vad → Vad
unfolding mute_gain
timer_fired s = elim s.timer [
  | none ↦ s
  | some due ↦
      let s' = record (mute_gain s) { timer = none; interruptions = s.interruptions + 1 } in
      if leb due s.now then s' else s
]

-- The hook renders again with another value of `isBotSpeaking`, or time passes.
pub data Event : Type 0 where
  start end fire : Event
  bot : Bool → Event
  pass : ℕ → Event

unfoldable pub step : Event → Vad → Vad
unfolding speech_start speech_end timer_fired
step Event.start s = speech_start s
step Event.end s = speech_end s
step Event.fire s = timer_fired s
step (Event.bot speaks) s = record s { is_bot_speaking = speaks }
step (Event.pass ms) s = record s { now = s.now + ms }

unfoldable pub run : List Event → Vad → Vad
run [] s = s
run (e ∷ es) s = run es (step e s)

-- The effect's cleanup.
unfoldable pub cleanup : Vad → Vad
unfolding clear_timer
cleanup s = clear_timer s
