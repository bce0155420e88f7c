-- ===== src/Vad/Tests.antt =====
-- The theorems on frontend/src/hooks/useClientVAD.ts at concrete inputs.
use ai_voice_assistants.Common.{ℕ, ◌≡◌, ◌≢◌, refl, true, none, some, List, [], ◌∷◌, arith}
use ai_voice_assistants.Vad.{
  Vad, Event, initial, step, run, speech_start, timer_fired, clear_timer, mute_gain,
}
use ai_voice_assistants.Vad.BargeIn.{HasSpokenLong, AllAlternate, run-interrupts, run-IsAudible}

-- The user speaks over the assistant for 400 ms.
abbrev spoken : List Event
spoken = Event.bot true ∷ Event.start ∷ Event.pass 400 ∷ []

spoken-interrupts :
    (step Event.fire (run spoken initial)).interruptions ≢ (run spoken initial).interruptions
unfolding run step speech_start timer_fired clear_timer mute_gain
spoken-interrupts = ground arith

run-interrupts_example : HasSpokenLong (run spoken initial)
run-interrupts_example = run-interrupts spoken Event.fire spoken-interrupts

spoken-alternates : AllAlternate spoken initial
unfolding step
spoken-alternates = (tt, (refl, (tt, tt)))

run-IsAudible_example :
    ((run spoken initial).speaking_since ≡ none → (run spoken initial).is_audible ≡ true)
    × ((due : ℕ) → (run spoken initial).timer ≡ some due → (run spoken initial).is_audible ≡ true)
run-IsAudible_example = run-IsAudible spoken spoken-alternates

abbrev speaking : Vad
speaking = record initial { is_bot_speaking = true }
