-- ===== src/Vad/BargeIn.antt =====
-- Barge-in and backchannels: only speech that lasts interrupts, and the assistant is heard again.
use ai_voice_assistants.Common.{
  ℕ, ◌+◌, ◌≤◌, ◌<◌, ◌≡◌, ◌≢◌, Option-cases, inl, inr, true, false, none, some, List, [], ◌∷◌, arith,
  is_some,
}
use ai_voice_assistants.Vad.{Vad, initial, backchannel_threshold_ms, timer_fired, Event, step, run}

-- An armed timer belongs to speech that is still going on, and is due a threshold after its start.
pub record IsArmed (s : Vad) : Type 0 where
  pub speaking : (due : ℕ) → s.timer ≡ some due → is_some s.speaking_since ≡ true
  pub late :
      (due since : ℕ)
      → s.timer ≡ some due
      → s.speaking_since ≡ some since
      → since + backchannel_threshold_ms ≤ due
  pub past : (since : ℕ) → s.speaking_since ≡ some since → since ≤ s.now

step-IsArmed : (e : Event) {s : Vad} → IsArmed s → IsArmed (step e s)
unfolding step
step-IsArmed Event.start v = grind arith
step-IsArmed Event.end v = grind arith
step-IsArmed Event.fire v = grind arith
step-IsArmed (Event.bot b) v = grind arith
step-IsArmed (Event.pass ms) v = grind arith

run-IsArmed : (es : List Event) {s : Vad} → IsArmed s → IsArmed (run es s)
unfolding run
run-IsArmed [] v = v
run-IsArmed (e ∷ es) v = run-IsArmed es (step-IsArmed e v)

-- The user has been speaking for at least the threshold.
abbrev pub HasSpokenLong : Vad → Type 0
HasSpokenLong s =
    (since : ℕ) × (s.speaking_since ≡ some since) × (since + backchannel_threshold_ms ≤ s.now)

timer_fired-interrupts :
    {s : Vad} → IsArmed s → (timer_fired s).interruptions ≢ s.interruptions → HasSpokenLong s
unfolding timer_fired
timer_fired-interrupts {s} v h = elim (Option-cases s.timer) [
  | inl unarmed ↦ ground arith
  | inr (due, armed) ↦ elim (Option-cases s.speaking_since) [
    | inl silent ↦ ground (arith, v.speaking due armed)
    | inr (since, speaks) ↦ (since, speaks, ground (arith, v.late due since armed speaks))
  ]
]

-- The assistant is interrupted only when the timer fires while the user has been speaking for at
-- least 320 ms, whatever came before: a shorter backchannel never interrupts.
pub run-interrupts :
    (es : List Event) (e : Event)
    → (step e (run es initial)).interruptions ≢ (run es initial).interruptions
    → HasSpokenLong (run es initial)
unfolding step
run-interrupts es Event.start h = ground arith
run-interrupts es Event.end h = ground arith
run-interrupts es Event.fire h = timer_fired-interrupts (run-IsArmed es (ground arith)) h
run-interrupts es e h = ground arith

-- The worklet reports starts and ends of speech in turn.
abbrev pub Alternates : Event → Vad → Type 0
Alternates Event.start s = s.speaking_since ≡ none
Alternates Event.end s = is_some s.speaking_since ≡ true
Alternates e s = Unit

abbrev pub AllAlternate : List Event → Vad → Type 0
AllAlternate [] s = Unit
AllAlternate (e ∷ es) s = Alternates e s × AllAlternate es (step e s)

-- A muted assistant is one that the user still speaks over.
pub record IsHeard (s : Vad) : Type 0 where
  pub waits : (due : ℕ) → s.timer ≡ some due → s.is_audible ≡ true
  pub over : s.is_audible ≡ false → is_some s.speaking_since ≡ true
  pub gain : s.has_gain ≡ true

step-IsHeard : (e : Event) {s : Vad} → Alternates e s → IsArmed s → IsHeard s → IsHeard (step e s)
unfolding step
step-IsHeard Event.start a v h = grind arith
step-IsHeard Event.end a v h = grind arith
step-IsHeard Event.fire a v h = grind arith
step-IsHeard (Event.bot b) a v h = grind arith
step-IsHeard (Event.pass ms) a v h = grind arith

run-IsHeard :
    (es : List Event) {s : Vad} → AllAlternate es s → IsArmed s → IsHeard s → IsHeard (run es s)
unfolding run
run-IsHeard [] ok v h = h
run-IsHeard (e ∷ es) (a, rest) v h = run-IsHeard es rest (step-IsArmed e v) (step-IsHeard e a v h)

-- If the worklet reports starts and ends in turn, the assistant is audible whenever the user is
-- silent, and as long as the timer of a possible interruption runs.
pub run-IsAudible :
    (es : List Event)
    → AllAlternate es initial
    → ((run es initial).speaking_since ≡ none → (run es initial).is_audible ≡ true)
      × ((due : ℕ) → (run es initial).timer ≡ some due → (run es initial).is_audible ≡ true)
run-IsAudible es ok =
    let h = run-IsHeard es ok (ground arith) (ground arith) in
    (λ silent. ground (arith, h.over), h.waits)

-- Speech over a speaking assistant that ends before the threshold leaves the gain as it was and
-- interrupts nobody; if it lasts, the timer mutes the gain and interrupts once, and the end of the
-- speech restores the gain.
pub speech_outcomes :
    (s : Vad) (ms : ℕ)
    → s.is_bot_speaking ≡ true
    → s.has_gain ≡ true
    → (ms < backchannel_threshold_ms
        → ((run (Event.start ∷ Event.pass ms ∷ Event.fire ∷ Event.end ∷ []) s).is_audible
            ≡ s.is_audible)
          × ((run (Event.start ∷ Event.pass ms ∷ Event.fire ∷ Event.end ∷ []) s).interruptions
              ≡ s.interruptions))
      × (backchannel_threshold_ms ≤ ms
          → ((run (Event.start ∷ Event.pass ms ∷ Event.fire ∷ []) s).is_audible ≡ false)
            × ((run (Event.start ∷ Event.pass ms ∷ Event.fire ∷ []) s).interruptions
                ≡ s.interruptions + 1)
            × ((run (Event.start ∷ Event.pass ms ∷ Event.fire ∷ Event.end ∷ []) s).is_audible
                ≡ true))
unfolding run step
speech_outcomes s ms b g = (λ h. ground arith, λ h. ground arith)
