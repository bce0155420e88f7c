-- ===== src/VoiceBot/Interrupt.antt =====
-- The controls of the mobile call, in every state.
use ai_voice_assistants.Common.{ℕ, ◌≡◌, ◌≢◌, ◌↔◌, Bool, true, false, some, ◌∷◌, arith, is_some}
use ai_voice_assistants.Common.Json.{Json}
use ai_voice_assistants.VoiceBot.State.{Call, to_error}
use ai_voice_assistants.VoiceBot.Controls.{
  toggle_mute, mute_failed, toggle_speakerphone, speakerphone_failed, InterruptResult, interrupt,
}

-- An interruption succeeds exactly when the microphone is on, the assistant is speaking, and the
-- call has a connected room; then the cancellation goes to that room and the user has the floor.
-- Otherwise nothing changes.
pub interrupt_iff :
    (s : Call) (connected : Bool)
    → (((interrupt connected s).1 ≡ InterruptResult.interrupted) ↔ (
        (s.is_muted ≡ false)
        × (s.is_bot_speaking ≡ true)
        × (is_some s.room ≡ true)
        × (connected ≡ true)))
      × ((r : ℕ)
          → s.room ≡ some r
          → (interrupt connected s).1 ≡ InterruptResult.interrupted
          → ((interrupt connected s).0.cancels ≡ r ∷ s.cancels)
            × ((interrupt connected s).0.is_user_speaking ≡ true)
            × ((interrupt connected s).0.is_bot_speaking ≡ false))
      × ((interrupt connected s).1 ≢ InterruptResult.interrupted → (interrupt connected s).0 ≡ s)
unfolding interrupt
interrupt_iff s connected = (
  (λ h. ground arith, λ h. ground arith),
  λ r e h. (ground arith, ground arith, ground arith),
  λ h. ground arith,
)

-- A toggle of the microphone or of the loudspeaker that the platform refuses is taken back, and the
-- reason is kept; the platform's choice of output and the microphone never change together.
pub toggles_failed :
    (s : Call) (thrown : Json)
    → ((mute_failed s.is_muted thrown (toggle_mute s)).is_muted ≡ s.is_muted)
      × ((mute_failed s.is_muted thrown (toggle_mute s)).error ≡ some (to_error thrown))
      × ((toggle_mute s).is_speakerphone_on ≡ s.is_speakerphone_on)
      × (speakerphone_failed s.is_speakerphone_on thrown (toggle_speakerphone s)
          ≡ record s { error = some (to_error thrown) })
unfolding mute_failed toggle_mute speakerphone_failed toggle_speakerphone
toggles_failed s thrown = ground arith
