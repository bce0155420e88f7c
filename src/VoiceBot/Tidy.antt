-- ===== src/VoiceBot/Tidy.antt =====
-- No room of the mobile call is leaked, as long as the native audio of a call starts before the call
-- is ended or replaced; where it does not, the hook is left with a dead room.
use ai_voice_assistants.Common.{
  ℕ, ◌<◌, ◌≡◌, ◌≢◌, ◌⊎◌, Bool, true, Option, none, some, List, [], ◌∷◌, arith, contains,
}
use ai_voice_assistants.Common.Json.{Json}
use ai_voice_assistants.VoiceBot.Packets.{Packet}
use ai_voice_assistants.VoiceBot.State.{Phase, Call, initial}
use ai_voice_assistants.VoiceBot.Calls.{
  initiate_call, end_call, end_settled, token_received, audio_started, room_joined, microphone_set,
  call_threw, failure_settled,
}
use ai_voice_assistants.VoiceBot.Room.{
  room_reconnecting, room_reconnected, track_subscribed, track_unsubscribed,
  active_speakers_changed, data_received, room_disconnected,
}
use ai_voice_assistants.VoiceBot.Controls.{
  toggle_mute, mute_failed, toggle_speakerphone, speakerphone_failed, interrupt, interrupt_ended,
  poll_levels, unmount,
}
use ai_voice_assistants.VoiceBot.Events.{Event, step, run}

-- The room is the current one, or it has been closed.
abbrev pub IsAccounted : ℕ → Call → Type 0
IsAccounted r s = (s.room ≡ some r) ⊎ (contains s.closed r ≡ true)

pub record IsTidy (s : Call) : Type 0 where
  pub used : (g : ℕ) → s.generation < g → s.phase g ≡ Phase.unused
  pub preparing : s.phase s.generation ≡ Phase.preparing → s.room ≡ none
  pub fetching : s.phase s.generation ≡ Phase.fetching → s.room ≡ none
  pub joining :
      (r : ℕ) → s.phase s.generation ≡ Phase.joining r → (s.room ≡ none) ⊎ (s.room ≡ some r)
  pub publishing :
      (r : ℕ) → s.phase s.generation ≡ Phase.publishing r → (s.room ≡ none) ⊎ (s.room ≡ some r)
  pub covered : (r : ℕ) → contains s.opened r ≡ true → IsAccounted r s

-- The native audio has started for the call that is still the current one.
abbrev pub IsTimely : Event → Call → Type 0
IsTimely (Event.audio_ready g) s = g ≡ s.generation
IsTimely e s = Unit

abbrev pub AllTimely : List Event → Call → Type 0
AllTimely [] s = Unit
AllTimely (e ∷ es) s = IsTimely e s × AllTimely es (step e s)

module _ {s : Call} (v : IsTidy s) where
  initiate_call-IsTidy : IsTidy (initiate_call s)
  unfolding initiate_call
  initiate_call-IsTidy = grind arith

  end_call-IsTidy : IsTidy (end_call s)
  unfolding end_call
  end_call-IsTidy = grind arith

  end_settled-IsTidy : IsTidy (end_settled s)
  unfolding end_settled
  end_settled-IsTidy = grind arith

  token_received-IsTidy : (g : ℕ) → IsTidy (token_received g s)
  unfolding token_received
  token_received-IsTidy g = grind arith

  audio_started-IsTidy : (g : ℕ) → g ≡ s.generation → IsTidy (audio_started g s)
  unfolding audio_started
  audio_started-IsTidy g now = grind arith

  room_joined-IsTidy : (g : ℕ) → IsTidy (room_joined g s)
  unfolding room_joined
  room_joined-IsTidy g = grind arith

  microphone_set-IsTidy : (g : ℕ) → IsTidy (microphone_set g s)
  unfolding microphone_set
  microphone_set-IsTidy g = grind arith

  call_threw-IsTidy : (g : ℕ) (thrown : Json) → IsTidy (call_threw g thrown s)
  unfolding call_threw
  call_threw-IsTidy g thrown = grind arith

  failure_settled-IsTidy : (g : ℕ) → IsTidy (failure_settled g s)
  unfolding failure_settled
  failure_settled-IsTidy g = grind arith

  room_reconnecting-IsTidy : (g r : ℕ) → IsTidy (room_reconnecting g r s)
  unfolding room_reconnecting
  room_reconnecting-IsTidy g r = grind arith

  room_reconnected-IsTidy : (g r : ℕ) → IsTidy (room_reconnected g r s)
  unfolding room_reconnected
  room_reconnected-IsTidy g r = grind arith

  track_subscribed-IsTidy : (g r : ℕ) → IsTidy (track_subscribed g r s)
  unfolding track_subscribed
  track_subscribed-IsTidy g r = grind arith

  track_unsubscribed-IsTidy : (g r : ℕ) (b : Bool) → IsTidy (track_unsubscribed g r b s)
  unfolding track_unsubscribed
  track_unsubscribed-IsTidy g r b = grind arith

  active_speakers_changed-IsTidy : (g r : ℕ) (b : Bool) → IsTidy (active_speakers_changed g r b s)
  unfolding active_speakers_changed
  active_speakers_changed-IsTidy g r b = grind arith

  data_received-IsTidy : (g r : ℕ) (p : Option Packet) → IsTidy (data_received g r p s)
  unfolding data_received
  data_received-IsTidy g r p = grind arith

  room_disconnected-IsTidy : (g r : ℕ) → IsTidy (room_disconnected g r s)
  unfolding room_disconnected
  room_disconnected-IsTidy g r = grind arith

  toggle_mute-IsTidy : IsTidy (toggle_mute s)
  unfolding toggle_mute
  toggle_mute-IsTidy = grind arith

  mute_failed-IsTidy : (b : Bool) (thrown : Json) → IsTidy (mute_failed b thrown s)
  unfolding mute_failed
  mute_failed-IsTidy b thrown = grind arith

  toggle_speakerphone-IsTidy : IsTidy (toggle_speakerphone s)
  unfolding toggle_speakerphone
  toggle_speakerphone-IsTidy = grind arith

  speakerphone_failed-IsTidy : (b : Bool) (thrown : Json) → IsTidy (speakerphone_failed b thrown s)
  unfolding speakerphone_failed
  speakerphone_failed-IsTidy b thrown = grind arith

  interrupt-IsTidy : (b : Bool) → IsTidy (interrupt b s).0
  unfolding interrupt
  interrupt-IsTidy b = grind arith

  interrupt_ended-IsTidy : (r : ℕ) (b : Bool) → IsTidy (interrupt_ended r b s)
  unfolding interrupt_ended
  interrupt_ended-IsTidy r b = grind arith

  poll_levels-IsTidy : (m n : ℕ) → IsTidy (poll_levels m n s)
  unfolding poll_levels
  poll_levels-IsTidy m n = grind arith

  unmount-IsTidy : IsTidy (unmount s)
  unfolding unmount
  unmount-IsTidy = grind arith

  step-IsTidy : (e : Event) → IsTimely e s → IsTidy (step e s)
  unfolding step
  step-IsTidy Event.initiate_called ok = initiate_call-IsTidy
  step-IsTidy Event.end_called ok = end_call-IsTidy
  step-IsTidy Event.end_finished ok = end_settled-IsTidy
  step-IsTidy (Event.token_arrived g) ok = token_received-IsTidy g
  step-IsTidy (Event.audio_ready g) ok = audio_started-IsTidy g ok
  step-IsTidy (Event.joined g) ok = room_joined-IsTidy g
  step-IsTidy (Event.microphone g) ok = microphone_set-IsTidy g
  step-IsTidy (Event.threw g thrown) ok = call_threw-IsTidy g thrown
  step-IsTidy (Event.failure_finished g) ok = failure_settled-IsTidy g
  step-IsTidy (Event.reconnecting g r) ok = room_reconnecting-IsTidy g r
  step-IsTidy (Event.reconnected g r) ok = room_reconnected-IsTidy g r
  step-IsTidy (Event.subscribed g r) ok = track_subscribed-IsTidy g r
  step-IsTidy (Event.unsubscribed g r b) ok = track_unsubscribed-IsTidy g r b
  step-IsTidy (Event.speakers g r b) ok = active_speakers_changed-IsTidy g r b
  step-IsTidy (Event.packet g r p) ok = data_received-IsTidy g r p
  step-IsTidy (Event.room_left g r) ok = room_disconnected-IsTidy g r
  step-IsTidy Event.mute_toggled ok = toggle_mute-IsTidy
  step-IsTidy (Event.mute_threw b thrown) ok = mute_failed-IsTidy b thrown
  step-IsTidy Event.speaker_toggled ok = toggle_speakerphone-IsTidy
  step-IsTidy (Event.speaker_threw b thrown) ok = speakerphone_failed-IsTidy b thrown
  step-IsTidy (Event.interrupt_called b) ok = interrupt-IsTidy b
  step-IsTidy (Event.interrupt_timer r b) ok = interrupt_ended-IsTidy r b
  step-IsTidy (Event.levels m n) ok = poll_levels-IsTidy m n
  step-IsTidy Event.unmounted ok = unmount-IsTidy

run-IsTidy : (es : List Event) {s : Call} → AllTimely es s → IsTidy s → IsTidy (run es s)
unfolding run
run-IsTidy [] ok v = v
run-IsTidy (e ∷ es) (ok, oks) v = run-IsTidy es oks (step-IsTidy v e ok)

-- If the native audio of a call always starts while the call is the current one, then after any
-- events every room that the hook has made is the current room, or was told to disconnect, or has
-- said that it had.
pub run_timely-IsAccounted :
    (es : List Event) (r : ℕ)
    → AllTimely es initial
    → contains (run es initial).opened r ≡ true
    → IsAccounted r (run es initial)
run_timely-IsAccounted es r ok h = (run-IsTidy es ok (ground arith)).covered r h

-- If a call is ended or replaced while its native audio starts, the room that it still makes becomes
-- the hook's room; when that room is joined it is told to disconnect, but it is still the hook's room, and
-- its report that it has disconnected changes nothing; in this state a call of `initiateCall` returns
-- without doing anything.
pub stale_audio-blocks_calls :
    (s : Call) (g : ℕ)
    → s.phase g ≡ Phase.preparing
    → g ≢ s.generation
    → ((room_joined g (audio_started g s)).room ≡ some s.next)
      × (contains (room_joined g (audio_started g s)).closed s.next ≡ true)
      × (room_disconnected g s.next (room_joined g (audio_started g s))
          ≡ room_joined g (audio_started g s))
      × (initiate_call (room_joined g (audio_started g s)) ≡ room_joined g (audio_started g s))
unfolding audio_started room_joined initiate_call room_disconnected
stale_audio-blocks_calls s g p h = ground arith
