-- ===== src/VoiceBot/Controls.antt =====
-- The controls of mobile/src/hooks/useVoiceBot.ts: mute, speakerphone, interruption, audio levels, and
-- the end of the component.
use ai_voice_assistants.Common.{
  ℕ, ◌+◌, Bool, true, false, not, ◌&&◌, Option, none, some, ◌∷◌, if◌then◌else◌, holds, is_some,
}
use ai_voice_assistants.Common.Json.{Json}
use ai_voice_assistants.VoiceBot.State.{Status, to_error, Call, close_if}

-- `toggleMute` up to its await, and its `catch` block with the value that it holds on to.
unfoldable pub toggle_mute : Call → Call
toggle_mute s =
    let s' = record s { is_muted = not s.is_muted } in
    if s'.is_muted then record s' { local_audio_level = 0 } else s'

unfoldable pub mute_failed : Bool → Json → Call → Call
mute_failed previous thrown s = record s { is_muted = previous; error = some (to_error thrown) }

unfoldable pub toggle_speakerphone : Call → Call
toggle_speakerphone s = record s { is_speakerphone_on = not s.is_speakerphone_on }

unfoldable pub speakerphone_failed : Bool → Json → Call → Call
speakerphone_failed previous thrown s = record s {
  is_speakerphone_on = previous;
  error = some (to_error thrown);
}

pub data InterruptResult : Type 0 where
  muted bot_not_speaking disconnected interrupted : InterruptResult

abbrev start_interrupt : Option ℕ → Bool → Call → Call × InterruptResult
start_interrupt none is_connected s = (s, InterruptResult.disconnected)
start_interrupt (some room) is_connected s =
    if is_connected
    then (
      record s { is_user_speaking = true; is_bot_speaking = false; cancels = room ∷ s.cancels },
      InterruptResult.interrupted,
    )
    else (s, InterruptResult.disconnected)

-- `is_connected`: whether the state of the current room is "connected".
unfoldable pub interrupt : Bool → Call → Call × InterruptResult
interrupt is_connected s =
    if s.is_muted
    then (s, InterruptResult.muted)
    else if not s.is_bot_speaking
    then (s, InterruptResult.bot_not_speaking)
    else start_interrupt s.room is_connected s

-- The timer of `interrupt`, 350 ms later, with the room that it holds on to.
unfoldable pub interrupt_ended : ℕ → Bool → Call → Call
interrupt_ended room agent_speaks s =
    let s' = record s { is_user_speaking = false } in
    if holds s'.room room then record s' { is_bot_speaking = agent_speaks } else s'

-- Whether the effect that polls the levels runs.
abbrev pub polls : Status → Bool
polls Status.connected = true
polls Status.waiting_for_agent = true
polls Status.reconnecting = true
polls _ = false

-- The levels are percentages.
unfoldable pub poll_levels : ℕ → ℕ → Call → Call
poll_levels local remote s =
    if is_some s.room && polls s.status
    then record s {
      local_audio_level = if s.is_muted then 0 else local;
      remote_audio_level = remote;
    }
    else s

-- The effect's cleanup, when the component unmounts.
unfoldable pub unmount : Call → Call
unmount s = close_if s.room (record s {
  generation = s.generation + 1;
  intentional_disconnect = true;
  room = none;
  native_audio = false;
})
