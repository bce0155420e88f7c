-- ===== src/VoiceBot/Room.antt =====
-- The room events of mobile/src/hooks/useVoiceBot.ts. Each carries the generation and the room that
-- its handler's closure holds.
use ai_voice_assistants.Common.{
  ℕ, Bool, true, false, not, ◌||◌, Option, none, some, [], ◌∷◌, ◌++◌, if◌then◌else◌,
}
use ai_voice_assistants.VoiceBot.State.{
  Status, unexpected_end, Call, update, clear_session_state, close, is_current, audio_status,
}
use ai_voice_assistants.VoiceBot.Packets.{Packet}

unfoldable pub room_reconnecting : ℕ → ℕ → Call → Call
room_reconnecting generation room s =
    if is_current generation room s then record s { status = Status.reconnecting } else s

unfoldable pub room_reconnected : ℕ → ℕ → Call → Call
room_reconnected generation room s =
    if is_current generation room s then record s { status = audio_status generation s } else s

-- An audio track.
unfoldable pub track_subscribed : ℕ → ℕ → Call → Call
track_subscribed generation room s =
    if is_current generation room s
    then record s {
      has_agent_audio = update s.has_agent_audio generation true;
      status = Status.connected;
    }
    else s

unfoldable pub track_unsubscribed : ℕ → ℕ → Bool → Call → Call
track_unsubscribed generation room is_connected s =
    if not (is_current generation room s)
    then s
    else let s' = record s {
      has_agent_audio = update s.has_agent_audio generation false;
      is_bot_speaking = false;
    } in
      if is_connected then record s' { status = Status.waiting_for_agent } else s'

unfoldable pub active_speakers_changed : ℕ → ℕ → Bool → Call → Call
active_speakers_changed generation room agent_speaks s =
    if not (is_current generation room s) || s.is_user_speaking
    then s
    else record s { is_bot_speaking = agent_speaks }

-- The packet as `parseVoicePacket` returns it.
unfoldable pub data_received : ℕ → ℕ → Option Packet → Call → Call
data_received generation room packet s =
    if not (is_current generation room s) then s else elim packet [
      | none ↦ s
      | some p ↦ elim p [
        | Packet.transcript t ↦ record s { transcripts = s.transcripts ++ t ∷ [] }
        | Packet.task_update task ↦ record s { active_task = some task }
      ]
    ]

unfoldable pub room_disconnected : ℕ → ℕ → Call → Call
unfolding clear_session_state
room_disconnected generation room s =
    if not (is_current generation room s)
    then s
    else let s' =
        clear_session_state (close room (record s { room = none; native_audio = false })) in
      if s'.intentional_disconnect
      then record s' { status = Status.disconnected }
      else record s' { status = Status.error; error = some unexpected_end }
