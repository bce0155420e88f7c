-- ===== src/VoiceBot/Calls.antt =====
-- `initiateCall` and `endCall` of mobile/src/hooks/useVoiceBot.ts. A call of either is cut at its
-- awaits; `phase` holds where each call of `initiateCall` waits.
use ai_voice_assistants.Common.{
  ℕ, ◌+◌, Bool, true, false, not, Option, none, some, [], ◌∷◌, if◌then◌else◌, ◌==◌, is_some,
}
use ai_voice_assistants.Common.Json.{Json}
use ai_voice_assistants.VoiceBot.State.{
  Status, to_error, Phase, Call, update, clear_session_state, close, close_if, is_current, at_phase,
  audio_status,
}

-- `endCall` up to its first await.
unfoldable pub end_call : Call → Call
end_call s =
    close_if s.room
      (record s { generation = s.generation + 1; intentional_disconnect = true; room = none })

-- The rest of `endCall`, after the room and the native audio are down.
unfoldable pub end_settled : Call → Call
unfolding clear_session_state
end_settled s = record (clear_session_state (record s { native_audio = false })) {
  status = Status.disconnected;
}

-- `initiateCall` up to the request for the token.
unfoldable pub initiate_call : Call → Call
initiate_call s = if is_some s.room then s else record s {
  generation = s.generation + 1;
  intentional_disconnect = false;
  error = none;
  transcripts = [];
  active_task = none;
  status = Status.connecting;
  phase = update s.phase (s.generation + 1) Phase.fetching;
}

unfoldable pub token_received : ℕ → Call → Call
token_received generation s = elim (s.phase generation) [
  | Phase.fetching ↦
      at_phase generation (if s.generation == generation then Phase.preparing else Phase.returned) s
  | _ ↦ s
]

-- The native audio has started: the room is made.
unfoldable pub audio_started : ℕ → Call → Call
audio_started generation s = elim (s.phase generation) [
  | Phase.preparing ↦ record s {
    native_audio = true;
    room = some s.next;
    opened = s.next ∷ s.opened;
    next = s.next + 1;
    phase = update s.phase generation (Phase.joining s.next);
    has_agent_audio = update s.has_agent_audio generation false;
  }
  | _ ↦ s
]

unfoldable pub room_joined : ℕ → Call → Call
room_joined generation s = elim (s.phase generation) [
  | Phase.joining room ↦
      if is_current generation room s
      then record s {
        status = audio_status generation s;
        phase = update s.phase generation (Phase.publishing room);
      }
      else at_phase generation Phase.returned (close room s)
  | _ ↦ s
]

unfoldable pub microphone_set : ℕ → Call → Call
microphone_set generation s = elim (s.phase generation) [
  | Phase.publishing room ↦ at_phase generation Phase.returned s
  | _ ↦ s
]

-- The room of a call that waits for it, or for the microphone.
abbrev pub room_of : Phase → Option ℕ
room_of (Phase.joining room) = some room
room_of (Phase.publishing room) = some room
room_of _ = none

abbrev pub is_waiting : Phase → Bool
is_waiting Phase.fetching = true
is_waiting Phase.preparing = true
is_waiting (Phase.joining room) = true
is_waiting (Phase.publishing room) = true
is_waiting _ = false

-- An await throws: the `catch` block up to its first await.
unfoldable pub call_threw : ℕ → Json → Call → Call
call_threw generation thrown s =
    if not (is_waiting (s.phase generation))
    then s
    else if s.generation == generation
    then at_phase generation (Phase.failing thrown)
        (close_if (room_of (s.phase generation)) (record s { room = none }))
    else at_phase generation Phase.returned s

-- The rest of the `catch` block.
unfoldable pub failure_settled : ℕ → Call → Call
unfolding clear_session_state to_error
failure_settled generation s = elim (s.phase generation) [
  | Phase.failing thrown ↦ record (clear_session_state (at_phase generation Phase.returned s)) {
    native_audio = false;
    error = some (to_error thrown);
    status = Status.error;
  }
  | _ ↦ s
]
