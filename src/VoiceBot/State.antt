-- ===== src/VoiceBot/State.antt =====
-- The state of mobile/src/hooks/useVoiceBot.ts. A value that the hook holds in a ref and mirrors in a
-- state variable is one field. Rooms are numbers, given out by `next`.
use ai_voice_assistants.Common.{
  ℕ, String, Bool, true, false, ◌&&◌, Option, none, some, List, [], ◌∷◌, if◌then◌else◌, ◌==◌, holds,
}
use ai_voice_assistants.Common.Json.{Json, str, property, or_json}
use ai_voice_assistants.VoiceBot.Packets.{Transcript}

pub data Status : Type 0 where
  disconnected connecting waiting_for_agent connected reconnecting error : Status

pub record Badge : Type 0 where
  pub label : String
  pub color : String
  pub pulsing : Bool

-- `getVoiceAssistantBadge`; its default case is no status.
unfoldable pub badge : Status → Badge
badge Status.disconnected = record { label = "Offline"; color = "gray"; pulsing = false }
badge Status.connecting = record { label = "Connecting..."; color = "yellow"; pulsing = true }
badge Status.waiting_for_agent = record {
  label = "Waiting for Agent...";
  color = "blue";
  pulsing = true;
}
badge Status.connected = record { label = "Live Call"; color = "green"; pulsing = true }
badge Status.reconnecting = record { label = "Reconnecting..."; color = "orange"; pulsing = true }
badge Status.error = record { label = "Connection Error"; color = "red"; pulsing = false }

pub record VoiceBotError : Type 0 where
  pub code : Json
  pub message : Json
  pub status : Option Json

-- The thrown value as JSON: an error object has its fields, anything else has none.
unfoldable pub to_error : Json → VoiceBotError
to_error thrown = record {
  code = or_json (property "code" thrown) (str "VOICE_SESSION_FAILED");
  message = or_json (property "message" thrown) (str "The voice session could not be started.");
  status = property "status" thrown;
}

abbrev pub unexpected_end : VoiceBotError
unexpected_end = record {
  code = str "ROOM_DISCONNECTED";
  message = str "The LiveKit room disconnected unexpectedly.";
  status = none;
}

-- Where a call of `initiateCall` waits: for the token, for the native audio, for the room, for the
-- microphone, or in its `catch` block for the teardown.
pub data Phase : Type 0 where
  unused fetching preparing : Phase
  joining publishing : ℕ → Phase
  failing : Json → Phase
  returned : Phase

pub record Call : Type 0 where
  pub status : Status
  pub room : Option ℕ
  pub generation : ℕ
  pub intentional_disconnect : Bool
  pub is_bot_speaking : Bool
  pub is_user_speaking : Bool
  pub is_muted : Bool
  pub is_speakerphone_on : Bool
  pub local_audio_level : ℕ
  pub remote_audio_level : ℕ
  pub transcripts : List Transcript
  pub active_task : Option Json
  pub error : Option VoiceBotError
  pub phase : ℕ → Phase
  -- `hasAgentAudio` of each call
  pub has_agent_audio : ℕ → Bool
  -- the platform's audio session
  pub native_audio : Bool
  pub next : ℕ
  -- newest first: the rooms that were made, those that were told to disconnect or said that they
  -- had, and those to which `response.cancel` was published
  pub opened : List ℕ
  pub closed : List ℕ
  pub cancels : List ℕ

abbrev pub update {ℓ} : {A : Type ℓ} → (ℕ → A) → ℕ → A → ℕ → A
update f k v j = if k == j then v else f j

abbrev pub initial : Call
initial = record {
  status = Status.disconnected;
  room = none;
  generation = 0;
  intentional_disconnect = false;
  is_bot_speaking = false;
  is_user_speaking = false;
  is_muted = false;
  is_speakerphone_on = true;
  local_audio_level = 0;
  remote_audio_level = 0;
  transcripts = [];
  active_task = none;
  error = none;
  phase = λ g. Phase.unused;
  has_agent_audio = λ g. false;
  native_audio = false;
  next = 0;
  opened = [];
  closed = [];
  cancels = [];
}

unfoldable pub clear_session_state : Call → Call
clear_session_state s = record s {
  is_bot_speaking = false;
  is_user_speaking = false;
  local_audio_level = 0;
  remote_audio_level = 0;
}

abbrev pub close : ℕ → Call → Call
close room s = record s { closed = room ∷ s.closed }

abbrev pub close_if : Option ℕ → Call → Call
close_if none s = s
close_if (some room) s = close room s

abbrev pub is_current : ℕ → ℕ → Call → Bool
is_current generation room s = holds s.room room && s.generation == generation

abbrev pub at_phase : ℕ → Phase → Call → Call
at_phase generation p s = record s { phase = update s.phase generation p }

abbrev pub audio_status : ℕ → Call → Status
audio_status generation s =
    if s.has_agent_audio generation then Status.connected else Status.waiting_for_agent
