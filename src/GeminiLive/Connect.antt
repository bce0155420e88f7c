-- ===== src/GeminiLive/Connect.antt =====
-- `connect`, cut at its awaits, `disconnect`, the controls, and the transcripts of
-- frontend/src/hooks/useGeminiLiveSession.ts.
use ai_voice_assistants.Common.{
  ℕ, ◌+◌, String, Bool, true, false, not, Option, none, some, List, [], ◌∷◌, ◌++◌, if◌then◌else◌,
  is_some, str_eq,
}
use ai_voice_assistants.Common.Text.{codes}
use ai_voice_assistants.Policy.Turns.{Patterns, Decision, classify_assistant_turn}
use ai_voice_assistants.GeminiLive.State.{Session, Status, Speaker, Processor}

unfoldable pub connect : Session → Session
connect s = record s { connection_status = Status.connecting }

-- The token is there: the audio context is made.
unfoldable pub token_received : Session → Session
token_received s = record s { audio_context = some s.next; next = s.next + 1 }

-- `ai.live.connect` returns the session.
unfoldable pub session_made : Session → Session
session_made s = record s { session = some s.next; next = s.next + 1 }

-- The microphone is there. `muted`: the mute that the call of `connect` has in its closure.
unfoldable pub microphone_received : Bool → Session → Session
microphone_received muted s = record s {
  mic_stream = some s.next;
  is_mic_enabled = true;
  source = some (s.next + 1);
  processor = some (record { node = s.next + 2; is_muted = muted });
  next = s.next + 3;
  connection_status = Status.connected;
}

unfoldable pub connect_threw : Session → Session
connect_threw s = record s { connection_status = Status.error }

unfoldable pub session_opened : Session → Session
session_opened s = record s { connection_status = Status.connected }

unfoldable pub session_failed : Session → Session
session_failed s = record s { connection_status = Status.error }

unfoldable pub session_closed : Session → Session
session_closed s = record s { connection_status = Status.disconnected }

abbrev pub is_processing : Option Processor → Bool
is_processing none = false
is_processing (some p) = not p.is_muted

-- The processor hands over a frame of so many samples.
unfoldable pub audio_processed : ℕ → Session → Session
audio_processed samples s =
    if is_processing s.processor
    then if is_some s.session then record s { frames = samples ∷ s.frames } else s
    else s

unfoldable pub disconnect : Session → Session
disconnect s = record s {
  processor = none;
  source = none;
  mic_stream = none;
  session = none;
  audio_context = none;
  is_bot_speaking = false;
  is_user_speaking = false;
  connection_status = Status.disconnected;
}

unfoldable pub toggle_mute : Session → Session
toggle_mute s = record s {
  is_muted = not s.is_muted;
  is_mic_enabled = if is_some s.mic_stream then s.is_muted else s.is_mic_enabled;
}

unfoldable pub toggle_hands_free : Session → Session
toggle_hands_free s = record s { is_hands_free = not s.is_hands_free }

unfoldable pub handle_interruption : Session → Session
handle_interruption s = record s { is_bot_speaking = false }

unfoldable pub handle_speech_start : Session → Session
handle_speech_start s = record s { is_user_speaking = true }

unfoldable pub handle_speech_end : Session → Session
handle_speech_end s = record s { is_user_speaking = false }

-- `scopeDecisionRef.current?.calendarContextActive ?? false`.
abbrev pub is_context_active : Option Decision → Bool
is_context_active none = false
is_context_active (some d) = d.context_active

module _ (patterns : Patterns) (test : String → List ℕ → Bool) (to_lower : List ℕ → List ℕ) where
  -- An empty transcript is skipped.
  unfoldable pub user_transcribed : String → String → String → Session → Session
  user_transcribed text id time s = if str_eq text "" then s else record s {
    scope_decision = some (
        classify_assistant_turn patterns test to_lower (codes text)
          (is_context_active s.scope_decision));
    messages =
        s.messages
        ++ (record { id = id; speaker = Speaker.user; text = text; timestamp = time } ∷ []);
    is_user_speaking = false;
  }

unfoldable pub assistant_transcribed : String → String → String → Session → Session
assistant_transcribed text id time s = if str_eq text "" then s else record s {
  messages =
      s.messages
      ++ (record { id = id; speaker = Speaker.assistant; text = text; timestamp = time } ∷ []);
}

unfoldable pub turn_completed : Session → Session
turn_completed s = record s { is_bot_speaking = false }
