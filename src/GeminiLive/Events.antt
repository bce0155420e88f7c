-- ===== src/GeminiLive/Events.antt =====
-- What may happen next to frontend/src/hooks/useGeminiLiveSession.ts: the user, the awaits of
-- `connect`, the model's messages, and the audio.
use ai_voice_assistants.Common.{
  ℕ, String, Bool, true, false, not, ◌&&◌, ◌||◌, if◌then◌else◌, Option, List, [], ◌∷◌,
}
use ai_voice_assistants.Common.Json.{Json}
use ai_voice_assistants.Policy.Turns.{Patterns}
use ai_voice_assistants.GeminiLive.State.{Session}
use ai_voice_assistants.GeminiLive.Calls.{FunctionCall, Stamp, functions_called, settle_at}
use ai_voice_assistants.GeminiLive.Playback.{play_audio_chunk, throws, chunk_ended}
use ai_voice_assistants.GeminiLive.Connect.{
  connect, token_received, session_made, microphone_received, connect_threw, session_opened,
  session_failed, session_closed, audio_processed, disconnect, toggle_mute, toggle_hands_free,
  handle_interruption, handle_speech_start, handle_speech_end, user_transcribed,
  assistant_transcribed, turn_completed,
}

-- A server content: the transcripts, with the IDs and times of their messages, the chunks of audio,
-- with the times at which they are played, and whether the turn is complete.
pub record Content : Type 0 where
  pub input : String × String × String
  pub output : String × String × String
  pub parts : List (String × ℕ)
  pub is_turn_complete : Bool

pub data Event : Type 0 where
  connect_called disconnect_called mute_toggled hands_free_toggled : Event
  interrupted speech_started speech_ended : Event
  token session threw : Event
  microphone : Bool → Event
  opened failed closed : Event
  frame : ℕ → Event
  calls : List (FunctionCall × Stamp) → Event
  settled : ℕ → Json → ℕ → String → Event
  content : Content → Event
  ended : ℕ → Event

-- The parameters: the patterns of the policy, the regular expressions, `toLowerCase`, `atob`, and the
-- text of a conflict.
pub record Platform : Type 0 where
  pub patterns : Patterns
  pub test : String → List ℕ → Bool
  pub to_lower : List ℕ → List ℕ
  pub atob : String → List ℕ
  pub conflict : Option Json → String

abbrev pub complete_if : Bool → Session → Session
complete_if true s = turn_completed s
complete_if false s = s

module _ (p : Platform) where
  -- A part that throws ends the loop.
  unfoldable pub play_parts : List (String × ℕ) → Session → Session
  unfolding throws
  play_parts [] s = s
  play_parts ((base64, now) ∷ parts) s =
      let rest = play_parts parts (play_audio_chunk p.atob base64 now s) in
      if throws p.atob base64 s then s else rest

  -- Whether a part throws, out of the handler.
  unfoldable pub parts_throw : List (String × ℕ) → Session → Bool
  unfolding throws
  parts_throw [] s = false
  parts_throw ((base64, now) ∷ parts) s = throws p.atob base64 s || parts_throw parts s

  unfoldable pub content_received : Content → Session → Session
  unfolding play_parts parts_throw
  content_received c s =
      let heard : Session =
        user_transcribed p.patterns p.test p.to_lower c.input.0 c.input.1 c.input.2 s in
      let said : Session = assistant_transcribed c.output.0 c.output.1 c.output.2 heard in
      complete_if (c.is_turn_complete && not (parts_throw c.parts said)) (play_parts c.parts said)

  unfoldable pub step : Event → Session → Session
  unfolding content_received
  step Event.connect_called s = connect s
  step Event.disconnect_called s = disconnect s
  step Event.mute_toggled s = toggle_mute s
  step Event.hands_free_toggled s = toggle_hands_free s
  step Event.interrupted s = handle_interruption s
  step Event.speech_started s = handle_speech_start s
  step Event.speech_ended s = handle_speech_end s
  step Event.token s = token_received s
  step Event.session s = session_made s
  step Event.threw s = connect_threw s
  step (Event.microphone muted) s = microphone_received muted s
  step Event.opened s = session_opened s
  step Event.failed s = session_failed s
  step Event.closed s = session_closed s
  step (Event.frame samples) s = audio_processed samples s
  step (Event.calls cs) s = functions_called cs s
  step (Event.settled n result now time) s = settle_at p.conflict n result now time s
  step (Event.content c) s = content_received c s
  step (Event.ended now) s = chunk_ended now s

  unfoldable pub run : List Event → Session → Session
  run [] s = s
  run (e ∷ es) s = run es (step e s)
