-- ===== src/GeminiLive/Mute.antt =====
-- A session of frontend/src/hooks/useGeminiLiveSession.ts that is connected while it is muted stays
-- silent.
use ai_voice_assistants.Common.{
  ℕ, ◌≡◌, refl, true, false, Option, none, some, List, [], ◌∷◌, String, Bool-cases, inl, inr,
  str_eq,
}
use ai_voice_assistants.Common.Json.{Json}
use ai_voice_assistants.GeminiLive.State.{Session, Pending}
use ai_voice_assistants.GeminiLive.Calls.{
  FunctionCall, Stamp, function_called, functions_called, take_out, execution_settled, settled_with,
  settle_at,
}
use ai_voice_assistants.GeminiLive.Playback.{chunk_ended, played}
use ai_voice_assistants.GeminiLive.Connect.{
  connect, token_received, session_made, microphone_received, connect_threw, session_opened,
  session_failed, session_closed, audio_processed, is_processing, disconnect, toggle_mute,
  toggle_hands_free, handle_interruption, handle_speech_start, handle_speech_end,
}
use ai_voice_assistants.GeminiLive.Frame.{Untouched, chunk_ended-Untouched, content_received-keeps}
use ai_voice_assistants.GeminiLive.Events.{Platform, Event, step, run}

-- No processor sends, and so many frames were sent.
abbrev pub IsSilent : List ℕ → Session → Type 0
IsSilent sent s = (is_processing s.processor ≡ false) × (s.frames ≡ sent)

-- Every event but the end of a call of `connect`, which makes a new processor.
abbrev pub IsNoMicrophone : Event → Type 0
IsNoMicrophone (Event.microphone muted) = ⊥
IsNoMicrophone _ = Unit

abbrev pub AllNoMicrophone : List Event → Type 0
AllNoMicrophone [] = Unit
AllNoMicrophone (e ∷ es) = IsNoMicrophone e × AllNoMicrophone es

module _ (sent : List ℕ) where
  function_called-IsSilent :
      (call : FunctionCall) (stamp : Stamp) (s : Session)
      → IsSilent sent s
      → IsSilent sent (function_called call stamp s)
  unfolding function_called
  function_called-IsSilent call stamp s v = elim (Bool-cases (str_eq call.name "")) [
    | inl skipped ↦ rw skipped v
    | inr named ↦ rw named v
  ]

  functions_called-IsSilent :
      (calls : List (FunctionCall × Stamp)) (s : Session)
      → IsSilent sent s
      → IsSilent sent (functions_called calls s)
  unfolding functions_called
  functions_called-IsSilent [] s v = v
  functions_called-IsSilent ((call, stamp) ∷ calls) s v =
      functions_called-IsSilent calls (function_called call stamp s)
        (function_called-IsSilent call stamp s v)

  settled_with-IsSilent :
      (conflict : Option Json → String) (result : Json) (now : ℕ) (time : String)
      (o : Option (Pending × List Pending)) (s : Session)
      → IsSilent sent s
      → IsSilent sent (settled_with conflict result now time o s)
  unfolding execution_settled
  settled_with-IsSilent conflict result now time none s v = v
  settled_with-IsSilent conflict result now time (some (p, ps)) s v = v

  played-IsSilent :
      (pcm : Option (List ℕ)) (now : ℕ) (s : Session)
      → IsSilent sent s
      → IsSilent sent (played pcm now s)
  played-IsSilent none now s v = v
  played-IsSilent (some []) now s v = v
  played-IsSilent (some (x ∷ pcm)) now s v = v

  Untouched-IsSilent : (s s' : Session) → Untouched s s' → IsSilent sent s → IsSilent sent s'
  Untouched-IsSilent s s' (_, _, _, _, _, a, b) v = rw a (rw b v)

  audio_processed-IsSilent :
      (n : ℕ) (s : Session) → IsSilent sent s → IsSilent sent (audio_processed n s)
  unfolding audio_processed
  audio_processed-IsSilent n s (quiet, same) = rw quiet (quiet, same)

  module _ (p : Platform) where
    step-IsSilent :
        (e : Event) (s : Session) → IsNoMicrophone e → IsSilent sent s → IsSilent sent (step p e s)
    unfolding step settle_at connect disconnect toggle_mute toggle_hands_free handle_interruption
        handle_speech_start handle_speech_end token_received session_made connect_threw
        microphone_received session_opened session_failed session_closed
    step-IsSilent (Event.microphone muted) s ok v = absurd ok
    step-IsSilent (Event.calls cs) s ok v = functions_called-IsSilent cs s v
    step-IsSilent (Event.settled n result now time) s ok v =
        settled_with-IsSilent p.conflict result now time (take_out n s.waiting) s v
    step-IsSilent (Event.frame samples) s ok v = audio_processed-IsSilent samples s v
    step-IsSilent (Event.ended now) s ok v =
        Untouched-IsSilent s (chunk_ended now s) (chunk_ended-Untouched now s) v
    step-IsSilent (Event.content c) s ok v =
        content_received-keeps (IsSilent sent) Untouched-IsSilent played-IsSilent p c s v
    step-IsSilent Event.disconnect_called s ok v = (refl, v.1)
    step-IsSilent Event.connect_called s ok v = v
    step-IsSilent _ s ok v = v

    run-IsSilent :
        (es : List Event) (s : Session)
        → AllNoMicrophone es
        → IsSilent sent s
        → IsSilent sent (run p es s)
    unfolding run
    run-IsSilent [] s ok v = v
    run-IsSilent (e ∷ es) s (ok, oks) v = run-IsSilent es (step p e s) oks (step-IsSilent e s ok v)

-- Where the hook is muted when `connect` is called, its processor sends nothing, however often the mute
-- is toggled afterwards: no frame reaches the model before `connect` is called again.
pub run-muted :
    (p : Platform) (es : List Event) (s : Session)
    → AllNoMicrophone es
    → (run p es (microphone_received true s)).frames ≡ s.frames
unfolding microphone_received
run-muted p es s ok = (run-IsSilent s.frames p es (microphone_received true s) ok (refl, refl)).1
