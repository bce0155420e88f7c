-- ===== src/GeminiLive/Context.antt =====
-- The calendar context of frontend/src/hooks/useGeminiLiveSession.ts, which the transcripts of the user
-- and the tool calls of the model write.
use ai_voice_assistants.Common.{
  ℕ, ◌≡◌, ◌⊎◌, inl, inr, refl, ◌∙◌, ap, sym, Bool, true, false, not, ◌&&◌, Option, none, some, List,
  [], ◌∷◌, String, arith, Bool-cases, str_eq, is_some,
}
use ai_voice_assistants.Common.Json.{Json}
use ai_voice_assistants.Common.Text.{codes, trim}
use ai_voice_assistants.Policy.Turns.{matches, is_allowed_calendar_tool}
use ai_voice_assistants.Policy.Conversation.{turn-activates}
use ai_voice_assistants.GeminiLive.State.{Session, Pending, initial}
use ai_voice_assistants.GeminiLive.Pcm.{base64_to_int16}
use ai_voice_assistants.GeminiLive.Calls.{
  FunctionCall, Stamp, function_called, functions_called, take_out, execution_settled, settled_with,
  settle_at,
}
use ai_voice_assistants.GeminiLive.Playback.{play_audio_chunk, chunk_ended, played, throws}
use ai_voice_assistants.GeminiLive.Connect.{
  connect, token_received, session_made, microphone_received, connect_threw, session_opened,
  session_failed, session_closed, audio_processed, disconnect, toggle_mute, toggle_hands_free,
  handle_interruption, handle_speech_start, handle_speech_end, user_transcribed,
  assistant_transcribed, turn_completed, is_context_active,
}
use ai_voice_assistants.GeminiLive.Events.{
  Platform, Content, Event, play_parts, parts_throw, complete_if, content_received, step, run,
}

-- The context of the session is active.
abbrev pub IsActive : Session → Type 0
IsActive s = is_context_active s.scope_decision ≡ true

-- One of the calls is of a tool that is allowed.
abbrev pub HasAllowed : List (FunctionCall × Stamp) → Type 0
HasAllowed [] = ⊥
HasAllowed ((call, stamp) ∷ calls) = (is_allowed_calendar_tool call.name ≡ true) ⊎ HasAllowed calls

-- What the user says is not empty, and matches a calendar pattern.
abbrev pub Asks : Platform → String → Type 0
Asks p text =
    (str_eq text "" ≡ false)
    × (matches p.patterns p.test p.patterns.calendar_intent (p.to_lower (trim (codes text))) ≡ true)

-- The event asks for the calendar: what the user says in it matches a calendar pattern, or the model
-- calls an allowed tool in it.
abbrev pub AsksForCalendar : Platform → Event → Type 0
AsksForCalendar p (Event.content c) = Asks p c.input.0
AsksForCalendar p (Event.calls cs) = HasAllowed cs
AsksForCalendar p _ = ⊥

-- One of the events does.
abbrev pub SomeAsks : Platform → List Event → Type 0
SomeAsks p [] = ⊥
SomeAsks p (e ∷ es) = AsksForCalendar p e ⊎ SomeAsks p es

-- The two states have the same context.
abbrev Alike : Session → Session → Type 0
Alike s s' = s'.scope_decision ≡ s.scope_decision

function_called-activates :
    (call : FunctionCall) (stamp : Stamp) (s : Session)
    → IsActive (function_called call stamp s)
    → IsActive s ⊎ (is_allowed_calendar_tool call.name ≡ true)
unfolding function_called
function_called-activates call stamp s h = elim (Bool-cases (str_eq call.name "")) [
  | inl skipped ↦ inl (rw skipped at h)
  | inr named ↦ elim (Bool-cases (is_allowed_calendar_tool call.name)) [
    | inl allowed ↦ inr allowed
    | inr denied ↦ inl (rw (named, denied) at h)
  ]
]

functions_called-activates :
    (calls : List (FunctionCall × Stamp)) (s : Session)
    → IsActive (functions_called calls s)
    → IsActive s ⊎ HasAllowed calls
unfolding functions_called
functions_called-activates [] s h = inl h
functions_called-activates ((call, stamp) ∷ calls) s h =
    elim (functions_called-activates calls (function_called call stamp s) h) [
      | inr later ↦ inr (inr later)
      | inl active ↦ elim (function_called-activates call stamp s active) [
        | inl before ↦ inl before
        | inr allowed ↦ inr (inl allowed)
      ]
    ]

settled_with-Alike :
    (conflict : Option Json → String) (result : Json) (now : ℕ) (time : String)
    (o : Option (Pending × List Pending)) (s : Session)
    → Alike s (settled_with conflict result now time o s)
unfolding execution_settled
settled_with-Alike conflict result now time none s = refl
settled_with-Alike conflict result now time (some (p, ps)) s = refl

audio_processed-Alike : (n : ℕ) (s : Session) → Alike s (audio_processed n s)
unfolding audio_processed
audio_processed-Alike n s = grind arith

chunk_ended-Alike : (n : ℕ) (s : Session) → Alike s (chunk_ended n s)
unfolding chunk_ended
chunk_ended-Alike n s = grind arith

assistant_transcribed-Alike :
    (text id time : String) (s : Session) → Alike s (assistant_transcribed text id time s)
unfolding assistant_transcribed
assistant_transcribed-Alike text id time s = grind arith

complete_if-Alike : (b : Bool) (s : Session) → Alike s (complete_if b s)
unfolding turn_completed
complete_if-Alike true s = refl
complete_if-Alike false s = refl

played-Alike : (pcm : Option (List ℕ)) (now : ℕ) (s : Session) → Alike s (played pcm now s)
played-Alike none now s = refl
played-Alike (some []) now s = refl
played-Alike (some (x ∷ pcm)) now s = refl

play_audio_chunk-Alike :
    (atob : String → List ℕ) (base64 : String) (now : ℕ) (s : Session)
    → Alike s (play_audio_chunk atob base64 now s)
unfolding play_audio_chunk
play_audio_chunk-Alike atob base64 now s = elim (Bool-cases (is_some s.audio_context)) [
  | inl on ↦ rw on (played-Alike (base64_to_int16 atob base64) now s)
  | inr off ↦ rw off refl
]

module _ (p : Platform) where
  play_parts-Alike : (parts : List (String × ℕ)) (s : Session) → Alike s (play_parts p parts s)
  unfolding play_parts
  play_parts-Alike [] s = refl
  play_parts-Alike ((base64, now) ∷ parts) s = elim (Bool-cases (throws p.atob base64 s)) [
    | inl thrown ↦ rw thrown refl
    | inr fine ↦ rw fine (
        play_parts-Alike parts (play_audio_chunk p.atob base64 now s)
        ∙ play_audio_chunk-Alike p.atob base64 now s)
  ]

  user_transcribed-activates :
      (text id time : String) (s : Session)
      → IsActive (user_transcribed p.patterns p.test p.to_lower text id time s)
      → IsActive s ⊎ Asks p text
  unfolding user_transcribed
  user_transcribed-activates text id time s h = elim (Bool-cases (str_eq text "")) [
    | inl skipped ↦ inl (rw skipped at h)
    | inr said ↦
        elim (turn-activates p.patterns p.test p.to_lower (codes text)
          (is_context_active s.scope_decision) (rw said at h)) [
            | inl before ↦ inl before
            | inr matched ↦ inr (said, matched)
          ]
  ]

  content_received-activates :
      (c : Content) (s : Session)
      → IsActive (content_received p c s)
      → IsActive s ⊎ AsksForCalendar p (Event.content c)
  unfolding content_received
  content_received-activates c s h =
      let heard : Session =
        user_transcribed p.patterns p.test p.to_lower c.input.0 c.input.1 c.input.2 s in
      let said : Session = assistant_transcribed c.output.0 c.output.1 c.output.2 heard in
      let sounded : Session = play_parts p c.parts said in
      let completes : Bool = c.is_turn_complete && not (parts_throw p c.parts said) in
      let alike : Alike heard (complete_if completes sounded) =
        complete_if-Alike completes sounded
        ∙ (play_parts-Alike c.parts said
            ∙ assistant_transcribed-Alike c.output.0 c.output.1 c.output.2 heard) in
      user_transcribed-activates c.input.0 c.input.1 c.input.2 s
        (sym (ap is_context_active alike) ∙ h)

  step-activates :
      (e : Event) (s : Session) → IsActive (step p e s) → IsActive s ⊎ AsksForCalendar p e
  unfolding step settle_at connect disconnect toggle_mute toggle_hands_free handle_interruption
      handle_speech_start handle_speech_end token_received session_made connect_threw
      microphone_received session_opened session_failed session_closed
  step-activates (Event.calls cs) s h = functions_called-activates cs s h
  step-activates (Event.settled n result now time) s h =
      inl (rw (settled_with-Alike p.conflict result now time (take_out n s.waiting) s) at h)
  step-activates (Event.frame samples) s h = inl (rw (audio_processed-Alike samples s) at h)
  step-activates (Event.ended now) s h = inl (rw (chunk_ended-Alike now s) at h)
  step-activates (Event.content c) s h = content_received-activates c s h
  step-activates _ s h = inl h

  run-activates :
      (es : List Event) (s : Session) → IsActive (run p es s) → IsActive s ⊎ SomeAsks p es
  unfolding run
  run-activates [] s h = inl h
  run-activates (e ∷ es) s h = elim (run-activates es (step p e s) h) [
    | inr later ↦ inr (inr later)
    | inl active ↦ elim (step-activates e s active) [
      | inl before ↦ inl before
      | inr asks ↦ inr (inl asks)
    ]
  ]

  -- The calendar context of the hook is active only if in some event the user said what matches a
  -- calendar pattern or the model called an allowed tool: small talk, follow-ups, redirections and
  -- calls of other tools never open it.
  pub run-initial-SomeAsks : (es : List Event) → IsActive (run p es initial) → SomeAsks p es
  run-initial-SomeAsks es h = elim (run-activates es initial h) [
    | inl e ↦ absurd (ground arith)
    | inr asks ↦ asks
  ]
