-- ===== src/GeminiLive/Guard.antt =====
-- The tools that the model may use: only allowed ones reach the backend, and a call of any other is
-- answered with a refusal.
use ai_voice_assistants.Common.{
  ℕ, zero, suc, ◌≡◌, refl, Bool, true, false, not, Option, none, some, List, [], ◌∷◌, String, arith,
  Bool-cases, inl, inr, str_eq, All, if◌then◌else◌, is_some, ◌∙◌, ap,
}
use ai_voice_assistants.Common.Json.{Json}
use ai_voice_assistants.Policy.Turns.{is_allowed_calendar_tool}
use ai_voice_assistants.GeminiLive.State.{Session, Pending, Reply, initial}
use ai_voice_assistants.GeminiLive.Calls.{
  FunctionCall, Stamp, function_called, functions_called, take_out, execution_settled, settled_with,
  put_back, settle_at, denied,
}
use ai_voice_assistants.GeminiLive.Playback.{chunk_ended, played}
use ai_voice_assistants.GeminiLive.Connect.{
  connect, token_received, session_made, microphone_received, connect_threw, session_opened,
  session_failed, session_closed, audio_processed, disconnect, toggle_mute, toggle_hands_free,
  handle_interruption, handle_speech_start, handle_speech_end,
}
use ai_voice_assistants.GeminiLive.Frame.{Untouched, chunk_ended-Untouched, content_received-keeps}
use ai_voice_assistants.GeminiLive.Events.{Platform, Event, step, run}

abbrev pub IsAllowed : String → Type 0
IsAllowed name = is_allowed_calendar_tool name ≡ true

-- A call that waits knows whether its tool is allowed.
abbrev pub IsJudged : Pending → Type 0
IsJudged p = p.is_denied ≡ not (is_allowed_calendar_tool p.name)

-- The reply to a call of a tool that is not allowed is the refusal.
abbrev pub IsRefused : Reply → Type 0
IsRefused r = is_allowed_calendar_tool r.name ≡ false → r.output ≡ denied

pub record IsGuarded (s : Session) : Type 0 where
  pub requested : All IsAllowed s.requested
  pub waiting : All IsJudged s.waiting
  pub replies : All IsRefused s.replies

-- Nothing that the guard speaks of is touched.
abbrev Same : Session → Session → Type 0
Same s s' = (s'.requested ≡ s.requested) × (s'.waiting ≡ s.waiting) × (s'.replies ≡ s.replies)

Same-IsGuarded : (s s' : Session) → Same s s' → IsGuarded s → IsGuarded s'
Same-IsGuarded s s' (a, b, c) v = record {
  requested = rw a v.requested;
  waiting = rw b v.waiting;
  replies = rw c v.replies;
}

request_if :
    (b : Bool) (name : String) (names : List String)
    → (b ≡ true → IsAllowed name)
    → All IsAllowed names
    → All IsAllowed (if b then name ∷ names else names)
request_if true name names h v = (h refl, v)
request_if false name names h v = v

reply_if :
    (b : Bool) (r : Reply) (rs : List Reply)
    → IsRefused r
    → All IsRefused rs
    → All IsRefused (if b then r ∷ rs else rs)
reply_if true r rs h v = (h, v)
reply_if false r rs h v = v

function_called-IsGuarded :
    (call : FunctionCall) (stamp : Stamp) (s : Session)
    → IsGuarded s
    → IsGuarded (function_called call stamp s)
unfolding function_called
function_called-IsGuarded call stamp s v = elim (Bool-cases (str_eq call.name "")) [
  | inl skipped ↦ rw skipped v
  | inr named ↦ rw named (record {
    requested = request_if _ call.name s.requested (λ e. e) v.requested;
    waiting = (refl, v.waiting);
    replies = v.replies;
  })
]

functions_called-IsGuarded :
    (calls : List (FunctionCall × Stamp)) (s : Session)
    → IsGuarded s
    → IsGuarded (functions_called calls s)
unfolding functions_called
functions_called-IsGuarded [] s v = v
functions_called-IsGuarded ((call, stamp) ∷ calls) s v =
    functions_called-IsGuarded calls (function_called call stamp s)
      (function_called-IsGuarded call stamp s v)

abbrev AreJudged : Option (Pending × List Pending) → Type 0
AreJudged none = Unit
AreJudged (some (q, qs)) = IsJudged q × All IsJudged qs

put_back-AreJudged :
    (p : Pending) (o : Option (Pending × List Pending))
    → IsJudged p
    → AreJudged o
    → AreJudged (put_back p o)
put_back-AreJudged p none h k = tt
put_back-AreJudged p (some (q, qs)) h (k, l) = (k, (h, l))

-- What is taken out, and what stays, was judged.
take_out-AreJudged : (n : ℕ) (ps : List Pending) → All IsJudged ps → AreJudged (take_out n ps)
unfolding take_out
take_out-AreJudged zero [] h = tt
take_out-AreJudged (suc n) [] h = tt
take_out-AreJudged zero (p ∷ ps) h = h
take_out-AreJudged (suc n) (p ∷ ps) (h, k) = put_back-AreJudged p _ h (take_out-AreJudged n ps k)

settled_with-IsGuarded :
    (conflict : Option Json → String) (result : Json) (now : ℕ) (time : String)
    (o : Option (Pending × List Pending)) (s : Session)
    → AreJudged o
    → IsGuarded s
    → IsGuarded (settled_with conflict result now time o s)
unfolding execution_settled
settled_with-IsGuarded conflict result now time none s h v = v
settled_with-IsGuarded conflict result now time (some (p, ps)) s (judged, rest) v = record {
  requested = v.requested;
  waiting = rest;
  replies = reply_if (is_some s.session) _ s.replies (λ e. rw (judged ∙ ap not e) refl) v.replies;
}

audio_processed-Same : (n : ℕ) (s : Session) → Same s (audio_processed n s)
unfolding audio_processed
audio_processed-Same n s = grind arith

played-Same : (pcm : Option (List ℕ)) (now : ℕ) (s : Session) → Same s (played pcm now s)
played-Same none now s = (refl, refl, refl)
played-Same (some []) now s = (refl, refl, refl)
played-Same (some (x ∷ pcm)) now s = (refl, refl, refl)

Untouched-IsGuarded : (s s' : Session) → Untouched s s' → IsGuarded s → IsGuarded s'
Untouched-IsGuarded s s' (_, _, a, b, c, _, _) v = Same-IsGuarded s s' (a, b, c) v

played-IsGuarded :
    (pcm : Option (List ℕ)) (now : ℕ) (s : Session) → IsGuarded s → IsGuarded (played pcm now s)
played-IsGuarded pcm now s v = Same-IsGuarded s _ (played-Same pcm now s) v

module _ (p : Platform) where
  step-IsGuarded : (e : Event) (s : Session) → IsGuarded s → IsGuarded (step p e s)
  unfolding step settle_at connect disconnect toggle_mute toggle_hands_free handle_interruption
      handle_speech_start handle_speech_end token_received session_made connect_threw
      microphone_received session_opened session_failed session_closed
  step-IsGuarded (Event.calls cs) s v = functions_called-IsGuarded cs s v
  step-IsGuarded (Event.settled n result now time) s v =
      settled_with-IsGuarded p.conflict result now time (take_out n s.waiting) s
        (take_out-AreJudged n s.waiting v.waiting) v
  step-IsGuarded (Event.frame samples) s v = Same-IsGuarded s _ (audio_processed-Same samples s) v
  step-IsGuarded (Event.ended now) s v =
      Untouched-IsGuarded s (chunk_ended now s) (chunk_ended-Untouched now s) v
  step-IsGuarded (Event.content c) s v =
      content_received-keeps IsGuarded Untouched-IsGuarded played-IsGuarded p c s v
  step-IsGuarded Event.connect_called s v = Same-IsGuarded s _ (refl, refl, refl) v
  step-IsGuarded _ s v = Same-IsGuarded s _ (refl, refl, refl) v

  run-IsGuarded : (es : List Event) (s : Session) → IsGuarded s → IsGuarded (run p es s)
  unfolding run
  run-IsGuarded [] s v = v
  run-IsGuarded (e ∷ es) s v = run-IsGuarded es (step p e s) (step-IsGuarded e s v)

  -- Whatever the model asks for, in any order of events, the backend is asked to run allowed calendar
  -- tools only, and the reply to a call of any other tool is the refusal of the policy.
  pub run-initial-IsGuarded : (es : List Event) → IsGuarded (run p es initial)
  run-initial-IsGuarded es =
      run-IsGuarded es initial (record { requested = tt; waiting = tt; replies = tt })
