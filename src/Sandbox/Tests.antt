-- ===== src/Sandbox/Tests.antt =====
-- The theorems on the testing sandbox at concrete inputs.
use ai_voice_assistants.Common.{
  ℕ, ◌≡◌, ◌+◌, refl, String, true, false, Option, none, some, List, [], ◌∷◌, arith,
}
use ai_voice_assistants.Common.Json.{Json, str, obj, field, end}
use ai_voice_assistants.Sandbox.State.{Session, Status, Phase, initial}
use ai_voice_assistants.Sandbox.Connect.{
  LockAnswer, Answer, Visualizer, token_answered, room_joined, microphone_captured,
  microphone_published, unmounted, room_disconnected, start_session, lock_answered,
}
use ai_voice_assistants.Sandbox.Events.{Event, step}
use ai_voice_assistants.Sandbox.Tabs.{run_tabs, run_tabs-room}
use ai_voice_assistants.Sandbox.Refine.{Refines, run-initial-Refines}
use ai_voice_assistants.Sandbox.Stale.{unmounted-token, room_disconnected-captured}
use ai_voice_assistants.Sandbox.Duration.{format_duration}

abbrev shown : Option Json → String
shown v = "?"

abbrev body : Json
body = obj (field "token" (str "t") (field "ws_url" (str "wss://x") (field "room" (str "r") end)))

abbrev answer : Answer
answer = record { is_ok = true; http_status = 200; body = some body }

-- Page 0 gets into a room; page 1 asks for the lock and is refused.
abbrev calls : List (ℕ × Event)
calls =
    (0, Event.start)
    ∷ (1, Event.start)
    ∷ (0, Event.lock LockAnswer.granted "s" "9:00")
    ∷ (1, Event.lock LockAnswer.taken "q" "9:00")
    ∷ (0, Event.token answer)
    ∷ []

run_tabs-room_example :
    (◌≡◌ {A = ℕ} 0 0) × ((run_tabs shown calls (λ i. initial) 0).holds_lock ≡ true)
unfolding run_tabs step start_session lock_answered token_answered
run_tabs-room_example =
    run_tabs-room shown calls (tt, tt, (tt, tt, (tt, λ j. ground arith, (tt, tt, (tt, tt, tt))))) 0
      0 0 0 refl refl

abbrev one_call : List Event
one_call =
    Event.start
    ∷ Event.lock LockAnswer.granted "s" "9:00"
    ∷ Event.token answer
    ∷ Event.room_left 0
    ∷ []

run-initial-Refines_example : Refines shown one_call initial
unfolding step start_session lock_answered token_answered room_disconnected
run-initial-Refines_example =
    run-initial-Refines shown one_call (tt, tt, (tt, refl, (tt, tt, (tt, tt, tt))))

format_duration_runs : format_duration 754 ≡ b'1' ∷ b'2' ∷ b':' ∷ b'3' ∷ b'4' ∷ []
unfolding format_duration
format_duration_runs = refl

abbrev said : Json
said =
    obj (field "type" (str "transcript") (field "text" (str "hello") (field "id" (str "m1") end)))

abbrev waiting : Session
waiting = record initial { phase = Phase.fetching; holds_lock = true; next = 4 }

unmounted-token_example :
    let s' : Session =
      microphone_published Visualizer.working
        (microphone_captured (room_joined (token_answered answer (unmounted waiting)))) in
    (s'.room ≡ some 4) × (s'.holds_lock ≡ false) × (s'.local_track ≡ some (4 + 1))
unmounted-token_example = unmounted-token answer body Visualizer.working waiting refl refl refl refl

abbrev capturing : Session
capturing = record initial { phase = Phase.capturing 3; room = some 3; holds_lock = true; next = 4 }

room_disconnected-captured_example :
    let s' : Session =
      microphone_published Visualizer.absent
        (microphone_captured (room_disconnected 3 capturing)) in
    (s'.room ≡ none)
    × (s'.status ≡ Status.connected)
    × (s'.local_track ≡ some 4)
    × (s'.holds_lock ≡ false)
room_disconnected-captured_example =
    room_disconnected-captured 3 Visualizer.absent capturing refl refl

abbrev muted : Session
muted = record initial {
  is_muted = true;
  room = some 0;
  local_track = some 1;
  is_track_muted = true;
  holds_lock = true;
  next = 2;
}
