-- ===== src/Sandbox/Refine.antt =====
-- A page refines the abstract call: over any events the call asks for the lock, then opens, then is in
-- one room until it is over.
use ai_voice_assistants.Common.{◌≡◌, refl, String, false, Option, List, [], ◌∷◌, arith}
use ai_voice_assistants.Common.Json.{Json}
use ai_voice_assistants.Sandbox.State.{Session, initial}
use ai_voice_assistants.Sandbox.Connect.{LockAnswer}
use ai_voice_assistants.Sandbox.Events.{Event, step}
use ai_voice_assistants.Sandbox.Lock.{IsLocked, IsTimely, initial-IsLocked}
use ai_voice_assistants.Sandbox.Keeps.{step-Keeps, granted-IsLocked}
use ai_voice_assistants.Sandbox.Call.{MayMove, has_lock, call_of}
use ai_voice_assistants.Sandbox.Moves.{step-Moves}

module _ {s : Session} (v : IsLocked s) where
  call_of-lock : s.holds_lock ≡ has_lock (call_of s)
  call_of-lock = grind arith

-- The lock is granted only while the page does not hold it.
abbrev pub IsAskedFor : Event → Session → Type 0
IsAskedFor (Event.lock LockAnswer.granted id time) s = s.holds_lock ≡ false
IsAskedFor e s = Unit

module _ (shown : Option Json → String) where
  abbrev pub AllAsked : List Event → Session → Type 0
  AllAsked [] s = Unit
  AllAsked (e ∷ es) s = IsTimely e s × IsAskedFor e s × AllAsked es (step shown e s)

  -- From every state to the next the abstract call moves as it may, and the page holds the lock
  -- exactly when the call has it.
  abbrev pub Refines : List Event → Session → Type 0
  Refines [] s = s.holds_lock ≡ has_lock (call_of s)
  Refines (e ∷ es) s =
      (s.holds_lock ≡ has_lock (call_of s))
      × MayMove (call_of s) (call_of (step shown e s))
      × Refines es (step shown e s)

  step-IsLocked :
      (e : Event) {s : Session}
      → IsLocked s
      → IsTimely e s
      → IsAskedFor e s
      → IsLocked (step shown e s)
  step-IsLocked (Event.lock LockAnswer.granted id time) v t a = granted-IsLocked v shown id time a
  step-IsLocked Event.start v t a = (step-Keeps v shown Event.start t refl).0
  step-IsLocked Event.mute_toggled v t a = (step-Keeps v shown Event.mute_toggled t refl).0
  step-IsLocked e v t a = (step-Keeps v shown e t refl).0

  run-Refines : (es : List Event) {s : Session} → IsLocked s → AllAsked es s → Refines es s
  run-Refines [] v a = call_of-lock v
  run-Refines (e ∷ es) v (timely, asked, rest) = (
    call_of-lock v,
    step-Moves v shown e timely,
    run-Refines es (step-IsLocked e v timely asked) rest,
  )

  -- In a browser with the Locks API a page refines the abstract call: over any events, where the page
  -- is not left while it connects and the browser grants the lock only while it is free, the call asks for the lock, then opens,
  -- then is in one room until it is over, and never goes from a room to another or back to opening;
  -- the page holds the lock exactly from opening to the end.
  pub run-initial-Refines : (es : List Event) → AllAsked es initial → Refines es initial
  run-initial-Refines es a = run-Refines es initial-IsLocked a
