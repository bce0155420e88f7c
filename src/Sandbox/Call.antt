-- ===== src/Sandbox/Call.antt =====
-- The abstract call of a page of frontend/src/components/sandbox/TestingSandboxPage.tsx: what a page
-- shows to the outside, and how it may change.
use ai_voice_assistants.Common.{ℕ, ◌≡◌, Bool, true, false, Option, none, some}
use ai_voice_assistants.Sandbox.State.{Session, Phase}

-- The abstract call.
pub data Call : Type 0 where
  no_call asking opening : Call
  in_room : ℕ → Call

-- Where a call may go at one event.
abbrev pub MayMove : Call → Call → Type 0
MayMove Call.no_call Call.no_call = Unit
MayMove Call.no_call Call.asking = Unit
MayMove Call.no_call c = ⊥
MayMove Call.asking Call.asking = Unit
MayMove Call.asking Call.no_call = Unit
MayMove Call.asking Call.opening = Unit
MayMove Call.asking c = ⊥
MayMove Call.opening Call.asking = ⊥
MayMove Call.opening c = Unit
MayMove (Call.in_room r) Call.no_call = Unit
MayMove (Call.in_room r) (Call.in_room q) = r ≡ q
MayMove (Call.in_room r) c = ⊥

-- Whether the call has the lock.
abbrev pub has_lock : Call → Bool
has_lock Call.no_call = false
has_lock Call.asking = false
has_lock Call.opening = true
has_lock (Call.in_room r) = true

abbrev pub call_at : Option ℕ → Phase → Call
call_at (some room) phase = Call.in_room room
call_at none Phase.locking = Call.asking
call_at none Phase.fetching = Call.opening
call_at none phase = Call.no_call

-- The call that a page shows to the outside.
abbrev pub call_of : Session → Call
call_of s = call_at s.room s.phase
