-- ===== src/Sandbox/Stale.antt =====
-- What goes wrong where a call of `startSession` in flight outlives its page or its room.
use ai_voice_assistants.Common.{
  ℕ, ◌≡◌, refl, String, true, false, Option, none, some, arith, ◌∙◌, ◌+◌,
}
use ai_voice_assistants.Common.Json.{Json, property}
use ai_voice_assistants.Sandbox.State.{Session, Status, Phase}
use ai_voice_assistants.Sandbox.Connect.{
  LockAnswer, Answer, Visualizer, is_complete, opened, start_session, lock_answered, token_answered,
  room_joined, microphone_captured, microphone_published, unmounted, room_disconnected,
  stop_session,
}

-- A complete answer makes a room.
token_answered-opened :
    (answer : Answer) (body : Json) (s : Session)
    → s.phase ≡ Phase.fetching
    → answer.is_ok ≡ true
    → answer.body ≡ some body
    → is_complete body ≡ true
    → token_answered answer s ≡ opened (property "room" body) s
unfolding token_answered
token_answered-opened answer body s p ok b whole = rw p (rw ok (rw b (rw whole refl)))

-- The rest of a call whose awaits succeed.
joined_after :
    (name : Option Json) (v : Visualizer) (s : Session)
    → let s' : Session =
        microphone_published v (microphone_captured (room_joined (opened name s))) in
      (s'.room ≡ some s.next)
      × (s'.holds_lock ≡ s.holds_lock)
      × (s'.local_track ≡ some (s.next + 1))
      × (s'.is_muted ≡ s.is_muted)
      × (s'.is_track_muted ≡ false)
      × (s'.status ≡ Status.connected)
unfolding microphone_published microphone_captured room_joined
joined_after name Visualizer.absent s = ground arith
joined_after name Visualizer.broken s = ground arith
joined_after name Visualizer.working s = ground arith

-- If the page is left while it waits for its token, a complete token still makes a room, which the
-- page holds without the lock; the room is then joined and its microphone published.
pub unmounted-token :
    (answer : Answer) (body : Json) (v : Visualizer) (s : Session)
    → s.phase ≡ Phase.fetching
    → answer.is_ok ≡ true
    → answer.body ≡ some body
    → is_complete body ≡ true
    → let s' : Session =
        microphone_published v
          (microphone_captured (room_joined (token_answered answer (unmounted s)))) in
      (s'.room ≡ some s.next) × (s'.holds_lock ≡ false) × (s'.local_track ≡ some (s.next + 1))
unfolding unmounted
unmounted-token answer body v s p ok b whole =
    rw (token_answered-opened answer body (unmounted s) p ok b whole)
      (let f = joined_after (property "room" body) v (unmounted s) in (f.0, f.1, f.2))

-- If the room disconnects while the microphone is captured, the capture and its publication go on,
-- where the room lets them: the page shows a connected session, with the microphone on and no room.
pub room_disconnected-captured :
    (r : ℕ) (v : Visualizer) (s : Session)
    → s.phase ≡ Phase.capturing r
    → s.room ≡ some r
    → let s' : Session = microphone_published v (microphone_captured (room_disconnected r s)) in
      (s'.room ≡ none)
      × (s'.status ≡ Status.connected)
      × (s'.local_track ≡ some s.next)
      × (s'.holds_lock ≡ false)
unfolding microphone_published microphone_captured room_disconnected
room_disconnected-captured r v s p h = ground arith

-- A session is stopped, and the next one is given the lock.
abbrev pub asked_again : String → String → String → Session → Session
asked_again ending time id s =
    lock_answered LockAnswer.granted id time (start_session (stop_session ending time s))

abbrev Waits : Session → Session → Type 0
Waits s s' = (s'.phase ≡ Phase.fetching) × (s'.is_muted ≡ s.is_muted)

asked_again-Waits :
    (ending time id : String) (s : Session)
    → s.phase ≡ Phase.idle
    → Waits s (asked_again ending time id s)
unfolding lock_answered start_session stop_session
asked_again-Waits ending time id s p = rw p (refl, refl)

-- A mute outlives its session: after a session is stopped that was muted, the next one that is
-- published shows the microphone as muted while its track is not.
pub stop_session-muted :
    (ending time id : String) (answer : Answer) (body : Json) (v : Visualizer) (s : Session)
    → s.phase ≡ Phase.idle
    → s.is_muted ≡ true
    → answer.is_ok ≡ true
    → answer.body ≡ some body
    → is_complete body ≡ true
    → let s' : Session = microphone_published v (
        microphone_captured (room_joined (token_answered answer (asked_again ending time id s)))) in
      (s'.is_muted ≡ true) × (s'.is_track_muted ≡ false) × (s'.status ≡ Status.connected)
stop_session-muted ending time id answer body v s p m ok b whole =
    let w : Waits s (asked_again ending time id s) = asked_again-Waits ending time id s p in
    let f = joined_after (property "room" body) v (asked_again ending time id s) in
    rw (token_answered-opened answer body (asked_again ending time id s) w.0 ok b whole)
      (f.3 ∙ w.1 ∙ m, f.4, f.5)
