-- ===== src/LiveKit/Connect.antt =====
-- `connect` and `disconnect` of frontend/src/hooks/useLiveKitSession.ts. A call of `connect` is cut
-- at its awaits; `phase` holds where each call waits.
use ai_voice_assistants.Common.{
  ℕ, ◌+◌, String, true, false, not, ◌||◌, Option, none, some, ◌∷◌, if◌then◌else◌, holds, is_some,
}
use ai_voice_assistants.LiveKit.Runtime.{Status, LifecycleEvent, is_current_generation}
use ai_voice_assistants.LiveKit.State.{
  Session, Phase, update, show, is_current, close, close_if, reset_media, clear_heartbeat,
  arm_heartbeat,
}

unfoldable pub connect : String → Session → Session
connect session_id s = if is_some s.connect_in_flight || is_some s.room then s else record s {
  generation = s.generation + 1;
  connect_in_flight = some (s.generation + 1);
  intentional_disconnect = false;
  connection_status = Status.connecting;
  session_id = some session_id;
  phase = update s.phase (s.generation + 1) Phase.fetching;
}

-- The `finally` block, and the end of the call.
unfoldable pub finish : ℕ → Session → Session
finish generation s = record s {
  connect_in_flight = if holds s.connect_in_flight generation then none else s.connect_in_flight;
  phase = update s.phase generation Phase.returned;
}

-- The `catch` block.
unfoldable pub recover : ℕ → Session → Session
unfolding reset_media clear_heartbeat
recover generation s =
    if not (is_current_generation generation s.generation)
    then s
    else show LifecycleEvent.connection_error (
        close_if s.room (
          clear_heartbeat (
            reset_media (record s {
              room = none;
              intentional_disconnect = true;
              connect_in_flight = none;
              generation = s.generation + 1;
            }))))

-- The token has arrived. A new room is the number `next`.
unfoldable pub token_received : ℕ → Session → Session
unfolding finish
token_received generation s = elim (s.phase generation) [
  | Phase.fetching ↦
      if is_current_generation generation s.generation
      then record s {
        room = some s.next;
        opened = s.next ∷ s.opened;
        next = s.next + 1;
        phase = update s.phase generation (Phase.joining s.next);
      }
      else finish generation s
  | _ ↦ s
]

-- `room.connect` has resolved.
unfoldable pub room_joined : ℕ → Session → Session
unfolding finish arm_heartbeat
room_joined generation s = elim (s.phase generation) [
  | Phase.joining room ↦
      if not (is_current generation room s)
      then finish generation (close room s)
      else let s' = if s.has_assistant_audio then s else show LifecycleEvent.room_connected s in
        record (arm_heartbeat room s') {
          phase = update s'.phase generation (Phase.publishing room);
        }
  | _ ↦ s
]

-- The microphone is published: with a media track, or with none, which throws.
unfoldable pub microphone_published : ℕ → Option ℕ → Session → Session
unfolding finish recover
microphone_published generation microphone s = elim (s.phase generation) [
  | Phase.publishing room ↦
      if not (is_current generation room s)
      then finish generation (close room s)
      else if is_some microphone
      then finish generation (record s { mic_stream = microphone })
      else finish generation (recover generation s)
  | _ ↦ s
]

-- One of the awaits throws: the token request, joining, or publishing.
unfoldable pub connect_failed : ℕ → Session → Session
unfolding finish recover
connect_failed generation s = elim (s.phase generation) [
  | Phase.unused ↦ s
  | Phase.returned ↦ s
  | _ ↦ finish generation (recover generation s)
]

unfoldable pub disconnect : Session → Session
unfolding reset_media clear_heartbeat
disconnect s = show LifecycleEvent.disconnected (
    reset_media (
      close_if s.room (
        clear_heartbeat (record s {
          intentional_disconnect = true;
          session_id = none;
          generation = s.generation + 1;
          connect_in_flight = none;
          room = none;
        }))))

unfoldable pub room_reconnecting : ℕ → ℕ → Session → Session
room_reconnecting generation room s =
    if is_current generation room s then show LifecycleEvent.reconnecting s else s

unfoldable pub room_reconnected : ℕ → ℕ → Session → Session
room_reconnected generation room s =
    if is_current generation room s then show LifecycleEvent.reconnected s else s

-- RoomEvent.Disconnected.
unfoldable pub room_disconnected : ℕ → ℕ → Session → Session
unfolding reset_media clear_heartbeat
room_disconnected generation room s =
    if not (is_current generation room s)
    then s
    else let s' = close room (
        reset_media (record (clear_heartbeat s) {
          generation = s.generation + 1;
          connect_in_flight = none;
          room = none;
        })) in
      if s'.intentional_disconnect
      then show LifecycleEvent.disconnected s'
      else show LifecycleEvent.connection_error s'

unfoldable pub toggle_mute : Session → Session
toggle_mute s = if is_some s.room then record s { is_muted = not s.is_muted } else s

unfoldable pub toggle_hands_free : Session → Session
toggle_hands_free s = record s { is_hands_free = not s.is_hands_free }
