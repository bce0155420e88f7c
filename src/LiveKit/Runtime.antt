-- ===== src/LiveKit/Runtime.antt =====
-- frontend/src/lib/livekitSessionRuntime.ts: the pure rules of a LiveKit session.
pub mod Laws
use ai_voice_assistants.Common.{
  ℕ, ◌-◌, String, Bool, true, false, not, ◌&&◌, ◌||◌, Option, none, some, List, [], ◌∷◌, ◌++◌,
  if◌then◌else◌, ◌==◌, take, keep, str_eq,
}
use ai_voice_assistants.Common.Json.{
  Json, is_object, truthy, property, as_string, as_number, is_text,
}
use ai_voice_assistants.Common.Text.{codes, is_lower, is_digit, to_lower_case}

pub data Status : Type 0 where
  disconnected connecting waiting_for_agent waiting_for_audio connected reconnecting : Status
  recovering error : Status

pub data LifecycleEvent : Type 0 where
  room_connected audio_ready audio_blocked reconnecting reconnected agent_recovering :
      LifecycleEvent
  agent_ready agent_failed agent_unavailable disconnected connection_error : LifecycleEvent

unfoldable pub connection_status : LifecycleEvent → Bool → Bool → Status
connection_status LifecycleEvent.room_connected audio blocked = Status.waiting_for_agent
connection_status LifecycleEvent.agent_unavailable audio blocked = Status.waiting_for_agent
connection_status LifecycleEvent.audio_ready audio blocked = Status.connected
connection_status LifecycleEvent.audio_blocked audio blocked = Status.waiting_for_audio
connection_status LifecycleEvent.reconnecting audio blocked = Status.reconnecting
connection_status LifecycleEvent.agent_recovering audio blocked = Status.recovering
connection_status LifecycleEvent.agent_ready audio blocked =
    if blocked then Status.waiting_for_audio else Status.connected
connection_status LifecycleEvent.agent_failed audio blocked = Status.error
connection_status LifecycleEvent.reconnected audio blocked =
    if blocked
    then Status.waiting_for_audio
    else if audio
    then Status.connected
    else Status.waiting_for_agent
connection_status LifecycleEvent.disconnected audio blocked = Status.disconnected
connection_status LifecycleEvent.connection_error audio blocked = Status.error

abbrev pub agent_heartbeat_timeout_ms : ℕ
agent_heartbeat_timeout_ms = 15_000

pub data AgentState : Type 0 where
  starting ready recovering recovered failed ended : AgentState

-- The optional fields of a message are read by nothing in the program.
pub record AgentMessage : Type 0 where
  pub state : AgentState
  pub session_id : String
  pub sequence : ℕ
  pub timestamp : ℕ

-- Membership in `AGENT_LIFECYCLE_STATES`, with the state.
unfoldable pub agent_state : String → Option AgentState
agent_state s =
    if str_eq s "starting"
    then some AgentState.starting
    else if str_eq s "ready"
    then some AgentState.ready
    else if str_eq s "recovering"
    then some AgentState.recovering
    else if str_eq s "recovered"
    then some AgentState.recovered
    else if str_eq s "failed"
    then some AgentState.failed
    else if str_eq s "ended"
    then some AgentState.ended
    else none

infixl 5 ◌>>=◌
abbrev ◌>>=◌ : {A B : Type 0} → Option A → (A → Option B) → Option B
none >>= f = none
some a >>= f = f a

-- The conditions of the second test, in their order.
unfoldable pub agent_message : Json → Option AgentMessage
agent_message value = do
  name ← as_string (property "state" value)
  state ← agent_state name
  session_id ← as_string (property "session_id" value)
  sequence ← as_number (property "sequence" value)
  timestamp ← as_number (property "timestamp" value)
  some (record {
    state = state;
    session_id = session_id;
    sequence = sequence;
    timestamp = timestamp;
  })

unfoldable pub parse_agent_message : Json → Option AgentMessage
unfolding agent_message
parse_agent_message value =
    if not (truthy value) || not (is_object value)
    then none
    else if not (is_text (property "type" value) "agent_lifecycle")
        && not (is_text (property "type" value) "agent_heartbeat")
    then none
    else agent_message value

unfoldable pub agent_status : AgentState → Bool → Bool → Status
agent_status AgentState.starting audio blocked = Status.waiting_for_agent
agent_status AgentState.recovering audio blocked = Status.recovering
agent_status AgentState.ready audio blocked =
    if blocked
    then Status.waiting_for_audio
    else if audio
    then Status.connected
    else Status.waiting_for_agent
agent_status AgentState.recovered audio blocked =
    if blocked
    then Status.waiting_for_audio
    else if audio
    then Status.connected
    else Status.waiting_for_agent
agent_status AgentState.failed audio blocked = Status.error
agent_status AgentState.ended audio blocked = Status.disconnected

pub data ContextState : Type 0 where
  suspended running closed interrupted : ContextState

-- An audio context: its state, and what `resume()` does: it rejects, or it settles with the
-- context in a state.
pub record AudioContextLike : Type 0 where
  pub state : ContextState
  pub resume : Option ContextState

abbrev is_running : ContextState → Bool
is_running ContextState.running = true
is_running _ = false

-- The state at the second test, if no exception was thrown before.
abbrev state_after_resume : AudioContextLike → Option ContextState
state_after_resume context = elim context.state [
  | ContextState.suspended ↦ context.resume
  | ContextState.running ↦ some ContextState.running
  | ContextState.closed ↦ some ContextState.closed
  | ContextState.interrupted ↦ some ContextState.interrupted
]

abbrev is_closed : ContextState → Bool
is_closed ContextState.closed = true
is_closed _ = false

-- `plays`: whether `mediaElement.play()` resolves.
unfoldable pub activate_audio_playback : AudioContextLike → Bool → Bool
activate_audio_playback context plays =
    if is_closed context.state then false else elim (state_after_resume context) [
      | none ↦ false
      | some state ↦ if not (is_running state) then false else plays
    ]

-- `[a-z0-9-]`.
abbrev pub is_room_char : ℕ → Bool
is_room_char c = is_lower c || is_digit c || c == b'-'

unfoldable pub normalized_id : List ℕ → List ℕ
normalized_id session_id = take 64 (keep is_room_char (to_lower_case session_id))

abbrev pub prefixed : List ℕ → Option (List ℕ)
prefixed [] = none
prefixed (c ∷ s) = some (codes "executive-voice-" ++ c ∷ s)

-- `none` is the exception for an empty ID.
unfoldable pub create_room_name : List ℕ → Option (List ℕ)
unfolding normalized_id
create_room_name session_id = prefixed (normalized_id session_id)

unfoldable pub is_voice_session_active : Status → Bool
is_voice_session_active Status.disconnected = false
is_voice_session_active Status.error = false
is_voice_session_active _ = true

abbrev pub is_current_generation : ℕ → ℕ → Bool
is_current_generation expected current = expected == current
