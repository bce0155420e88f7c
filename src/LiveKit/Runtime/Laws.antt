-- ===== src/LiveKit/Runtime/Laws.antt =====
-- What the pure rules of livekitSessionRuntime.ts promise.
use ai_voice_assistants.Common.{
  ℕ, ◌≤◌, ◌≡◌, ◌↔◌, ◌⊎◌, String, Bool, true, false, none, some, List, [], ◌∷◌, ◌++◌, arith, length,
  take, length-append, length-take, All, All-append, All-take, keep-All, keep-eq-nil_iff,
  Option-cases, inl, inr, ◌||◌,
}
use ai_voice_assistants.Common.Json.{
  Json, str, num, obj, property, is_text, as_string, is_text_iff, as_string_iff, as_number_iff,
}
use ai_voice_assistants.Common.Text.{codes, to_lower_case}
use ai_voice_assistants.LiveKit.Runtime.{
  Status, AgentState, AgentMessage, agent_state, agent_message, parse_agent_message, agent_status,
  AudioContextLike, ContextState, activate_audio_playback, is_room_char, normalized_id, prefixed,
  create_room_name,
}

abbrev pub IsRoomChar : ℕ → Type 0
IsRoomChar c = is_room_char c ≡ true

prefix_chars : All IsRoomChar (codes "executive-voice-")
prefix_chars = ground arith

prefixed_inv :
    (s : List ℕ) {name : List ℕ} → prefixed s ≡ some name → name ≡ codes "executive-voice-" ++ s
prefixed_inv [] h = ground arith
prefixed_inv (c ∷ s) h = ground arith

prefixed-eq-none : (s : List ℕ) → prefixed s ≡ none → s ≡ []
prefixed-eq-none [] h = ground arith
prefixed-eq-none (c ∷ s) h = ground arith

normalized_id-All : (s : List ℕ) → All IsRoomChar (normalized_id s)
unfolding normalized_id
normalized_id-All s = All-take IsRoomChar 64 _ (keep-All is_room_char (to_lower_case s))

length-normalized_id : (s : List ℕ) → length (normalized_id s) ≤ 64
unfolding normalized_id
length-normalized_id s = length-take 64 _

take-eq-nil : (xs : List ℕ) → take 64 xs ≡ [] → xs ≡ []
take-eq-nil [] h = ground arith
take-eq-nil (x ∷ xs) h = ground arith

-- A room name has at most 80 characters, all of them lower-case letters, digits and dashes,
-- whatever the session ID.
pub create_room_name-IsRoomChar :
    (id name : List ℕ) → create_room_name id ≡ some name → All IsRoomChar name × (length name ≤ 80)
unfolding create_room_name
create_room_name-IsRoomChar id name h =
    let e = prefixed_inv (normalized_id id) h in
    rw e (
      All-append IsRoomChar (codes "executive-voice-") (normalized_id id) prefix_chars
          (normalized_id-All id),
      omega (
        arith,
        length-append (codes "executive-voice-") (normalized_id id),
        length-normalized_id id,
      ),
    )

-- The exception is thrown exactly for the session IDs that have no character of a room name.
pub create_room_name-eq-none_iff :
    (id : List ℕ)
    → (create_room_name id ≡ none) ↔ All (λ c. is_room_char c ≡ false) (to_lower_case id)
unfolding create_room_name
create_room_name-eq-none_iff id =
    let fits = keep-eq-nil_iff is_room_char (to_lower_case id) in
    (
      λ h. fits.0 (take-eq-nil _ (unfold normalized_id in prefixed-eq-none (normalized_id id) h)),
      λ h. rw (fits.1 h, normalized_id),
    )

-- What a lifecycle message says, apart from the code that reads it.
pub record Says (value : Json) (m : AgentMessage) : Type 0 where
  pub kind :
      (property "type" value ≡ some (str "agent_lifecycle"))
      ⊎ (property "type" value ≡ some (str "agent_heartbeat"))
  pub name : String
  pub named : property "state" value ≡ some (str name)
  pub state : agent_state name ≡ some m.state
  pub session_id : property "session_id" value ≡ some (str m.session_id)
  pub sequence : property "sequence" value ≡ some (num m.sequence)
  pub timestamp : property "timestamp" value ≡ some (num m.timestamp)

agent_message_sound :
    (value : Json) (m : AgentMessage)
    → agent_message value ≡ some m
    → (name : String) × (property "state" value ≡ some (str name))
      × (agent_state name ≡ some m.state)
      × (property "session_id" value ≡ some (str m.session_id))
      × (property "sequence" value ≡ some (num m.sequence))
      × (property "timestamp" value ≡ some (num m.timestamp))
unfolding agent_message
agent_message_sound value m h = elim (Option-cases (as_string (property "state" value))) [
  | inl missing ↦ ground arith
  | inr (name, found) ↦ (
    name,
    (as_string_iff _ name).0 found,
    ground arith,
    (as_string_iff _ _).0 (ground arith),
    (as_number_iff _ _).0 (ground arith),
    (as_number_iff _ _).0 (ground arith),
  )
]

parse_agent_message_sound :
    (value : Json) (m : AgentMessage) → parse_agent_message value ≡ some m → Says value m
unfolding parse_agent_message
parse_agent_message_sound value m h =
    let (name, named, state, session_id, sequence, timestamp) =
      agent_message_sound value m (unfold agent_message in ground arith) in
    record {
      kind = ground (
        arith,
        is_text_iff (property "type" value) "agent_lifecycle",
        is_text_iff (property "type" value) "agent_heartbeat",
      );
      name = name;
      named = named;
      state = state;
      session_id = session_id;
      sequence = sequence;
      timestamp = timestamp;
    }

agent_message_complete :
    (value : Json) (m : AgentMessage) → Says value m → agent_message value ≡ some m
unfolding agent_message
agent_message_complete value m h = rw (h.named, h.session_id, h.sequence, h.timestamp, h.state)

parse_agent_message_complete :
    (value : Json) (m : AgentMessage) → Says value m → parse_agent_message value ≡ some m
unfolding parse_agent_message
parse_agent_message_complete (obj fs) m h =
    let kind : is_text (property "type" (obj fs)) "agent_lifecycle"
          || is_text (property "type" (obj fs)) "agent_heartbeat"
        ≡ true =
      ground (
        arith,
        is_text_iff (property "type" (obj fs)) "agent_lifecycle",
        is_text_iff (property "type" (obj fs)) "agent_heartbeat",
      ) in
    ground (arith, agent_message_complete (obj fs) m h)
parse_agent_message_complete value m h = ground arith

-- A packet is read as a lifecycle message exactly when it says one.
pub parse_agent_message_iff :
    (value : Json) (m : AgentMessage) → (parse_agent_message value ≡ some m) ↔ Says value m
parse_agent_message_iff value m =
    (parse_agent_message_sound value m, parse_agent_message_complete value m)

-- Playback is activated exactly when the element plays in an audio context that is running, or that
-- is suspended and is running after it is resumed.
pub activate_audio_playback_iff :
    (context : AudioContextLike) (plays : Bool)
    → (activate_audio_playback context plays ≡ true) ↔ (
        (plays ≡ true)
        × ((context.state ≡ ContextState.running)
            ⊎ ((context.state ≡ ContextState.suspended)
                × (context.resume ≡ some ContextState.running))))
unfolding activate_audio_playback
activate_audio_playback_iff context plays = ground arith

-- The agent's state is shown as "connected" exactly when it is ready or recovered, its audio is
-- there, and playback is not blocked.
pub agent_status-eq-connected_iff :
    (state : AgentState) (audio blocked : Bool)
    → (agent_status state audio blocked ≡ Status.connected) ↔ (
        ((state ≡ AgentState.ready) ⊎ (state ≡ AgentState.recovered))
        × (audio ≡ true)
        × (blocked ≡ false))
unfolding agent_status
agent_status-eq-connected_iff state audio blocked = ground arith
