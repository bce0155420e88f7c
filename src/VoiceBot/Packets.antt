-- ===== src/VoiceBot/Packets.antt =====
-- mobile/src/services/voicePackets.ts: data-channel packets before they touch the state.
use ai_voice_assistants.Common.{
  ℕ, String, Bool, true, false, ◌&&◌, ◌||◌, Option, none, some, List, [], ◌∷◌, if◌then◌else◌, ◌≡◌,
  inl, inr, ◌≢◌, arith, Option-cases,
}
use ai_voice_assistants.Common.Json.{
  Json, bool, property, is_text, is_object, truthy, as_string, as_number,
}
use ai_voice_assistants.Common.Text.{codes, trim, trim-IsPlain, StartsPlain, EndsPlain}

pub record Transcript : Type 0 where
  pub id : String
  pub is_user : Bool
  pub text : List ℕ
  pub is_final : Bool
  pub timestamp : ℕ

pub data Packet : Type 0 where
  transcript : Transcript → Packet
  task_update : Json → Packet

-- `value !== false`.
abbrev is_not_false : Option Json → Bool
is_not_false (some (bool false)) = false
is_not_false _ = true

abbrev or_string : Option String → String → String
or_string none d = d
or_string (some s) d = s

abbrev or_number : Option ℕ → ℕ → ℕ
or_number none d = d
or_number (some n) d = n

abbrev is_blank : List ℕ → Bool
is_blank [] = true
is_blank (c ∷ s) = false

abbrev pub transcript_of : Json → List ℕ → ℕ → String → Transcript
transcript_of packet text now fresh_id = record {
  id = or_string (as_string (property "id" packet)) fresh_id;
  is_user = is_text (property "speaker" packet) "user" || is_text (property "role" packet) "user";
  text = text;
  is_final = is_not_false (property "is_final" packet);
  timestamp = or_number (as_number (property "timestamp" packet)) now;
}

-- The text of a transcript packet, if it is not blank.
unfoldable pub transcript_text : Json → Option (List ℕ)
transcript_text packet =
    if is_text (property "type" packet) "transcript"
    then elim (as_string (property "text" packet)) [
      | none ↦ none
      | some text ↦ if is_blank (trim (codes text)) then none else some (trim (codes text))
    ]
    else none

-- `packet.task && typeof packet.task === "object"`.
unfoldable pub task_of : Json → Option Json
task_of packet =
    if is_text (property "type" packet) "task_update"
    then elim (property "task" packet) [
      | none ↦ none
      | some task ↦ if truthy task && is_object task then some task else none
    ]
    else none

-- `packet` is `none` where `JSON.parse` throws.
unfoldable pub parse_voice_packet : Option Json → ℕ → String → Option Packet
parse_voice_packet none now fresh_id = none
parse_voice_packet (some packet) now fresh_id = elim (transcript_text packet) [
  | some text ↦ some (Packet.transcript (transcript_of packet text now fresh_id))
  | none ↦ elim (task_of packet) [ some task ↦ some (Packet.task_update task) | none ↦ none ]
]

transcript_text-IsPlain :
    (packet : Json) (text : List ℕ)
    → transcript_text packet ≡ some text
    → (text ≢ []) × StartsPlain text × EndsPlain text
unfolding transcript_text
transcript_text-IsPlain packet text h = elim (Option-cases (as_string (property "text" packet))) [
  | inl missing ↦ ground arith
  | inr (s, found) ↦
      let same : trim (codes s) ≡ text = ground arith in
      let (starts, ends) = trim-IsPlain (codes s) in
      (ground arith, rw (← same) starts, rw (← same) ends)
]

task_of-is_object :
    (packet task : Json)
    → task_of packet ≡ some task
    → (truthy task ≡ true) × (is_object task ≡ true)
unfolding task_of
task_of-is_object packet task h = ground arith

transcript_of-parse :
    (packet : Json) (now : ℕ) (fresh_id : String) (t : Transcript)
    → parse_voice_packet (some packet) now fresh_id ≡ some (Packet.transcript t)
    → transcript_text packet ≡ some t.text
unfolding parse_voice_packet
transcript_of-parse packet now fresh_id t h = ground arith

-- Every transcript that reaches the state has text, with no white space at its ends; every task that
-- reaches it is an object.
pub parse_voice_packet-IsPlain :
    (packet : Option Json) (now : ℕ) (fresh_id : String)
    → ((t : Transcript)
        → parse_voice_packet packet now fresh_id ≡ some (Packet.transcript t)
        → (t.text ≢ []) × StartsPlain t.text × EndsPlain t.text)
      × ((task : Json)
          → parse_voice_packet packet now fresh_id ≡ some (Packet.task_update task)
          → (truthy task ≡ true) × (is_object task ≡ true))
unfolding parse_voice_packet
parse_voice_packet-IsPlain none now fresh_id = (λ t h. ground arith, λ task h. ground arith)
parse_voice_packet-IsPlain (some packet) now fresh_id = (
  λ t h. transcript_text-IsPlain packet t.text (transcript_of-parse packet now fresh_id t h),
  λ task h. task_of-is_object packet task (ground arith),
)
