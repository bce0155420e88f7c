-- ===== src/GeminiLive/Tests.antt =====
-- The theorems on the browser-direct voice hook at concrete inputs.
use Prim.Native.Char.{Char, code, nul}
use Prim.Native.Nat.{compare, Ordering}
use mathlib.Core.Path.{ap₂}
use ai_voice_assistants.Common.{
  ℕ, ◌≡◌, refl, String, true, none, some, List, [], ◌∷◌, map, suc, arith, eq_iff, All, ◌<◌,
}
use ai_voice_assistants.Common.Json.{null}
use ai_voice_assistants.Common.Text.{codes, trim}
use ai_voice_assistants.Policy.Turns.{classify_assistant_turn, classify_trimmed, classify_text}
use ai_voice_assistants.GeminiLive.State.{Session, initial}
use ai_voice_assistants.GeminiLive.Pcm.{
  above, below, to_int16, float32_to_base64_pcm, base64_to_int16, gather,
}
use ai_voice_assistants.GeminiLive.Encoding.{gather-all, base64_to_int16-float32_to_base64_pcm}
use ai_voice_assistants.GeminiLive.Calls.{FunctionCall, Stamp}
use ai_voice_assistants.GeminiLive.Connect.{
  user_transcribed, assistant_transcribed, turn_completed, toggle_mute,
}
use ai_voice_assistants.GeminiLive.Events.{
  Platform, Content, Event, play_parts, content_received, step, run,
}
use ai_voice_assistants.GeminiLive.Context.{IsActive, SomeAsks, run-initial-SomeAsks}
use ai_voice_assistants.GeminiLive.Guard.{IsGuarded, run-initial-IsGuarded}

gather-all_example : gather (suc 3) 0 (1 ∷ 2 ∷ 3 ∷ []) [] ≡ some (1 ∷ 2 ∷ 3 ∷ [])
gather-all_example = gather-all (1 ∷ 2 ∷ 3 ∷ [])

abbrev platform : Platform
platform = record {
  patterns = record {
    hard_diversion = [];
    off_topic = [];
    calendar_intent = "book" ∷ [];
    social = [];
    calendar_follow_up = [];
    unclear = [];
    unsupported_language = [];
  };
  test = λ e t. true;
  to_lower = λ t. t;
  atob = codes;
  conflict = λ e. "Slot Conflict";
}

abbrev stamp : Stamp
stamp = record {
  now = 5;
  time = "9:00";
  call_id = "call_5";
  task_id = "task_5";
  action = "a";
  uuid = "u";
}

abbrev call : FunctionCall
call = record { name = "delete_all"; id = some "c1"; args = none }

abbrev events : List Event
events =
    Event.token
    ∷ Event.session
    ∷ Event.calls ((call, stamp) ∷ [])
    ∷ Event.settled 0 null 9 "9:01"
    ∷ []

run-initial-IsGuarded_example : IsGuarded (run platform events initial)
run-initial-IsGuarded_example = run-initial-IsGuarded platform events

-- The user asks for a booking, and says no more.
abbrev asked : Content
asked = record {
  input = ("book", "m1", "9:00");
  output = ("", "m2", "9:00");
  parts = [];
  is_turn_complete = true;
}

abbrev talk : List Event
talk = Event.content asked ∷ Event.mute_toggled ∷ []

talk-IsActive : IsActive (run platform talk initial)
unfolding run step content_received user_transcribed assistant_transcribed play_parts turn_completed
    toggle_mute classify_assistant_turn classify_trimmed classify_text trim
talk-IsActive = ground (arith, eq_iff "book" "")

run-initial-SomeAsks_example : SomeAsks platform talk
run-initial-SomeAsks_example = run-initial-SomeAsks platform talk talk-IsActive

abbrev live : Session
live = record initial { session = some 1; next_play_time = 4800 }

-- A stand-in for base64: each byte as the character with its number.
scalar : (n : ℕ) (o : Ordering) → compare n 55296 ≡ o → Char
scalar n Ordering.lt e = Char.char n (rw e tt)
scalar n Ordering.eq e = nul
scalar n Ordering.gt e = nul

code-scalar : (n : ℕ) (o : Ordering) (e : compare n 55296 ≡ o) → n < 55296 → code (scalar n o e) ≡ n
unfolding scalar
code-scalar n Ordering.lt e h = refl
code-scalar n Ordering.eq e h = absurd (ground arith)
code-scalar n Ordering.gt e h = absurd (ground arith)

btoa : List ℕ → String
btoa [] = ""
btoa (b ∷ bytes) = String.◌∷◌ (scalar b (compare b 55296) refl) (btoa bytes)

codes-btoa : (bytes : List ℕ) → All (λ b. b < 256) bytes → codes (btoa bytes) ≡ bytes
unfolding btoa
codes-btoa [] h = refl
codes-btoa (b ∷ bytes) (small, h) =
    ap₂ ◌∷◌ (code-scalar b (compare b 55296) refl (omega arith)) (codes-btoa bytes h)

base64_to_int16-float32_to_base64_pcm_example :
    (frame : String) × (float32_to_base64_pcm btoa (above 16384 ∷ below 40000 ∷ []) ≡ some frame)
    × (base64_to_int16 codes frame ≡ some (map to_int16 (above 16384 ∷ below 40000 ∷ [])))
base64_to_int16-float32_to_base64_pcm_example =
    base64_to_int16-float32_to_base64_pcm btoa codes codes-btoa (above 16384 ∷ below 40000 ∷ [])
