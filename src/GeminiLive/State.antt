-- ===== src/GeminiLive/State.antt =====
-- The state of frontend/src/hooks/useGeminiLiveSession.ts. Sessions, streams and nodes are numbers,
-- given out by `next`. Times of the audio clock are counted in samples at 24 kHz.
use ai_voice_assistants.Common.{ℕ, String, Bool, true, false, Option, none, List, []}
use ai_voice_assistants.Common.Json.{Json}
use ai_voice_assistants.Policy.Turns.{Decision}
use ai_voice_assistants.Policy.Tools.{Keys}

pub data Status : Type 0 where
  disconnected connecting connected error : Status

pub data Speaker : Type 0 where
  user assistant : Speaker

pub record Message : Type 0 where
  pub id : String
  pub speaker : Speaker
  pub text : String
  pub timestamp : String

pub data TaskStatus : Type 0 where
  running completed pending failed : TaskStatus

-- `title`: what follows the tool's name in the title. The last three are written when the call is
-- answered.
pub record Task : Type 0 where
  pub id : String
  pub title : Json
  pub tool_name : String
  pub status : TaskStatus
  pub output : Option Json
  pub error_message : Option Json
  pub execution_time_ms : Option Json
  pub updated_at : String

-- A tool call that is not answered yet: what its closure holds.
pub record Pending : Type 0 where
  pub task_id : String
  pub call_id : String
  pub name : String
  pub is_denied : Bool
  pub started_at : ℕ

-- A function response that was sent to the model.
pub record Reply : Type 0 where
  pub call_id : String
  pub name : String
  pub output : Json

-- A chunk of audio: when it starts, and its samples.
pub record Chunk : Type 0 where
  pub start : ℕ
  pub samples : ℕ

-- The audio processor of a call of `connect`, whose closure holds the mute of that time.
pub record Processor : Type 0 where
  pub node : ℕ
  pub is_muted : Bool

pub record Session : Type 0 where
  pub connection_status : Status
  pub is_muted : Bool
  pub is_hands_free : Bool
  pub is_bot_speaking : Bool
  pub is_user_speaking : Bool
  pub messages : List Message
  pub tasks : List Task
  pub session : Option ℕ
  pub audio_context : Option ℕ
  pub mic_stream : Option ℕ
  pub processor : Option Processor
  pub source : Option ℕ
  pub keys : Keys
  pub scope_decision : Option Decision
  pub next_play_time : ℕ
  -- whether the tracks of the microphone are enabled
  pub is_mic_enabled : Bool
  pub next : ℕ
  -- what has left the hook, newest first: the tools that the backend was asked to run, the replies
  -- to the model, the chunks that were scheduled, and the sizes of the frames that were sent
  pub requested : List String
  pub replies : List Reply
  pub chunks : List Chunk
  pub frames : List ℕ
  -- the calls that are not answered yet, newest first
  pub waiting : List Pending

abbrev pub initial : Session
initial = record {
  connection_status = Status.disconnected;
  is_muted = false;
  is_hands_free = true;
  is_bot_speaking = false;
  is_user_speaking = false;
  messages = [];
  tasks = [];
  session = none;
  audio_context = none;
  mic_stream = none;
  processor = none;
  source = none;
  keys = [];
  scope_decision = none;
  next_play_time = 0;
  is_mic_enabled = true;
  next = 0;
  requested = [];
  replies = [];
  chunks = [];
  frames = [];
  waiting = [];
}
