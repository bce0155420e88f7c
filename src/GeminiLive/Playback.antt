-- ===== src/GeminiLive/Playback.antt =====
-- The audio of the model, in frontend/src/hooks/useGeminiLiveSession.ts: `playAudioChunk`.
use ai_voice_assistants.Common.{
  ℕ, ◌+◌, ◌≤◌, true, false, Option, none, some, List, [], ◌∷◌, if◌then◌else◌, leb, length, is_some,
  Bool, not, ◌&&◌, String, arith,
}
use ai_voice_assistants.GeminiLive.State.{Session, Chunk}
use ai_voice_assistants.GeminiLive.Pcm.{base64_to_int16}

abbrev max : ℕ → ℕ → ℕ
max a b = if leb a b then b else a

abbrev pub schedule : ℕ → ℕ → Session → Session
schedule now samples s =
    let start : ℕ = max now s.next_play_time in
    record s {
      next_play_time = start + samples;
      is_bot_speaking = true;
      chunks = record { start = start; samples = samples } ∷ s.chunks;
    }

-- The samples that were decoded. Where the bytes are odd in number the array throws, and where there
-- are none the buffer does: nothing is played.
abbrev pub played : Option (List ℕ) → ℕ → Session → Session
played none now s = s
played (some []) now s = s
played (some (v ∷ pcm)) now s = schedule now (length (v ∷ pcm)) s

abbrev pub is_playable : Option (List ℕ) → Bool
is_playable none = false
is_playable (some []) = false
is_playable (some (v ∷ pcm)) = true

-- Whether `playAudioChunk` throws: it returns at once where there is no audio context.
unfoldable pub throws : (String → List ℕ) → String → Session → Bool
unfolding base64_to_int16
throws atob base64 s = is_some s.audio_context && not (is_playable (base64_to_int16 atob base64))

-- `now`: the time of the audio context.
unfoldable pub play_audio_chunk : (String → List ℕ) → String → ℕ → Session → Session
unfolding base64_to_int16
play_audio_chunk atob base64 now s =
    if is_some s.audio_context then played (base64_to_int16 atob base64) now s else s

-- A chunk has ended: within 0.05 seconds of the end of the last, the model has stopped speaking.
unfoldable pub chunk_ended : ℕ → Session → Session
chunk_ended now s =
    if leb s.next_play_time (now + 1200) then record s { is_bot_speaking = false } else s

-- The chunks, newest first, follow one another without overlap, and end by `until`.
abbrev pub IsInOrder : ℕ → List Chunk → Type 0
IsInOrder until [] = Unit
IsInOrder until (c ∷ cs) = (c.start + c.samples ≤ until) × IsInOrder c.start cs

IsInOrder-le : (a b : ℕ) (cs : List Chunk) → a ≤ b → IsInOrder a cs → IsInOrder b cs
IsInOrder-le a b [] h v = tt
IsInOrder-le a b (c ∷ cs) h (ends, v) = (omega arith, v)

abbrev pub Orderly : Session → Type 0
Orderly s = IsInOrder s.next_play_time s.chunks

-- A new chunk starts when it arrives or when the last one ends, whichever is later.
pub played-Orderly :
    (pcm : Option (List ℕ)) (now : ℕ) (s : Session) → Orderly s → Orderly (played pcm now s)
played-Orderly none now s v = v
played-Orderly (some []) now s v = v
played-Orderly (some (x ∷ pcm)) now s v =
    (omega arith, IsInOrder-le s.next_play_time _ s.chunks (ground arith) v)
