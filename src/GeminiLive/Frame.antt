-- ===== src/GeminiLive/Frame.antt =====
-- What the transcripts, the end of a turn, and the end of a chunk leave alone, and a rule for a
-- predicate that a server content keeps, in frontend/src/hooks/useGeminiLiveSession.ts.
use ai_voice_assistants.Common.{
  ℕ, ◌≡◌, refl, Bool, not, ◌&&◌, true, false, Option, List, [], ◌∷◌, String, arith, Bool-cases, inl,
  inr, str_eq, is_some,
}
use ai_voice_assistants.GeminiLive.State.{Session}
use ai_voice_assistants.GeminiLive.Pcm.{base64_to_int16}
use ai_voice_assistants.GeminiLive.Playback.{play_audio_chunk, chunk_ended, played, throws}
use ai_voice_assistants.GeminiLive.Connect.{user_transcribed, assistant_transcribed, turn_completed}
use ai_voice_assistants.GeminiLive.Events.{
  Platform, Content, play_parts, parts_throw, complete_if, content_received,
}

-- The second state differs from the first in what is shown only.
abbrev pub Untouched : Session → Session → Type 0
Untouched s s' =
    (s'.chunks ≡ s.chunks)
    × (s'.next_play_time ≡ s.next_play_time)
    × (s'.requested ≡ s.requested)
    × (s'.waiting ≡ s.waiting)
    × (s'.replies ≡ s.replies)
    × (s'.processor ≡ s.processor)
    × (s'.frames ≡ s.frames)

abbrev all_same : (s : Session) → Untouched s s
all_same s = (refl, refl, refl, refl, refl, refl, refl)

user_transcribed-Untouched :
    (p : Platform) (text id time : String) (s : Session)
    → Untouched s (user_transcribed p.patterns p.test p.to_lower text id time s)
unfolding user_transcribed
user_transcribed-Untouched p text id time s = elim (Bool-cases (str_eq text "")) [
  | inl skipped ↦ rw skipped (all_same s)
  | inr said ↦ rw said (all_same s)
]

assistant_transcribed-Untouched :
    (text id time : String) (s : Session) → Untouched s (assistant_transcribed text id time s)
unfolding assistant_transcribed
assistant_transcribed-Untouched text id time s = elim (Bool-cases (str_eq text "")) [
  | inl skipped ↦ rw skipped (all_same s)
  | inr said ↦ rw said (all_same s)
]

complete_if-Untouched : (b : Bool) (s : Session) → Untouched s (complete_if b s)
unfolding turn_completed
complete_if-Untouched true s = all_same s
complete_if-Untouched false s = all_same s

pub chunk_ended-Untouched : (n : ℕ) (s : Session) → Untouched s (chunk_ended n s)
unfolding chunk_ended
chunk_ended-Untouched n s = grind arith

module _ {ℓ} (P : Session → Type ℓ) (kept : (s s' : Session) → Untouched s s' → P s → P s')
    (sounds : (pcm : Option (List ℕ)) (now : ℕ) (s : Session) → P s → P (played pcm now s)) where
  play_audio_chunk-keeps :
      (atob : String → List ℕ) (base64 : String) (now : ℕ) (s : Session)
      → P s
      → P (play_audio_chunk atob base64 now s)
  unfolding play_audio_chunk
  play_audio_chunk-keeps atob base64 now s v = elim (Bool-cases (is_some s.audio_context)) [
    | inl on ↦ rw on (sounds (base64_to_int16 atob base64) now s v)
    | inr off ↦ rw off v
  ]

  play_parts-keeps :
      (p : Platform) (parts : List (String × ℕ)) (s : Session) → P s → P (play_parts p parts s)
  unfolding play_parts
  play_parts-keeps p [] s v = v
  play_parts-keeps p ((base64, now) ∷ parts) s v = elim (Bool-cases (throws p.atob base64 s)) [
    | inl thrown ↦ rw thrown v
    | inr fine ↦ rw fine (
        play_parts-keeps p parts (play_audio_chunk p.atob base64 now s)
          (play_audio_chunk-keeps p.atob base64 now s v))
  ]

  -- A server content keeps a predicate that speaks of nothing but what is untouched, if playing a
  -- chunk keeps it.
  pub content_received-keeps :
      (p : Platform) (c : Content) (s : Session) → P s → P (content_received p c s)
  unfolding content_received
  content_received-keeps p c s v =
      let heard : Session =
        user_transcribed p.patterns p.test p.to_lower c.input.0 c.input.1 c.input.2 s in
      let said : Session = assistant_transcribed c.output.0 c.output.1 c.output.2 heard in
      let g : P heard =
        kept s heard (user_transcribed-Untouched p c.input.0 c.input.1 c.input.2 s) v in
      let h : P said =
        kept heard said (assistant_transcribed-Untouched c.output.0 c.output.1 c.output.2 heard)
          g in
      let sounded : Session = play_parts p c.parts said in
      let completes : Bool = c.is_turn_complete && not (parts_throw p c.parts said) in
      kept sounded (complete_if completes sounded) (complete_if-Untouched completes sounded)
        (play_parts-keeps p c.parts said h)
