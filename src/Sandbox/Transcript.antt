-- ===== src/Sandbox/Transcript.antt =====
-- A transcript is shown once.
use ai_voice_assistants.Common.{◌≡◌, refl, String, true, Option, arith, Bool-cases, inl, inr}
use ai_voice_assistants.Common.Json.{Json, strict_eq}
use ai_voice_assistants.Sandbox.State.{Session}
use ai_voice_assistants.Sandbox.Packets.{message_id, is_transcript, is_known, transcript_received}

module _ (shown : Option Json → String) where
  -- Once a transcript is shown, or was known, its ID is known.
  received-is_known :
      (packet : Json) (time : String) (s : Session)
      → is_transcript packet ≡ true
      → strict_eq (message_id shown packet) (message_id shown packet) ≡ true
      → is_known shown packet (transcript_received shown packet time s) ≡ true
  unfolding transcript_received
  received-is_known packet time s t e = ground arith

  known-skipped :
      (packet : Json) (time : String) (s : Session)
      → is_known shown packet s ≡ true
      → transcript_received shown packet time s ≡ s
  unfolding transcript_received
  known-skipped packet time s k = elim (Bool-cases (is_transcript packet)) [
    | inl spoken ↦ rw (spoken, k) refl
    | inr other ↦ rw other refl
  ]

  -- A transcript changes nothing once a packet with its ID was received, if the ID is no object;
  -- what the second packet says besides is not read.
  pub transcript_received-again :
      (first second : Json) (time later : String) (s : Session)
      → is_transcript first ≡ true
      → message_id shown second ≡ message_id shown first
      → strict_eq (message_id shown first) (message_id shown first) ≡ true
      → transcript_received shown second later (transcript_received shown first time s)
        ≡ transcript_received shown first time s
  transcript_received-again first second time later s t same e =
      known-skipped second later (transcript_received shown first time s)
        (rw same (received-is_known first time s t e))
