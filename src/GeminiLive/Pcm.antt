-- ===== src/GeminiLive/Pcm.antt =====
-- The audio samples of frontend/src/hooks/useGeminiLiveSession.ts: `float32ToBase64PCM` and
-- `base64ToInt16`. A sample is a multiple of 1/32768, as a microphone of 16 bits gives it, and may
-- lie beyond 1; a value of an Int16Array is its bit pattern. `btoa` and `atob` are parameters.
use ai_voice_assistants.Common.{
  ℕ, zero, suc, ◌+◌, ◌-◌, ◌*◌, ◌/◌, ◌%◌, String, Option, none, some, List, [], ◌∷◌, ◌++◌,
  if◌then◌else◌, length, take, drop, ltb, map,
}

pub data Sample : Type 0 where
  above below : ℕ → Sample

abbrev pub min : ℕ → ℕ → ℕ
min a b = if ltb a b then a else b

-- One round of the first loop: the clamp, the scale, and the store, which drops the fraction.
unfoldable pub to_int16 : Sample → ℕ
to_int16 (above n) = min n 32768 * 32767 / 32768
to_int16 (below n) = (65536 - min n 32768) % 65536

-- The bytes of an Int16Array, in the order of the machine.
unfoldable pub buffer : List ℕ → List ℕ
buffer [] = []
buffer (p ∷ ps) = p % 256 ∷ p / 256 ∷ buffer ps

-- `new Int16Array(buffer)`, which throws where a byte is left over.
unfoldable pub int16_array : List ℕ → Option (List ℕ)
int16_array [] = some []
int16_array (a ∷ []) = none
int16_array (a ∷ b ∷ bytes) = elim (int16_array bytes) [
  | none ↦ none
  | some ps ↦ some ((a + b * 256) ∷ ps)
]

abbrev pub chunk_size : ℕ
chunk_size = 0x8000

-- The second loop, from `i` on, with fuel; `none` means that the fuel ran out.
unfoldable pub gather : ℕ → ℕ → List ℕ → List ℕ → Option (List ℕ)
gather zero i bytes binary = none
gather (suc fuel) i bytes binary =
    let rest =
      gather fuel (i + chunk_size) bytes
        (binary ++ take (min (i + chunk_size) (length bytes) - i) (drop i bytes)) in
    if ltb i (length bytes) then rest else some binary

abbrev pub encoded : (List ℕ → String) → Option (List ℕ) → Option String
encoded btoa none = none
encoded btoa (some binary) = some (btoa binary)

-- The fuel is the number of bytes, and one for the last test.
unfoldable pub float32_to_base64_pcm : (List ℕ → String) → List Sample → Option String
unfolding to_int16 buffer gather
float32_to_base64_pcm btoa input =
    let bytes : List ℕ = buffer (map to_int16 input) in
    encoded btoa (gather (suc (length bytes)) 0 bytes [])

unfoldable pub base64_to_int16 : (String → List ℕ) → String → Option (List ℕ)
unfolding int16_array
base64_to_int16 atob base64 = int16_array (atob base64)
