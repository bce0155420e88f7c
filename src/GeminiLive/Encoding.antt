-- ===== src/GeminiLive/Encoding.antt =====
-- What is sent is what is read: the loop over chunks gives all bytes, and decoding undoes encoding.
use ai_voice_assistants.Common.{
  ℕ, zero, suc, ◌+◌, ◌-◌, ◌*◌, ◌/◌, ◌≤◌, ◌<◌, ◌≡◌, refl, sym, ap, ◌∙◌, String, some, List, [], ◌∷◌,
  ◌++◌, length, take, drop, ltb, map, arith, All, Bool-cases, inl, inr, if◌then◌else◌,
}
use mathlib.Core.List.{append_assoc, append-nil}
use ai_voice_assistants.GeminiLive.Pcm.{
  Sample, above, below, min, to_int16, buffer, int16_array, chunk_size, gather, encoded,
  float32_to_base64_pcm, base64_to_int16,
}

drop-length : (n : ℕ) (xs : List ℕ) → length xs ≤ n → drop n xs ≡ []
drop-length zero [] h = refl
drop-length zero (x ∷ xs) h = absurd (omega arith)
drop-length (suc n) [] h = refl
drop-length (suc n) (x ∷ xs) h = drop-length n xs (omega arith)

append-take-drop : (k : ℕ) (xs : List ℕ) → take k xs ++ drop k xs ≡ xs
append-take-drop zero xs = refl
append-take-drop (suc k) [] = refl
append-take-drop (suc k) (x ∷ xs) = ap (λ (ys : List ℕ). x ∷ ys) (append-take-drop k xs)

take-drop : (i k j : ℕ) (xs : List ℕ) → i + k ≡ j → take k (drop i xs) ++ drop j xs ≡ drop i xs
take-drop zero k j xs h = let e : j ≡ k = omega arith in rw e (append-take-drop k xs)
take-drop (suc i) k zero xs h = absurd (omega arith)
take-drop (suc i) zero (suc j) [] h = refl
take-drop (suc i) (suc k) (suc j) [] h = refl
take-drop (suc i) k (suc j) (x ∷ xs) h = take-drop i k j xs (omega arith)

min_add : (i n k : ℕ) → i < n → i + (min (i + k) n - i) ≡ min (i + k) n
min_add i n k h = ground arith

drop-min : (i : ℕ) (xs : List ℕ) → drop (min i (length xs)) xs ≡ drop i xs
drop-min i xs = elim (Bool-cases (ltb i (length xs))) [
  | inl inside ↦ rw inside refl
  | inr past ↦
      rw past (drop-length (length xs) xs (omega arith) ∙ sym (drop-length i xs (ground arith)))
]

-- One round appends the chunk that begins at `i`.
round_lem :
    (i : ℕ) (bytes : List ℕ)
    → i < length bytes
    → take (min (i + chunk_size) (length bytes) - i) (drop i bytes) ++ drop (i + chunk_size) bytes
      ≡ drop i bytes
round_lem i bytes h = rw (← drop-min (i + chunk_size) bytes) (
    take-drop i (min (i + chunk_size) (length bytes) - i) (min (i + chunk_size) (length bytes))
      bytes (min_add i (length bytes) chunk_size h))

-- With more fuel than bytes left, the loop ends, and has appended all of them.
gather_lem :
    (fuel i : ℕ) (bytes binary : List ℕ)
    → 0 < fuel
    → length bytes < fuel + i
    → gather fuel i bytes binary ≡ some (binary ++ drop i bytes)
unfolding gather
gather_lem zero i bytes binary p h = absurd (omega arith)
gather_lem (suc fuel) i bytes binary p h = elim (Bool-cases (ltb i (length bytes))) [
  | inl more ↦ rw more (
      gather_lem fuel (i + chunk_size) bytes
        (binary ++ take (min (i + chunk_size) (length bytes) - i) (drop i bytes)) (ground arith)
        (omega arith)
      ∙ ap some (
          append_assoc binary _ (drop (i + chunk_size) bytes)
          ∙ ap (λ (ys : List ℕ). binary ++ ys) (round_lem i bytes (ground arith))))
  | inr last ↦ rw last (
      ap some (
        sym (append-nil binary)
        ∙ ap (λ (ys : List ℕ). binary ++ ys) (sym (drop-length i bytes (ground arith)))))
]

-- The bytes of a frame come through the loop over chunks as they are, however long the frame is: with
-- as much fuel as there are bytes, and one, the loop ends.
pub gather-all : (bytes : List ℕ) → gather (suc (length bytes)) 0 bytes [] ≡ some bytes
gather-all bytes = gather_lem (suc (length bytes)) 0 bytes [] (omega arith) (omega arith)

int16_array-buffer : (ps : List ℕ) → int16_array (buffer ps) ≡ some ps
unfolding int16_array buffer
int16_array-buffer [] = refl
int16_array-buffer (p ∷ ps) =
    rw (int16_array-buffer ps) (ap (λ (q : ℕ). some (q ∷ ps)) (omega arith))

buffer-All : (ps : List ℕ) → All (λ p. p < 65536) ps → All (λ b. b < 256) (buffer ps)
unfolding buffer
buffer-All [] h = tt
buffer-All (p ∷ ps) (q, h) = (omega arith, (omega arith, buffer-All ps h))

-- Every sample is stored in 16 bits, whatever its size.
to_int16-lt : (x : Sample) → to_int16 x < 65536
unfolding to_int16
to_int16-lt (above n) = ground arith
to_int16-lt (below n) = omega arith

map-to_int16-All : (xs : List Sample) → All (λ p. p < 65536) (map to_int16 xs)
map-to_int16-All [] = tt
map-to_int16-All (x ∷ xs) = (to_int16-lt x, map-to_int16-All xs)

module _ (btoa : List ℕ → String) (atob : String → List ℕ) where
  -- A frame is always encoded, and what is encoded is decoded to the same 16-bit samples, if `atob`
  -- undoes `btoa` on bytes.
  pub base64_to_int16-float32_to_base64_pcm :
      ((bytes : List ℕ) → All (λ b. b < 256) bytes → atob (btoa bytes) ≡ bytes)
      → (input : List Sample)
      → (frame : String) × (float32_to_base64_pcm btoa input ≡ some frame)
        × (base64_to_int16 atob frame ≡ some (map to_int16 input))
  unfolding float32_to_base64_pcm base64_to_int16
  base64_to_int16-float32_to_base64_pcm undoes input = (
    btoa (buffer (map to_int16 input)),
    ap (encoded btoa) (gather-all (buffer (map to_int16 input))),
    rw (undoes _ (buffer-All _ (map-to_int16-All input))) (int16_array-buffer (map to_int16 input)),
  )

-- The signed value of a bit pattern times 32768, as a sample.
abbrev pub value_of : ℕ → Sample
value_of p = if ltb p 32768 then above p else below (65536 - p)

-- A sample that is stored differs from itself, clamped to the range from -1 to 1, by at most
-- 1/32768, and has not changed its sign.
pub to_int16-near :
    (n : ℕ)
    → ((q : ℕ) × (value_of (to_int16 (above n)) ≡ above q)
        × (q ≤ min n 32768)
        × (min n 32768 ≤ q + 1))
      × ((0 < n) → value_of (to_int16 (below n)) ≡ below (min n 32768))
unfolding to_int16
to_int16-near n =
    ((min n 32768 * 32767 / 32768, ground arith, ground arith, ground arith), λ h. ground arith)
