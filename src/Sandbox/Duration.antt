-- ===== src/Sandbox/Duration.antt =====
-- `formatDuration` of frontend/src/components/sandbox/TestingSandboxPage.tsx.
use ai_voice_assistants.Common.{
  ℕ, ◌+◌, ◌*◌, ◌/◌, ◌%◌, ◌<◌, ◌≡◌, refl, List, ◌∷◌, ◌++◌, arith, length, length-append,
}
use ai_voice_assistants.Common.Decimal.{
  decimal, pad, read_number, number_from, read_number-decimal, number_from-decimal, number_from-pad,
  length-pad,
}

unfoldable pub format_duration : ℕ → List ℕ
unfolding decimal
format_duration seconds = pad (decimal (seconds / 60)) ++ b':' ∷ pad (decimal (seconds % 60))

-- Reads minutes, a colon, and seconds.
abbrev pub read_duration : List ℕ → ℕ
read_duration s = let (minutes, rest) = read_number 0 s in minutes * 60 + number_from 0 rest

-- A duration is read back from its text, whatever its length; below a hundred minutes the text has
-- the form "mm:ss".
pub read_duration-format_duration :
    (n : ℕ) → (read_duration (format_duration n) ≡ n) × (n < 6000 → length (format_duration n) ≡ 5)
unfolding format_duration
read_duration-format_duration n = (
  rw (read_number-decimal (n / 60) b':' (pad (decimal (n % 60))) refl).1
      (rw (number_from-pad (decimal (n % 60))) (rw (number_from-decimal (n % 60)) (omega arith))),
  λ h. omega (
    arith,
    length-append (pad (decimal (n / 60))) (b':' ∷ pad (decimal (n % 60))),
    length-pad (n / 60),
    length-pad (n % 60),
  ),
)
