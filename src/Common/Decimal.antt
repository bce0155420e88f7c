-- ===== src/Common/Decimal.antt =====
-- Numbers as decimal texts: `String(n)` of a natural number, `padStart(2, "0")`, and how a text of
-- digits is read.
use Prim.Native.Nat.{ℕ, zero, suc, ◌+◌, ◌*◌, ◌-◌, ◌/◌, ◌%◌, ◌<◌}
use mathlib.Core.Path.{◌≡◌, refl, ◌∙◌, ap}
use mathlib.Core.Bool.{Bool, true, false, ◌&&◌}
use mathlib.Core.Logic.{dite, dif_pos, dif_neg}
use mathlib.Core.List.{List, [], ◌∷◌, ◌++◌}
use mathlib.Core.WellFounded.{Acc, WellFounded}
use native.Mathlib.Decide.{dec_lt}
use native.Mathlib.Bridge.{le_prop}
use native.Mathlib.Omega.{arith}
use ai_voice_assistants.Common.Tests.{◌==◌, if◌then◌else◌}
use ai_voice_assistants.Common.Text.{is_digit}
use ai_voice_assistants.Common.Lists.{All, All-append, length}

tenth-lt : (n : ℕ) → 0 < n → n / 10 < n
tenth-lt n h = omega arith

Acc-below : (k n : ℕ) → n < k → Acc ◌<◌ n
Acc-below zero n h = absurd (omega arith)
Acc-below (suc k) n h = Acc.intro n (λ m lt. Acc-below k m (omega arith))

lt_wf : WellFounded ◌<◌
unfolding Acc-below
lt_wf = record { apply = λ n. Acc-below (suc n) n (omega arith) }

-- The digits of a number, and none for zero: each round takes the last one off.
digits : (n : ℕ) → Acc ◌<◌ n → List ℕ
digits n (Acc.intro _ smaller) =
    dite (dec_lt 0 n)
      (λ h. digits (n / 10) (smaller (n / 10) (tenth-lt n h)) ++ (b'0' + n % 10) ∷ []) (λ _. [])

abbrev or_zero : List ℕ → List ℕ
or_zero [] = b'0' ∷ []
or_zero (c ∷ s) = c ∷ s

unfoldable pub decimal : ℕ → List ℕ
unfolding digits lt_wf dec_lt tenth-lt
decimal n = or_zero (digits n (lt_wf.apply n))

abbrev pub pad : List ℕ → List ℕ
pad [] = b'0' ∷ b'0' ∷ []
pad (c ∷ []) = b'0' ∷ c ∷ []
pad s = s

-- Reads digits from the left.
abbrev pub number_from : ℕ → List ℕ → ℕ
number_from n [] = n
number_from n (c ∷ s) = number_from (n * 10 + (c - b'0')) s

abbrev pub IsDigit : ℕ → Type 0
IsDigit c = is_digit c ≡ true

number_from-append :
    (n : ℕ) (s t : List ℕ) → number_from n (s ++ t) ≡ number_from (number_from n s) t
number_from-append n [] t = refl
number_from-append n (c ∷ s) t = number_from-append (n * 10 + (c - b'0')) s t

number_from-digits : (n : ℕ) (w : Acc ◌<◌ n) → number_from 0 (digits n w) ≡ n
unfolding digits
number_from-digits n (Acc.intro _ smaller) = elim (dec_lt 0 n) [
  | yes h ↦ rw (dif_pos (dec_lt 0 n) le_prop h _ _) (
      number_from-append 0 (digits (n / 10) (smaller (n / 10) (tenth-lt n h)))
        ((b'0' + n % 10) ∷ [])
      ∙ rw (number_from-digits (n / 10) (smaller (n / 10) (tenth-lt n h))) (omega arith))
  | no h ↦ rw (dif_neg (dec_lt 0 n) h _ _) (omega arith)
]

number_from-or_zero : (s : List ℕ) → number_from 0 (or_zero s) ≡ number_from 0 s
number_from-or_zero [] = refl
number_from-or_zero (c ∷ s) = refl

or_zero-All : (s : List ℕ) → All IsDigit s → All IsDigit (or_zero s)
or_zero-All [] h = (refl, tt)
or_zero-All (c ∷ s) h = h

pub number_from-decimal : (n : ℕ) → number_from 0 (decimal n) ≡ n
unfolding decimal
number_from-decimal n =
    number_from-or_zero (digits n (lt_wf.apply n)) ∙ number_from-digits n (lt_wf.apply n)

digits-All : (n : ℕ) (w : Acc ◌<◌ n) → All IsDigit (digits n w)
unfolding digits
digits-All n (Acc.intro _ smaller) = elim (dec_lt 0 n) [
  | yes h ↦ rw (dif_pos (dec_lt 0 n) le_prop h _ _) (
      All-append IsDigit _ _ (digits-All (n / 10) (smaller (n / 10) (tenth-lt n h)))
        (ground arith, tt))
  | no h ↦ rw (dif_neg (dec_lt 0 n) h _ _) tt
]

pub decimal-All : (n : ℕ) → All IsDigit (decimal n)
unfolding decimal
decimal-All n = or_zero-All _ (digits-All n (lt_wf.apply n))

pub pad-All : (s : List ℕ) → All IsDigit s → All IsDigit (pad s)
pad-All [] h = (refl, (refl, tt))
pad-All (c ∷ []) h = (refl, h)
pad-All (c ∷ d ∷ s) h = h

pub number_from-pad : (s : List ℕ) → number_from 0 (pad s) ≡ number_from 0 s
number_from-pad [] = refl
number_from-pad (c ∷ []) = refl
number_from-pad (c ∷ d ∷ s) = refl

-- The number that a text begins with, and what follows its first character that is no digit.
unfoldable pub read_number : ℕ → List ℕ → ℕ × List ℕ
read_number n [] = (n, [])
read_number n (c ∷ s) =
    let more = read_number (n * 10 + (c - b'0')) s in if is_digit c then more else (n, s)

pub read_number-append :
    (n : ℕ) (s : List ℕ) (c : ℕ) (rest : List ℕ)
    → All IsDigit s
    → is_digit c ≡ false
    → read_number n (s ++ c ∷ rest) ≡ (number_from n s, rest)
unfolding read_number
read_number-append n [] c rest h k = rw k refl
read_number-append n (d ∷ s) c rest (p, h) k =
    rw p (read_number-append (n * 10 + (d - b'0')) s c rest h k)

-- What is printed, padded, and followed by anything but a digit is read back.
pub read_number-decimal :
    (n c : ℕ) (rest : List ℕ)
    → is_digit c ≡ false
    → (read_number 0 (decimal n ++ c ∷ rest) ≡ (n, rest))
      × (read_number 0 (pad (decimal n) ++ c ∷ rest) ≡ (n, rest))
read_number-decimal n c rest k = (
  rw (read_number-append 0 (decimal n) c rest (decimal-All n) k)
      (ap (λ m. (m, rest)) (number_from-decimal n)),
  rw (read_number-append 0 (pad (decimal n)) c rest (pad-All _ (decimal-All n)) k)
      (ap (λ m. (m, rest)) (number_from-pad (decimal n) ∙ number_from-decimal n)),
)

abbrev width : ℕ → ℕ
width n = length (pad (decimal n))

-- Whether every number below `k` is padded to two digits.
are_padded : ℕ → Bool
are_padded zero = true
are_padded (suc k) = are_padded k && (width k == 2)

length-are_padded : (k n : ℕ) → are_padded k ≡ true → n < k → width n ≡ 2
unfolding are_padded
length-are_padded (suc k) n all below = ground (arith, length-are_padded k n)
length-are_padded zero n all below = absurd (omega arith)

padded_to_hundred : are_padded 100 ≡ true
unfolding are_padded decimal
padded_to_hundred = refl

-- Below a hundred, a padded number has two digits.
pub length-pad : (n : ℕ) → n < 100 → length (pad (decimal n)) ≡ 2
length-pad n below = length-are_padded 100 n padded_to_hundred below
