-- ===== src/Common/Text.antt =====
-- Texts as lists of code units, for the code that walks them.
use Prim.Native.Char.{code}
use Prim.Native.Nat.{ℕ, ◌+◌}
use Prim.Native.String.{String}
use mathlib.Core.Bool.{Bool, ◌&&◌, ◌||◌}
use mathlib.Core.List.{List, [], ◌∷◌, ◌++◌}
use mathlib.Core.Path.{◌≡◌}
use mathlib.Core.Logic.{inl, inr}
use mathlib.Core.Bool.{true, false}
use ai_voice_assistants.Common.Tests.{◌==◌, leb, if◌then◌else◌, Bool-cases}

abbrev pub codes : String → List ℕ
codes String.[] = []
codes (String.◌∷◌ c s) = code c ∷ codes s

abbrev pub is_upper : ℕ → Bool
is_upper c = leb b'A' c && leb c b'Z'

abbrev pub is_lower : ℕ → Bool
is_lower c = leb b'a' c && leb c b'z'

abbrev pub is_digit : ℕ → Bool
is_digit c = leb b'0' c && leb c b'9'

abbrev pub is_letter : ℕ → Bool
is_letter c = is_upper c || is_lower c

-- `toLowerCase` on a code unit. Of the letters outside ASCII only the Kelvin sign and the dotted
-- capital I have an ASCII letter in their lower case; the others are left as they are.
abbrev pub lower : ℕ → List ℕ
lower c =
    if is_upper c
    then (c + 32) ∷ []
    else if c == 0x212a
    then b'k' ∷ []
    else if c == 0x130
    then b'i' ∷ 0x307 ∷ []
    else c ∷ []

unfoldable pub to_lower_case : List ℕ → List ℕ
to_lower_case [] = []
to_lower_case (c ∷ s) = lower c ++ to_lower_case s

-- The white space that `trim` removes.
abbrev pub is_space : ℕ → Bool
is_space c =
    leb 9 c && leb c 13
    || c == 32
    || c == 0xa0
    || c == 0x1680
    || leb 0x2000 c && leb c 0x200a
    || c == 0x2028
    || c == 0x2029
    || c == 0x202f
    || c == 0x205f
    || c == 0x3000
    || c == 0xfeff

-- `trim`.
unfoldable pub trim_start : List ℕ → List ℕ
trim_start [] = []
trim_start (c ∷ s) = let rest = trim_start s in if is_space c then rest else c ∷ s

abbrev pub put_before : ℕ → List ℕ → List ℕ
put_before c [] = if is_space c then [] else c ∷ []
put_before c (d ∷ s) = c ∷ d ∷ s

unfoldable pub trim_end : List ℕ → List ℕ
trim_end [] = []
trim_end (c ∷ s) = put_before c (trim_end s)

unfoldable pub trim : List ℕ → List ℕ
unfolding trim_start trim_end
trim s = trim_end (trim_start s)

abbrev pub is_empty : List ℕ → Bool
is_empty [] = true
is_empty (c ∷ s) = false

-- `!text.trim()`.
unfoldable pub is_blank : String → Bool
unfolding trim
is_blank text = is_empty (trim (codes text))

-- A text that neither begins nor ends with white space.
abbrev pub StartsPlain : List ℕ → Type 0
StartsPlain [] = Unit
StartsPlain (c ∷ s) = is_space c ≡ false

abbrev pub EndsPlain : List ℕ → Type 0
EndsPlain [] = Unit
EndsPlain (c ∷ []) = is_space c ≡ false
EndsPlain (c ∷ d ∷ s) = EndsPlain (d ∷ s)

trim_start-StartsPlain : (s : List ℕ) → StartsPlain (trim_start s)
unfolding trim_start
trim_start-StartsPlain [] = tt
trim_start-StartsPlain (c ∷ s) = elim (Bool-cases (is_space c)) [
  | inl space ↦ rw space (trim_start-StartsPlain s)
  | inr plain ↦ rw plain plain
]

put_before-EndsPlain : (c : ℕ) (s : List ℕ) → EndsPlain s → EndsPlain (put_before c s)
put_before-EndsPlain c [] h = elim (Bool-cases (is_space c)) [
  | inl space ↦ rw space tt
  | inr plain ↦ rw plain plain
]
put_before-EndsPlain c (d ∷ s) h = h

trim_end-EndsPlain : (s : List ℕ) → EndsPlain (trim_end s)
unfolding trim_end
trim_end-EndsPlain [] = tt
trim_end-EndsPlain (c ∷ s) = put_before-EndsPlain c (trim_end s) (trim_end-EndsPlain s)

put_before-StartsPlain : (c : ℕ) (s : List ℕ) → is_space c ≡ false → StartsPlain (put_before c s)
put_before-StartsPlain c [] h = rw h h
put_before-StartsPlain c (d ∷ s) h = h

trim_end-StartsPlain : (s : List ℕ) → StartsPlain s → StartsPlain (trim_end s)
unfolding trim_end
trim_end-StartsPlain [] h = tt
trim_end-StartsPlain (c ∷ s) h = put_before-StartsPlain c (trim_end s) h

pub trim-IsPlain : (s : List ℕ) → StartsPlain (trim s) × EndsPlain (trim s)
unfolding trim
trim-IsPlain s = (
  trim_end-StartsPlain (trim_start s) (trim_start-StartsPlain s),
  trim_end-EndsPlain (trim_start s),
)
