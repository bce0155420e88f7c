-- ===== src/Web/UriComponent.antt =====
-- `encodeURIComponent`, with which the route handlers put an ID into a path. A text is a list of
-- UTF-16 code units.
use ai_voice_assistants.Common.{
  ℕ, ◌+◌, ◌-◌, ◌*◌, ◌/◌, ◌%◌, ◌≡◌, ◌<◌, refl, subst, Bool, true, ◌&&◌, ◌||◌, Option, none, some,
  List, [], ◌∷◌, ◌++◌, if◌then◌else◌, ◌==◌, ltb, leb, arith, All, All-append, Bool-cases, inl, inr,
}
use ai_voice_assistants.Common.Text.{is_letter, is_digit}

-- The characters that stay as they are.
abbrev pub is_unreserved : ℕ → Bool
is_unreserved c =
    is_letter c
    || is_digit c
    || c == b'-'
    || c == b'_'
    || c == b'.'
    || c == b'!'
    || c == b'~'
    || c == b'*'
    || c == 39
    || c == b'('
    || c == b')'

abbrev pub hex_upper : ℕ → ℕ
hex_upper v = if ltb v 10 then v + 48 else v + 55

abbrev pub percent : ℕ → List ℕ
percent byte = b'%' ∷ hex_upper (byte / 16 % 16) ∷ hex_upper (byte % 16) ∷ []

-- The bytes of a code point in UTF-8.
unfoldable pub utf8 : ℕ → List ℕ
utf8 c =
    if ltb c 0x80
    then c ∷ []
    else if ltb c 0x800
    then (0xc0 + c / 64) ∷ (0x80 + c % 64) ∷ []
    else if ltb c 0x10000
    then (0xe0 + c / 4096) ∷ (0x80 + c / 64 % 64) ∷ (0x80 + c % 64) ∷ []
    else (0xf0 + c / 262144) ∷ (0x80 + c / 4096 % 64) ∷ (0x80 + c / 64 % 64) ∷ (0x80 + c % 64) ∷ []

unfoldable pub escaped : List ℕ → List ℕ
escaped [] = []
escaped (byte ∷ bytes) = percent byte ++ escaped bytes

unfoldable pub encode_point : ℕ → List ℕ
unfolding escaped utf8
encode_point c = if is_unreserved c then c ∷ [] else escaped (utf8 c)

-- A code unit is one of a pair of surrogates, or a code point.
pub data Unit16 : Type 0 where
  low high plain : Unit16

abbrev pub unit_of : ℕ → Unit16
unit_of c =
    if leb 0xdc00 c && leb c 0xdfff
    then low
    else if leb 0xd800 c && leb c 0xdbff
    then high
    else plain

abbrev pub put : List ℕ → Option (List ℕ) → Option (List ℕ)
put front none = none
put front (some rest) = some (front ++ rest)

-- The code point of a pair of surrogates.
abbrev pub point_of : ℕ → ℕ → ℕ
point_of h l = (h - 0xd800) * 0x400 + (l - 0xdc00) + 0x10000

-- The encoding of what follows, perhaps with the first half of a pair before it. `none` is the
-- exception for half a pair.
unfoldable pub encode_from : Option ℕ → List ℕ → Option (List ℕ)
unfolding encode_point
encode_from none [] = some []
encode_from (some h) [] = none
encode_from none (c ∷ s) = elim (unit_of c) [
  | low ↦ none
  | high ↦ encode_from (some c) s
  | plain ↦ put (encode_point c) (encode_from none s)
]
encode_from (some h) (c ∷ s) = elim (unit_of c) [
  | low ↦ put (encode_point (point_of h c)) (encode_from none s)
  | high ↦ none
  | plain ↦ none
]

unfoldable pub encode_uri_component : List ℕ → Option (List ℕ)
unfolding encode_from
encode_uri_component s = encode_from none s

-- A character that stands in an encoded text: none of these separates the parts of a URL.
abbrev pub IsSegmentChar : ℕ → Type 0
IsSegmentChar c = (is_unreserved c || c == b'%') ≡ true

hex_upper-IsSegmentChar : (v : ℕ) → v < 16 → IsSegmentChar (hex_upper v)
hex_upper-IsSegmentChar v h = ground arith

percent-All : (byte : ℕ) → All IsSegmentChar (percent byte)
percent-All byte = (
  refl,
  (
    hex_upper-IsSegmentChar (byte / 16 % 16) (omega arith),
    (hex_upper-IsSegmentChar (byte % 16) (omega arith), tt),
  ),
)

escaped-All : (bytes : List ℕ) → All IsSegmentChar (escaped bytes)
unfolding escaped
escaped-All [] = tt
escaped-All (byte ∷ bytes) =
    All-append IsSegmentChar (percent byte) (escaped bytes) (percent-All byte) (escaped-All bytes)

encode_point-All : (c : ℕ) → All IsSegmentChar (encode_point c)
unfolding encode_point
encode_point-All c = elim (Bool-cases (is_unreserved c)) [
  | inl u ↦ rw u (ground arith)
  | inr u ↦ rw u (escaped-All (utf8 c))
]

abbrev AllEncoded : Option (List ℕ) → Type 0
AllEncoded none = Unit
AllEncoded (some s) = All IsSegmentChar s

put-AllEncoded :
    (front : List ℕ) (rest : Option (List ℕ))
    → All IsSegmentChar front
    → AllEncoded rest
    → AllEncoded (put front rest)
put-AllEncoded front none h k = tt
put-AllEncoded front (some rest) h k = All-append IsSegmentChar front rest h k

encode_from-AllEncoded : (pending : Option ℕ) (s : List ℕ) → AllEncoded (encode_from pending s)
unfolding encode_from
encode_from-AllEncoded none [] = tt
encode_from-AllEncoded (some h) [] = tt
encode_from-AllEncoded none (c ∷ s) =
    elim (unit_of c)
      as (λ u. AllEncoded (elim u as (λ x. Option (List ℕ)) [
        | low ↦ none
        | high ↦ encode_from (some c) s
        | plain ↦ put (encode_point c) (encode_from none s)
      ])) [
        | low ↦ tt
        | high ↦ encode_from-AllEncoded (some c) s
        | plain ↦
            put-AllEncoded (encode_point c) (encode_from none s) (encode_point-All c)
              (encode_from-AllEncoded none s)
      ]
encode_from-AllEncoded (some h) (c ∷ s) =
    elim (unit_of c)
      as (λ u. AllEncoded (elim u as (λ x. Option (List ℕ)) [
        | low ↦ put (encode_point (point_of h c)) (encode_from none s)
        | high ↦ none
        | plain ↦ none
      ])) [
        | low ↦
            put-AllEncoded _ (encode_from none s) (encode_point-All (point_of h c))
              (encode_from-AllEncoded none s)
        | high ↦ tt
        | plain ↦ tt
      ]

-- An encoded text has only letters, digits, percent signs, and some marks: none of the characters
-- that separate the parts of a URL.
pub encode_uri_component-All :
    (s t : List ℕ) → encode_uri_component s ≡ some t → All IsSegmentChar t
unfolding encode_uri_component
encode_uri_component-All s t h = subst (λ o. AllEncoded o) h (encode_from-AllEncoded none s)
