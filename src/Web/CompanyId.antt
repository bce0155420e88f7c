-- ===== src/Web/CompanyId.antt =====
-- The company ID that is derived from a user is a UUID of version 4.
use ai_voice_assistants.Common.{
  ℕ, zero, suc, ◌-◌, ◌≤◌, ◌≡◌, refl, Bool, true, false, ◌&&◌, ◌||◌, List, [], ◌∷◌, ◌++◌, arith, All,
  All-take, All-drop, leb, length, ◌==◌, take, drop, get_or, length-take_le, length-drop,
}
use ai_voice_assistants.Common.Text.{codes, is_digit}
use ai_voice_assistants.Web.Context.{Crypto, company_id_of, stable_company_id, variant, slice}

-- A lower-case hexadecimal digit.
abbrev pub is_hex : ℕ → Bool
is_hex c = is_digit c || leb b'a' c && leb c b'f'

abbrev pub IsHex : ℕ → Type 0
IsHex c = is_hex c ≡ true

-- The places of a UUID: a digit, a dash, the version, and the digit of the variant.
pub data Place : Type 0 where
  digit dash version variant_digit : Place

abbrev pub fits : Place → ℕ → Bool
fits digit c = is_hex c
fits dash c = c == b'-'
fits version c = c == b'4'
fits variant_digit c = c == b'8' || c == b'9' || c == b'a' || c == b'b'

abbrev pub fits_all : List Place → List ℕ → Bool
fits_all [] [] = true
fits_all (p ∷ ps) (c ∷ s) = fits p c && fits_all ps s
fits_all _ _ = false

abbrev pub digits : ℕ → List Place
digits zero = []
digits (suc n) = digit ∷ digits n

abbrev pub uuid : List Place
uuid =
    digits 8
    ++ (dash ∷ digits 4
        ++ (dash ∷ version ∷ digits 3 ++ (dash ∷ variant_digit ∷ digits 3 ++ (dash ∷ digits 12))))

fits_all-append :
    (ps qs : List Place) (s t : List ℕ)
    → fits_all ps s ≡ true
    → fits_all qs t ≡ true
    → fits_all (ps ++ qs) (s ++ t) ≡ true
fits_all-append [] qs [] t h k = k
fits_all-append [] qs (c ∷ s) t h k = absurd (ground arith)
fits_all-append (p ∷ ps) qs [] t h k = absurd (ground arith)
fits_all-append (p ∷ ps) qs (c ∷ s) t h k = ground (arith, fits_all-append ps qs s t)

fits_all-digits : (n : ℕ) (s : List ℕ) → All IsHex s → length s ≡ n → fits_all (digits n) s ≡ true
fits_all-digits zero [] h e = refl
fits_all-digits zero (c ∷ s) h e = absurd (omega arith)
fits_all-digits (suc n) [] h e = absurd (omega arith)
fits_all-digits (suc n) (c ∷ s) (p, h) e =
    let rest = fits_all-digits n s h (omega arith) in ground arith

module _ (hex : List ℕ) (h : All IsHex hex) (l : length hex ≡ 32) where
  slice-fits :
      (from to : ℕ) → from ≤ to → to ≤ 32 → fits_all (digits (to - from)) (slice from to hex) ≡ true
  slice-fits from to a b =
      fits_all-digits (to - from) (slice from to hex)
        (All-take IsHex (to - from) (drop from hex) (All-drop IsHex from hex h))
        (length-take_le (to - from) (drop from hex) (omega (arith, length-drop from hex)))

  tail-fits : fits_all (digits 12) (drop 20 hex) ≡ true
  tail-fits =
      fits_all-digits 12 (drop 20 hex) (All-drop IsHex 20 hex h) (omega (arith, length-drop 20 hex))

variant-fits : (high low : ℕ) → fits_all (variant_digit ∷ digit ∷ []) (variant high low) ≡ true
variant-fits high low = ground arith

module _ (digest : List ℕ) (h : All IsHex digest) (l : 32 ≤ length digest) where
  company_id_of-fits : fits_all uuid (company_id_of digest) ≡ true
  unfolding company_id_of
  company_id_of-fits =
      let hex = take 32 digest in
      let at = slice-fits hex (All-take IsHex 32 digest h) (length-take_le 32 digest l) in
      let end = dash ∷ digits 12 in
      let ends = tail-fits hex (All-take IsHex 32 digest h) (length-take_le 32 digest l) in
      let pair = variant (get_or 0 hex 16) (get_or 0 hex 17) in
      let t = b'-' ∷ drop 20 hex in
      let step4 =
        fits_all-append (dash ∷ variant_digit ∷ digit ∷ []) (digits 2 ++ end) (b'-' ∷ pair)
          (slice 18 20 hex ++ t) (variant-fits (get_or 0 hex 16) (get_or 0 hex 17))
          (fits_all-append (digits 2) end (slice 18 20 hex) t (at 18 20 (omega arith) (omega arith))
            ends) in
      let end4 = dash ∷ variant_digit ∷ digits 3 ++ end in
      let t4 = b'-' ∷ pair ++ (slice 18 20 hex ++ t) in
      let step3 =
        fits_all-append (dash ∷ version ∷ digits 3) end4 (b'-' ∷ b'4' ∷ slice 13 16 hex) t4
          (at 13 16 (omega arith) (omega arith)) step4 in
      let end3 = dash ∷ version ∷ digits 3 ++ end4 in
      let t3 = b'-' ∷ b'4' ∷ slice 13 16 hex ++ t4 in
      let step2 =
        fits_all-append (dash ∷ digits 4) end3 (b'-' ∷ slice 8 12 hex) t3
          (at 8 12 (omega arith) (omega arith)) step3 in
      fits_all-append (digits 8) (dash ∷ digits 4 ++ end3) (slice 0 8 hex)
        (b'-' ∷ slice 8 12 hex ++ t3) (at 0 8 (omega arith) (omega arith)) step2

-- The digest of SHA-256 in hexadecimal: 64 lower-case digits.
abbrev pub IsDigest : List ℕ → Type 0
IsDigest digest = All IsHex digest × length digest ≡ 64

-- Whoever the user is, the company ID that is derived for them is a UUID of version 4: 8-4-4-4-12
-- lower-case hexadecimal digits, with 4 for the version and 8, 9, a or b for the variant, where
-- SHA-256 in hexadecimal gives 64 such digits.
pub stable_company_id-fits :
    (crypto : Crypto)
    → ((text : List ℕ) → IsDigest (crypto.sha256_hex text))
    → (user_id : List ℕ) → fits_all uuid (stable_company_id crypto user_id) ≡ true
unfolding stable_company_id
stable_company_id-fits crypto law user_id =
    let (hex, len) = law (codes "company:" ++ user_id) in
    company_id_of-fits (crypto.sha256_hex (codes "company:" ++ user_id)) hex (omega arith)
