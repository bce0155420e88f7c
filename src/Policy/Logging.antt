-- ===== src/Policy/Logging.antt =====
-- frontend/src/lib/safeLogging.ts: only the type of an error is logged.
use ai_voice_assistants.Common.{
  ℕ, ◌≤◌, ◌≡◌, ◌⊎◌, inl, inr, refl, Bool, true, false, ◌&&◌, ◌||◌, Option, none, some, List, [],
  ◌∷◌, arith, all, leb, length, if◌then◌else◌, ◌==◌, Bool-cases,
}
use ai_voice_assistants.Common.Text.{codes, is_letter, is_digit}

-- `[A-Za-z0-9_]`.
abbrev pub is_word : ℕ → Bool
is_word c = is_letter c || is_digit c || c == b'_'

-- `^[A-Za-z][A-Za-z0-9_]{0,63}$`.
unfoldable pub is_type_name : List ℕ → Bool
is_type_name [] = false
is_type_name (c ∷ s) = is_letter c && all is_word s && leb (length s) 63

-- The name of the error, or `none` if what was thrown is no error.
unfoldable pub safe_error_type : Option (List ℕ) → List ℕ
unfolding is_type_name
safe_error_type none = codes "NonError"
safe_error_type (some name) = if is_type_name name then name else codes "Error"

pub data Level : Type 0 where
  error warn : Level

-- What `logSafeFailure` writes: to which console, the label, and the metadata.
pub record Entry : Type 0 where
  pub level : Level
  pub label : List ℕ
  pub error_type : List ℕ

unfoldable pub log_safe_failure : List ℕ → Option (List ℕ) → Level → Entry
unfolding safe_error_type
log_safe_failure label thrown level = record {
  level = level;
  label = label;
  error_type = safe_error_type thrown;
}

length-type_name : (s : List ℕ) → is_type_name s ≡ true → length s ≤ 64
unfolding is_type_name
length-type_name [] h = ground arith
length-type_name (c ∷ s) h = ground arith

-- Whatever is thrown, the logged type is a name of at most 64 letters, digits and underscores that
-- begins with a letter; a proper name is logged as it is, and any other text, which might carry user
-- data, is not logged.
pub log_safe_failure-is_type_name :
    (label : List ℕ) (thrown : Option (List ℕ)) (level : Level)
    → (is_type_name (log_safe_failure label thrown level).error_type ≡ true)
      × (length (log_safe_failure label thrown level).error_type ≤ 64)
      × ((name : List ℕ)
          → thrown ≡ some name
          → ((log_safe_failure label thrown level).error_type ≡ name)
            ⊎ ((is_type_name name ≡ false)
                × ((log_safe_failure label thrown level).error_type ≡ codes "Error")))
unfolding log_safe_failure
log_safe_failure-is_type_name label none level = (refl, ground arith, λ name e. ground arith)
log_safe_failure-is_type_name label (some s) level = elim (Bool-cases (is_type_name s)) [
  | inl proper ↦ rw proper (proper, length-type_name s proper, λ name e. inl (ground arith))
  | inr other ↦ rw other (refl, ground arith, λ name e. inr (ground arith, refl))
]
