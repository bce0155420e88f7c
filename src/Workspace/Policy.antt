-- ===== src/Workspace/Policy.antt =====
-- The language policy that the pages of frontend/src/App.tsx load and edit is always one that the
-- compiler of profiles accepts.
use ai_voice_assistants.Common.{
  ◌≡◌, refl, String, Bool, true, false, not, ◌||◌, Option, none, some, List, [], ◌∷◌, ◌++◌, arith,
  any, str_eq, eq_iff, eq_refl, if◌then◌else◌, keep, Bool-cases, inl, inr,
}
use ai_voice_assistants.Common.Json.{Json, str, as_array}
use ai_voice_assistants.Capabilities.Sets.{
  includes, distinct, distinct_from, has_duplicates, distinct_unique, includes-distinct,
  includes-append,
}
use ai_voice_assistants.Capabilities.Registry.{supported_languages}
use ai_voice_assistants.Capabilities.Compile.{check_languages, ok, with_default}
use ai_voice_assistants.Capabilities.Languages.{AreSafe, check_languages-AreSafe}
use ai_voice_assistants.Workspace.Languages.{
  is_language, read_response_language, languages_of, listed, read_allowed_languages, Policy,
  choose_default, check_language,
}

abbrev is_foreign : String → Bool
is_foreign language = not (includes language supported_languages)

abbrev IsSafePolicy : Policy → Type 0
IsSafePolicy (default, allowed) = AreSafe default allowed

any-append : (p : String → Bool) (xs ys : List String) → any p (xs ++ ys) ≡ (any p xs || any p ys)
any-append p [] ys = refl
any-append p (x ∷ xs) ys = ground (arith, any-append p xs ys)

any-distinct_from :
    (p : String → Bool) (seen xs : List String)
    → any p xs ≡ false
    → any p (distinct_from seen xs) ≡ false
unfolding distinct_from
any-distinct_from p seen [] h = refl
any-distinct_from p seen (x ∷ xs) h = elim (Bool-cases (includes x seen)) [
  | inl old ↦ ground (arith, any-distinct_from p seen xs)
  | inr new ↦ ground (arith, any-distinct_from p (x ∷ seen) xs)
]

any-keep : (p q : String → Bool) (xs : List String) → any p xs ≡ false → any p (keep q xs) ≡ false
unfolding keep
any-keep p q [] h = refl
any-keep p q (x ∷ xs) h = ground (arith, any-keep p q xs)

includes-keep :
    (s l : String) (xs : List String)
    → str_eq s l ≡ false
    → includes s (keep (λ x. not (str_eq x l)) xs) ≡ includes s xs
unfolding keep
includes-keep s l [] h = refl
includes-keep s l (x ∷ xs) h =
    ground (arith, eq_iff x s, eq_iff x l, eq_iff s l, includes-keep s l xs)

has_duplicates-append :
    (x : String) (xs : List String)
    → includes x xs ≡ false
    → has_duplicates xs ≡ false
    → has_duplicates (xs ++ x ∷ []) ≡ false
unfolding has_duplicates
has_duplicates-append x [] h k = refl
has_duplicates-append x (y ∷ xs) h k =
    ground
      (arith, eq_iff x y, eq_iff y x, includes-append y xs (x ∷ []), has_duplicates-append x xs)

-- A policy that is safe is accepted, as it is.
check_languages_of_safe :
    (default : String) (allowed : List String)
    → AreSafe default allowed
    → check_languages default allowed ≡ ok allowed
unfolding check_languages
check_languages_of_safe default [] v = absurd (ground (arith, v.listed))
check_languages_of_safe default (l ∷ ls) v =
    ground (arith, v.default_supported, v.once, v.supported, v.listed)

is_language-supported : (s : String) → is_language s ≡ true → is_foreign s ≡ false
is_language-supported s h = ground (
  arith,
  eq_iff s "fr-FR",
  eq_iff s "fr-BE",
  eq_iff s "en",
  eq_iff "fr-FR" s,
  eq_iff "fr-BE" s,
  eq_iff "en" s,
)

languages_of-foreign : (items : List Json) → any is_foreign (languages_of items) ≡ false
unfolding languages_of
languages_of-foreign [] = refl
languages_of-foreign (str s ∷ items) =
    kept (is_language s) s (languages_of items) (languages_of-foreign items)
      (is_language-supported s)
  where
    kept :
        (b : Bool) (s : String) (rest : List String)
        → any is_foreign rest ≡ false
        → (b ≡ true → is_foreign s ≡ false)
        → any is_foreign (if b then s ∷ rest else rest) ≡ false
    kept true s rest safe known = rw (known refl) safe
    kept false s rest safe known = safe
languages_of-foreign (item ∷ items) = languages_of-foreign items

appended :
    (next default : String) (allowed : List String)
    → includes next supported_languages ≡ true
    → includes next allowed ≡ false
    → AreSafe default allowed
    → AreSafe next (allowed ++ next ∷ [])
appended next default allowed known new safe = record {
  listed = ground (arith, includes-append next allowed (next ∷ []), eq_refl next);
  once = has_duplicates-append next allowed new safe.once;
  supported = ground (arith, any-append is_foreign allowed (next ∷ []), safe.supported);
  default_supported = known;
}

choose_default-IsSafePolicy :
    (next : String) (policy : Policy)
    → includes next supported_languages ≡ true
    → IsSafePolicy policy
    → IsSafePolicy (choose_default next policy)
unfolding choose_default
choose_default-IsSafePolicy next (default, allowed) known safe = chosen (includes next allowed) refl
  where
    chosen :
        (there : Bool)
        → includes next allowed ≡ there
        → AreSafe next (if there then allowed else allowed ++ next ∷ [])
    chosen true e = record {
      listed = e;
      once = safe.once;
      supported = safe.supported;
      default_supported = known;
    }
    chosen false e = appended next default allowed known e safe

-- A list that has the default and is supported stays safe once it is made a set.
distinct-AreSafe :
    (default : String) (allowed : List String)
    → includes default supported_languages ≡ true
    → includes default allowed ≡ true
    → any is_foreign allowed ≡ false
    → AreSafe default (distinct allowed)
unfolding distinct
distinct-AreSafe default allowed known there own = record {
  listed = ground (arith, includes-distinct default allowed);
  once = distinct_unique allowed;
  supported = any-distinct_from is_foreign [] allowed own;
  default_supported = known;
}

check_language-IsSafePolicy :
    (language : String) (checked : Bool) (policy : Policy)
    → includes language supported_languages ≡ true
    → str_eq policy.0 language ≡ false
    → IsSafePolicy policy
    → IsSafePolicy (check_language language checked policy)
unfolding check_language
check_language-IsSafePolicy language true (default, allowed) known other safe =
    distinct-AreSafe default (allowed ++ language ∷ []) safe.default_supported
      (ground (arith, includes-append default allowed (language ∷ []), safe.listed))
      (ground (arith, any-append is_foreign allowed (language ∷ []), safe.supported))
check_language-IsSafePolicy language false (default, allowed) known other safe =
    distinct-AreSafe default (keep (λ l. not (str_eq l language)) allowed) safe.default_supported
      (ground (arith, includes-keep default language allowed other, safe.listed))
      (any-keep is_foreign (λ l. not (str_eq l language)) allowed safe.supported)

read_response_language-supported :
    (value : Option Json) → includes (read_response_language value) supported_languages ≡ true
unfolding read_response_language
read_response_language-supported (some (str s)) = read (is_language s) (is_language-supported s)
  where
    read :
        (b : Bool)
        → (b ≡ true → is_foreign s ≡ false)
        → includes (if b then s else "en") supported_languages ≡ true
    read true known = ground (arith, known refl)
    read false known = refl
read_response_language-supported none = refl
read_response_language-supported (some v) = ground arith

with_default-AreSafe :
    (default : String) (allowed : List String)
    → includes default supported_languages ≡ true
    → has_duplicates allowed ≡ false
    → any is_foreign allowed ≡ false
    → AreSafe default (with_default default allowed)
unfolding with_default has_duplicates
with_default-AreSafe default allowed known once own = put (includes default allowed) refl
  where
    put :
        (there : Bool)
        → includes default allowed ≡ there
        → AreSafe default (if there then allowed else default ∷ allowed)
    put true e = record { listed = e; once = once; supported = own; default_supported = known }
    put false e = record {
      listed = ground (arith, eq_refl default);
      once = ground (arith, e);
      supported = ground arith;
      default_supported = known;
    }

listed-foreign : (items : Option (List Json)) → any is_foreign (listed items) ≡ false
listed-foreign none = refl
listed-foreign (some items) = languages_of-foreign items

-- The language policy that a page loads from a configuration.
abbrev pub loaded : Option Json → Option Json → Policy
loaded default allowed = (
  read_response_language default,
  read_allowed_languages allowed (read_response_language default),
)

loaded-IsSafePolicy : (default allowed : Option Json) → IsSafePolicy (loaded default allowed)
unfolding read_allowed_languages distinct
loaded-IsSafePolicy default allowed =
    with_default-AreSafe (read_response_language default) (distinct (listed (as_array allowed)))
      (read_response_language-supported default) (distinct_unique (listed (as_array allowed)))
      (any-distinct_from is_foreign [] (listed (as_array allowed))
        (listed-foreign (as_array allowed)))

-- The policies that a page can come to: the configuration page loads one from any configuration, the
-- onboarding page takes one over as it is stored, which the compiler must accept, and then a language
-- that is offered is made the default, or the box of one that is not the default is changed.
pub data Reached : Policy → Type 0 where
  load : (default allowed : Option Json) → Reached (loaded default allowed)
  take_over : (policy : Policy) → check_languages policy.0 policy.1 ≡ ok policy.1 → Reached policy
  choose :
      (next : String) {policy : Policy}
      → includes next supported_languages ≡ true
      → Reached policy
      → Reached (choose_default next policy)
  check :
      (language : String) (checked : Bool) {policy : Policy}
      → includes language supported_languages ≡ true
      → str_eq policy.0 language ≡ false
      → Reached policy
      → Reached (check_language language checked policy)

Reached-IsSafePolicy : {policy : Policy} → Reached policy → IsSafePolicy policy
Reached-IsSafePolicy (load default allowed) = loaded-IsSafePolicy default allowed
Reached-IsSafePolicy (take_over (default, allowed) accepted) =
    (check_languages-AreSafe default allowed allowed accepted).1
Reached-IsSafePolicy (choose next known r) =
    choose_default-IsSafePolicy next _ known (Reached-IsSafePolicy r)
Reached-IsSafePolicy (check language checked known other r) =
    check_language-IsSafePolicy language checked _ known other (Reached-IsSafePolicy r)

-- Whatever configuration the configuration page loads, whatever languages the onboarding page takes over
-- that the compiler of profiles accepts, and however they are then edited, the compiler accepts the
-- default language with the allowed ones, and takes the list as it is.
pub check_languages-Reached :
    (policy : Policy) → Reached policy → check_languages policy.0 policy.1 ≡ ok policy.1
check_languages-Reached (default, allowed) r =
    check_languages_of_safe default allowed (Reached-IsSafePolicy r)
