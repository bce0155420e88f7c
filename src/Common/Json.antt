-- ===== src/Common/Json.antt =====
-- JSON values, as `JSON.parse` returns them, with JavaScript's tests on them. Numbers are the
-- natural ones: those that the program reads are sequence numbers, times, versions and counts.
use Prim.Native.Nat.{ℕ}
use Prim.Native.String.{String}
use mathlib.Core.Path.{◌≡◌, refl}
use mathlib.Core.Logic.{◌↔◌}
use mathlib.Core.Bool.{Bool, true, false, not}
use mathlib.Core.Option.{Option, none, some}
use mathlib.Core.List.{List, [], ◌∷◌}
use native.Mathlib.Omega.{arith}
use text.Mathlib.Text.{◌==◌ as str_eq}
use text.Mathlib.TextEquality.{eq_iff}
use ai_voice_assistants.Common.Tests.{◌==◌, if◌then◌else◌}

mutual
  pub data Json : Type 0 where
    null : Json
    bool : Bool → Json
    num : ℕ → Json
    str : String → Json
    arr : Items → Json
    obj : Fields → Json

  pub data Items : Type 0 where
    nil : Items
    cons : Json → Items → Items

  pub data Fields : Type 0 where
    end : Fields
    field : String → Json → Fields → Fields

abbrev pub get_field : String → Fields → Option Json
get_field k end = none
get_field k (field j v fs) = if str_eq j k then some v else get_field k fs

-- `value.k`: `none` is `undefined`.
abbrev pub property : String → Json → Option Json
property k (obj fs) = get_field k fs
property k _ = none

-- Whether `if (value)` takes its branch.
abbrev pub truthy : Json → Bool
truthy null = false
truthy (bool b) = b
truthy (num n) = not (n == 0)
truthy (str s) = not (str_eq s "")
truthy (arr xs) = true
truthy (obj fs) = true

abbrev pub truthy_field : Option Json → Bool
truthy_field none = false
truthy_field (some v) = truthy v

-- `value || other`.
abbrev pub or_json : Option Json → Json → Json
or_json none d = d
or_json (some v) d = if truthy v then v else d

-- `typeof value === "object"` (which holds of `null` too).
abbrev pub is_object : Json → Bool
is_object null = true
is_object (arr xs) = true
is_object (obj fs) = true
is_object _ = false

-- `typeof value === "string"`, with the string.
abbrev pub as_string : Option Json → Option String
as_string (some (str s)) = some s
as_string _ = none

abbrev pub as_number : Option Json → Option ℕ
as_number (some (num n)) = some n
as_number _ = none

-- `value === text`.
abbrev pub is_text : Option Json → String → Bool
is_text (some (str s)) t = str_eq s t
is_text _ t = false

-- `a === b` on values that were parsed apart, where two objects are never the same.
unfoldable pub strict_eq : Json → Json → Bool
strict_eq null null = true
strict_eq (bool true) (bool b) = b
strict_eq (bool false) (bool b) = not b
strict_eq (num n) (num m) = n == m
strict_eq (str s) (str t) = str_eq s t
strict_eq _ _ = false

pub strict_eq_sound : (a b : Json) → strict_eq a b ≡ true → a ≡ b
unfolding strict_eq
strict_eq_sound null null h = refl
strict_eq_sound (bool true) (bool b) h = ground arith
strict_eq_sound (bool false) (bool b) h = ground arith
strict_eq_sound (num n) (num m) h = ground arith
strict_eq_sound (str s) (str t) h = ground (arith, eq_iff s t)
strict_eq_sound _ _ h = absurd (ground arith)

abbrev pub items : Items → List Json
items nil = []
items (cons v vs) = v ∷ items vs

-- `Array.isArray(value) ? value : undefined`.
abbrev pub as_array : Option Json → Option (List Json)
as_array (some (arr xs)) = some (items xs)
as_array _ = none

-- What the tests on a property say of it.
pub is_text_iff : (o : Option Json) (t : String) → (is_text o t ≡ true) ↔ (o ≡ some (str t))
is_text_iff none t = ground arith
is_text_iff (some (str s)) t = ground (arith, eq_iff s t)
is_text_iff (some v) t = ground arith

pub as_string_iff : (o : Option Json) (t : String) → (as_string o ≡ some t) ↔ (o ≡ some (str t))
as_string_iff o t = ground arith

pub as_number_iff : (o : Option Json) (n : ℕ) → (as_number o ≡ some n) ↔ (o ≡ some (num n))
as_number_iff o n = ground arith
