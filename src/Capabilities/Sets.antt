-- ===== src/Capabilities/Sets.antt =====
-- Arrays of strings used as sets: `includes`, `Array.from(new Set(…))`, `flatMap`.
use ai_voice_assistants.Common.{
  ◌≡◌, refl, String, Bool, true, false, ◌||◌, List, [], ◌∷◌, ◌++◌, arith, any, str_eq, eq_iff,
  Bool-cases, inl, inr,
}

abbrev pub includes : String → List String → Bool
includes s xs = any (λ x. str_eq x s) xs

-- The elements of `xs` that are not among `seen`, each once, in their order.
unfoldable pub distinct_from : List String → List String → List String
distinct_from seen [] = []
distinct_from seen (x ∷ xs) = elim (includes x seen) [
  | true ↦ distinct_from seen xs
  | false ↦ x ∷ distinct_from (x ∷ seen) xs
]

unfoldable pub distinct : List String → List String
unfolding distinct_from
distinct xs = distinct_from [] xs

unfoldable pub has_duplicates : List String → Bool
has_duplicates [] = false
has_duplicates (x ∷ xs) = includes x xs || has_duplicates xs

includes-distinct_from :
    (s : String) (seen xs : List String)
    → (includes s seen || includes s (distinct_from seen xs)) ≡ (includes s seen || includes s xs)
unfolding distinct_from
includes-distinct_from s seen [] = refl
includes-distinct_from s seen (x ∷ xs) = elim (Bool-cases (includes x seen)) [
  | inl old ↦ ground (arith, eq_iff x s, includes-distinct_from s seen xs)
  | inr new ↦ ground (arith, eq_iff x s, includes-distinct_from s (x ∷ seen) xs)
]

-- A set has the elements of its array.
pub includes-distinct : (s : String) (xs : List String) → includes s (distinct xs) ≡ includes s xs
unfolding distinct
includes-distinct s xs = includes-distinct_from s [] xs

distinct_from-includes-false :
    (s : String) (seen xs : List String)
    → includes s seen ≡ true
    → includes s (distinct_from seen xs) ≡ false
unfolding distinct_from
distinct_from-includes-false s seen [] h = refl
distinct_from-includes-false s seen (x ∷ xs) h = elim (Bool-cases (includes x seen)) [
  | inl old ↦ ground (arith, distinct_from-includes-false s seen xs h)
  | inr new ↦ ground (arith, eq_iff x s, distinct_from-includes-false s (x ∷ seen) xs)
]

distinct_from_unique : (seen xs : List String) → has_duplicates (distinct_from seen xs) ≡ false
unfolding distinct_from has_duplicates
distinct_from_unique seen [] = refl
distinct_from_unique seen (x ∷ xs) = elim (Bool-cases (includes x seen)) [
  | inl old ↦ ground (arith, distinct_from_unique seen xs)
  | inr new ↦ ground (
    arith,
    eq_iff x x,
    distinct_from-includes-false x (x ∷ seen) xs,
    distinct_from_unique (x ∷ seen) xs,
  )
]

-- A set has no element twice.
pub distinct_unique : (xs : List String) → has_duplicates (distinct xs) ≡ false
unfolding distinct
distinct_unique xs = distinct_from_unique [] xs

pub includes-append :
    (s : String) (xs ys : List String) → includes s (xs ++ ys) ≡ (includes s xs || includes s ys)
includes-append s [] ys = refl
includes-append s (x ∷ xs) ys = ground (arith, includes-append s xs ys)
