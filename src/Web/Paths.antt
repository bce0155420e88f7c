-- ===== src/Web/Paths.antt =====
-- What `fetch` makes of the path of a URL, by the rules of the URL standard: a segment `.` is left out, and
-- a segment `..` goes with the one before it. The paths that proxyBackend gets are in
-- frontend/src/app/api.
use ai_voice_assistants.Common.{
  ℕ, ◌≡◌, refl, ap, ◌∙◌, Bool, true, false, ◌&&◌, ◌||◌, Option, none, some, List, [], ◌∷◌, ◌++◌,
  if◌then◌else◌, ◌==◌, arith, All, All-map,
}
use mathlib.Core.List.{append-nil}
use ai_voice_assistants.Common.Text.{codes}
use ai_voice_assistants.Workspace.Lines.{split_on, IsOther, split_on-whole, split_on-append}
use ai_voice_assistants.Web.UriComponent.{IsSegmentChar}

-- A dot may be written `%2e`.
abbrev after_percent : List ℕ → Option (List ℕ)
after_percent (a ∷ b ∷ s) = if a == b'2' && (b == b'e' || b == b'E') then some s else none
after_percent _ = none

abbrev after_dot : List ℕ → Option (List ℕ)
after_dot [] = none
after_dot (c ∷ s) = if c == b'.' then some s else if c == b'%' then after_percent s else none

abbrev is_end : Option (List ℕ) → Bool
is_end (some []) = true
is_end _ = false

abbrev after_two : Option (List ℕ) → Option (List ℕ)
after_two none = none
after_two (some s) = after_dot s

unfoldable is_single_dot : List ℕ → Bool
is_single_dot s = is_end (after_dot s)

unfoldable is_double_dot : List ℕ → Bool
is_double_dot s = is_end (after_two (after_dot s))

unfoldable pub is_dots : List ℕ → Bool
unfolding is_single_dot is_double_dot
is_dots s = is_single_dot s || is_double_dot s

abbrev shorten : List (List ℕ) → List (List ℕ)
shorten [] = []
shorten (s ∷ kept) = kept

-- The segments that are kept, the last one first.
abbrev keep_segment : List ℕ → List (List ℕ) → List (List ℕ)
keep_segment s kept =
    if is_double_dot s then shorten kept else if is_single_dot s then kept else s ∷ kept

abbrev keep_last : List ℕ → List (List ℕ) → List (List ℕ)
keep_last s kept = if is_dots s then [] ∷ keep_segment s kept else s ∷ kept

unfoldable walk : List (List ℕ) → List (List ℕ) → List (List ℕ)
unfolding is_single_dot is_double_dot is_dots
walk kept [] = kept
walk kept (s ∷ []) = keep_last s kept
walk kept (s ∷ t ∷ rest) = walk (keep_segment s kept) (t ∷ rest)

unfoldable rejoin : List (List ℕ) → List ℕ → List ℕ
rejoin [] path = path
rejoin (s ∷ kept) path = rejoin kept (b'/' ∷ s ++ path)

-- The text before the first mark is empty: a path begins with one.
abbrev resolved : List (List ℕ) → List ℕ
resolved [] = []
resolved (s ∷ segments) = rejoin (walk [] segments) []

unfoldable pub resolve : List ℕ → List ℕ
unfolding split_on walk rejoin
resolve path = resolved (split_on b'/' path)

segment-IsOther : (s : List ℕ) → All IsSegmentChar s → All (IsOther b'/') s
segment-IsOther s h = All-map (λ c k. ground arith) s h

-- The path with a segment in it stays as it is.
abbrev pub IsFixed : List ℕ → List ℕ → List ℕ → Type 0
IsFixed front s back = resolve (front ++ (s ++ back)) ≡ front ++ (s ++ back)

module _ (s : List ℕ) (h : All IsSegmentChar s) (proper : is_dots s ≡ false) where
  not_double : is_double_dot s ≡ false
  unfolding is_dots
  not_double = ground arith

  not_single : is_single_dot s ≡ false
  unfolding is_dots
  not_single = ground arith

  apart : All (IsOther b'/') s
  apart = segment-IsOther s h

  pub status-IsFixed : IsFixed (codes "/tasks/") s (codes "/status")
  unfolding resolve split_on walk rejoin is_dots is_single_dot is_double_dot
  status-IsFixed =
      ap (λ r. resolved ([] ∷ codes "tasks" ∷ r)) (split_on-append b'/' s (codes "status") apart)
      ∙ rw (not_double, not_single) refl

  pub cancel-IsFixed : IsFixed (codes "/tasks/") s (codes "/cancel")
  unfolding resolve split_on walk rejoin is_dots is_single_dot is_double_dot
  cancel-IsFixed =
      ap (λ r. resolved ([] ∷ codes "tasks" ∷ r)) (split_on-append b'/' s (codes "cancel") apart)
      ∙ rw (not_double, not_single) refl

  pub booking_cancel-IsFixed : IsFixed (codes "/bookings/") s (codes "/cancel")
  unfolding resolve split_on walk rejoin is_dots is_single_dot is_double_dot
  booking_cancel-IsFixed =
      ap (λ r. resolved ([] ∷ codes "bookings" ∷ r)) (split_on-append b'/' s (codes "cancel") apart)
      ∙ rw (not_double, not_single) refl

  pub booking-IsFixed : IsFixed (codes "/bookings/") s (codes "")
  unfolding resolve split_on walk rejoin is_dots
  booking-IsFixed =
      ap (λ r. resolved ([] ∷ codes "bookings" ∷ split_on b'/' r)) (append-nil s)
      ∙ (ap (λ r. resolved ([] ∷ codes "bookings" ∷ r)) (split_on-whole b'/' s apart)
          ∙ rw (not_double, not_single) refl)
