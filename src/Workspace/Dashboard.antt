-- ===== src/Workspace/Dashboard.antt =====
-- The figures of the dashboard of frontend/src/App.tsx. A time is its milliseconds, or `none` where
-- the date is invalid; the local midnights of the week are given. Sums of seconds are exact.
use ai_voice_assistants.Common.{
  ℕ, zero, suc, ◌+◌, ◌-◌, ◌*◌, ◌/◌, ◌%◌, ◌≤◌, ◌≡◌, refl, String, Bool, false, ◌&&◌, Option, none,
  some, List, [], ◌∷◌, arith, if◌then◌else◌, str_eq, leb, ltb, keep, map, length,
}

pub record CallRow : Type 0 where
  pub state : String
  pub created_at : Option ℕ
  -- `none` where the call has no end
  pub ended_at : Option (Option ℕ)

pub data Shown : Type 0 where
  missing invalid : Shown
  seconds : ℕ → Shown
  minutes : ℕ → ℕ → Shown

abbrev shown_seconds : ℕ → Shown
shown_seconds s = if ltb s 60 then seconds s else minutes (s / 60) (s % 60)

abbrev between : Option ℕ → Option ℕ → Option ℕ
between (some start) (some stop) = some (stop - start)
between _ _ = none

abbrev shown_duration : Option ℕ → Shown
shown_duration none = invalid
shown_duration (some ms) = shown_seconds ((ms + 500) / 1000)

abbrev duration_of : Option ℕ → Option (Option ℕ) → Shown
duration_of created none = missing
duration_of created (some ended) = shown_duration (between created ended)

unfoldable pub call_duration : CallRow → Shown
call_duration c = duration_of c.created_at c.ended_at

abbrev pub failed : List CallRow → ℕ
failed calls = length (keep (λ c. str_eq c.state "failed") calls)

abbrev pub completed : List CallRow → List CallRow
completed calls = keep (λ c. str_eq c.state "ended") calls

-- The milliseconds of the completed calls that have an end, `none` where one is invalid.
abbrev with_end : Option (Option ℕ) → Option ℕ → Option (List ℕ) → Option (List ℕ)
with_end none created rest = rest
with_end (some ended) created none = none
with_end (some (some ended)) (some created) (some rest) = some ((ended - created) ∷ rest)
with_end (some ended) created (some rest) = none

unfoldable pub durations : List CallRow → Option (List ℕ)
durations [] = some []
durations (c ∷ cs) = with_end c.ended_at c.created_at (durations cs)

abbrev pub total : List ℕ → ℕ
total [] = 0
total (n ∷ ns) = n + total ns

pub data Average : Type 0 where
  no_calls not_a_number : Average
  rounded : ℕ → Average

abbrev average_of : Option (List ℕ) → Average
average_of none = not_a_number
average_of (some []) = no_calls
average_of (some (n ∷ ns)) =
    rounded ((2 * total (n ∷ ns) + 1000 * length (n ∷ ns)) / (2000 * length (n ∷ ns)))

unfoldable pub average : List CallRow → Average
unfolding durations
average calls = average_of (durations (completed calls))

abbrev pub day_length : ℕ
day_length = 86400000

abbrev pub is_from : ℕ → ℕ → Option ℕ → Bool
is_from start stop none = false
is_from start stop (some t) = leb start t && ltb t stop

unfoldable pub count_from : ℕ → ℕ → List CallRow → ℕ
count_from start stop [] = 0
count_from start stop (c ∷ cs) =
    let rest = count_from start stop cs in
    if is_from start stop c.created_at then suc rest else rest

unfoldable pub per_day : List ℕ → List CallRow → List ℕ
unfolding count_from
per_day days calls = map (λ start. count_from start (start + day_length) calls) days

abbrev pub week_total : List ℕ → List CallRow → ℕ
week_total days calls = total (per_day days calls)

-- `Math.max(...perDay, 1)`.
abbrev pub max_day : List ℕ → ℕ
max_day [] = 1
max_day (n ∷ ns) = let rest = max_day ns in if ltb rest n then n else rest

-- Midnights that are a day apart.
abbrev pub midnights : ℕ → ℕ → List ℕ
midnights zero start = []
midnights (suc n) start = start ∷ midnights n (start + day_length)

is_from-split :
    (a b c : ℕ) (t : Option ℕ) (x y : ℕ)
    → a ≤ b
    → b ≤ c
    → (if is_from a b t then suc x else x) + (if is_from b c t then suc y else y)
      ≡ (if is_from a c t then suc (x + y) else x + y)
is_from-split a b c none x y p q = refl
is_from-split a b c (some t) x y p q = ground arith

count_from-split :
    (a b c : ℕ) (calls : List CallRow)
    → a ≤ b
    → b ≤ c
    → count_from a b calls + count_from b c calls ≡ count_from a c calls
unfolding count_from
count_from-split a b c [] p q = refl
count_from-split a b c (call ∷ calls) p q =
    rw (← count_from-split a b c calls p q) (is_from-split a b c call.created_at _ _ p q)

is_from_empty : (a : ℕ) (t : Option ℕ) → is_from a a t ≡ false
is_from_empty a none = refl
is_from_empty a (some t) = ground arith

count_from_empty : (a : ℕ) (calls : List CallRow) → count_from a a calls ≡ 0
unfolding count_from
count_from_empty a [] = refl
count_from_empty a (call ∷ calls) = rw (is_from_empty a call.created_at) (count_from_empty a calls)

-- The chart counts every call of its days once: where the midnights are 24 hours apart, the counts of
-- the days add up to the calls that were made from the first midnight on, for as many days.
pub week_total-midnights :
    (n start : ℕ) (calls : List CallRow)
    → week_total (midnights n start) calls ≡ count_from start (start + n * day_length) calls
unfolding per_day
week_total-midnights zero start calls =
    let none_left : start + 0 * day_length ≡ start = omega arith in
    rw (none_left, count_from_empty start calls) refl
week_total-midnights (suc n) start calls =
    let next : ℕ = start + day_length in
    let stop : start + suc n * day_length ≡ next + n * day_length = omega arith in
    rw (week_total-midnights n next calls, stop)
      (count_from-split start next (next + n * day_length) calls (omega arith) (omega arith))
