-- ===== src/LiveKit/Tasks.antt =====
-- The task list: an update replaces the task with its id, or comes first.
use ai_voice_assistants.Common.{
  ◌≡◌, refl, inl, inr, true, false, Option, none, some, List, [], ◌∷◌, arith, if◌then◌else◌, any,
  Bool-cases,
}
use ai_voice_assistants.Common.Json.{Json, strict_eq_sound}
use ai_voice_assistants.LiveKit.State.{Task}
use ai_voice_assistants.LiveKit.Packets.{has_id, replace_first, upsert_task}

-- The task that the list shows under an id.
abbrev pub find_task : Json → List Task → Option Task
find_task id [] = none
find_task id (t ∷ ts) = if has_id id t then some t else find_task id ts

-- No two tasks of the list have one id.
abbrev pub HasUniqueIds : List Task → Type 0
HasUniqueIds [] = Unit
HasUniqueIds (t ∷ ts) = (any (has_id t.id) ts ≡ false) × HasUniqueIds ts

replace_first-any :
    (task : Task) (id : Json) (ts : List Task)
    → any (has_id id) ts ≡ false
    → any (has_id task.id) ts ≡ true
    → any (has_id id) (replace_first task ts) ≡ false
unfolding replace_first
replace_first-any task id [] h k = ground arith
replace_first-any task id (t ∷ ts) h k =
    ground (arith, strict_eq_sound t.id task.id, replace_first-any task id ts)

replace_first-HasUniqueIds :
    (task : Task) (ts : List Task)
    → any (has_id task.id) ts ≡ true
    → HasUniqueIds ts
    → HasUniqueIds (replace_first task ts)
unfolding replace_first
replace_first-HasUniqueIds task [] k h = ground arith
replace_first-HasUniqueIds task (t ∷ ts) k (fresh, h) = elim (Bool-cases (has_id task.id t)) [
  | inl same ↦ rw same (ground (arith, strict_eq_sound t.id task.id), h)
  | inr other ↦ rw other (
    replace_first-any task t.id ts fresh (ground arith),
    replace_first-HasUniqueIds task ts (ground arith) h,
  )
]

-- A list whose ids are unique keeps unique ids under every task update.
pub upsert_task-HasUniqueIds :
    (task : Task) (ts : List Task) → HasUniqueIds ts → HasUniqueIds (upsert_task task ts)
unfolding upsert_task
upsert_task-HasUniqueIds task ts h = elim (Bool-cases (any (has_id task.id) ts)) [
  | inl old ↦ rw old (replace_first-HasUniqueIds task ts old h)
  | inr new ↦ rw new (new, h)
]

find-replace_first :
    (task : Task) (id : Json) (ts : List Task)
    → any (has_id task.id) ts ≡ true
    → find_task id (replace_first task ts) ≡ (if has_id id task then some task else find_task id ts)
unfolding replace_first
find-replace_first task id [] k = ground arith
find-replace_first task id (t ∷ ts) k = ground (
  arith,
  strict_eq_sound t.id task.id,
  strict_eq_sound task.id id,
  strict_eq_sound t.id id,
  find-replace_first task id ts,
)

-- After an update the list shows the updated task under its id, and under every other id what it
-- showed before.
pub find-upsert_task :
    (task : Task) (id : Json) (ts : List Task)
    → find_task id (upsert_task task ts) ≡ (if has_id id task then some task else find_task id ts)
unfolding upsert_task
find-upsert_task task id ts = elim (Bool-cases (any (has_id task.id) ts)) [
  | inl old ↦ rw old (find-replace_first task id ts old)
  | inr new ↦ rw new refl
]
