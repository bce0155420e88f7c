-- ===== src/Sandbox/Tabs.antt =====
-- Several pages of one browser: at most one of them has a room at a time.
use ai_voice_assistants.Common.{
  ℕ, ◌≡◌, String, true, false, Option, some, List, [], ◌∷◌, ◌==◌, arith, inl, inr, Bool-cases,
}
use ai_voice_assistants.Common.Json.{Json}
use ai_voice_assistants.LiveKit.State.{update}
use ai_voice_assistants.Sandbox.State.{Session, initial}
use ai_voice_assistants.Sandbox.Connect.{LockAnswer}
use ai_voice_assistants.Sandbox.Events.{Event, step}
use ai_voice_assistants.Sandbox.Lock.{IsLocked, IsTimely, is_grant, Keeps, initial-IsLocked}
use ai_voice_assistants.Sandbox.Keeps.{step-Keeps, granted-IsLocked}

-- The pages, by a number.
abbrev pub Tabs : Type 0
Tabs = ℕ → Session

-- What the browser promises of a request with `ifAvailable`: it grants the lock only while no page
-- of the origin holds it.
abbrev pub IsFree : Event → Tabs → Type 0
IsFree (Event.lock LockAnswer.granted id time) tabs = (j : ℕ) → (tabs j).holds_lock ≡ false
IsFree _ tabs = Unit

module _ (shown : Option Json → String) where
  abbrev pub tab_step : ℕ → Event → Tabs → Tabs
  tab_step i e tabs = update tabs i (step shown e (tabs i))

  unfoldable pub run_tabs : List (ℕ × Event) → Tabs → Tabs
  run_tabs [] tabs = tabs
  run_tabs ((i, e) ∷ es) tabs = run_tabs es (tab_step i e tabs)

  -- Every event of the run is timely, and the browser keeps its promise.
  abbrev pub AllTimely : List (ℕ × Event) → Tabs → Type 0
  AllTimely [] tabs = Unit
  AllTimely ((i, e) ∷ es) tabs =
      IsTimely e (tabs i) × IsFree e tabs × AllTimely es (tab_step i e tabs)

record IsExclusive (tabs : Tabs) : Type 0 where
  locked : (i : ℕ) → IsLocked (tabs i)
  one : (i j : ℕ) → (tabs i).holds_lock ≡ true → (tabs j).holds_lock ≡ true → i ≡ j

module _ {tabs : Tabs} (v : IsExclusive tabs) where
  -- One page moves, and takes no lock.
  update-IsExclusive : (k : ℕ) (s : Session) → Keeps (tabs k) s → IsExclusive (update tabs k s)
  update-IsExclusive k s (locked, same) = record {
    locked = λ i. elim (Bool-cases (k == i)) [ inl e ↦ rw e locked | inr e ↦ rw e (v.locked i) ];
    one = λ i j p q. ground (arith, v.one i j, v.one k j, v.one i k);
  }

  -- One page moves, and no other holds the lock.
  grant-IsExclusive :
      (k : ℕ) (s : Session)
      → IsLocked s
      → ((j : ℕ) → (tabs j).holds_lock ≡ false)
      → IsExclusive (update tabs k s)
  grant-IsExclusive k s locked none_holds = record {
    locked = λ i. elim (Bool-cases (k == i)) [ inl e ↦ rw e locked | inr e ↦ rw e (v.locked i) ];
    one = λ i j p q. ground (arith, none_holds i, none_holds j);
  }

module _ (shown : Option Json → String) where
  step-IsExclusive :
      (k : ℕ) (e : Event) {tabs : Tabs}
      → IsExclusive tabs
      → IsTimely e (tabs k)
      → IsFree e tabs
      → IsExclusive (tab_step shown k e tabs)
  step-IsExclusive k e {tabs} v t f = elim (Bool-cases (is_grant e)) [
    | inl granted ↦ granted-IsExclusive e granted f
    | inr other ↦
        update-IsExclusive v k (step shown e (tabs k)) (step-Keeps (v.locked k) shown e t other)
  ]
    where
      granted-IsExclusive :
          (e : Event) → is_grant e ≡ true → IsFree e tabs → IsExclusive (tab_step shown k e tabs)
      granted-IsExclusive (Event.lock LockAnswer.granted id time) g f =
          grant-IsExclusive v k _ (granted-IsLocked (v.locked k) shown id time (f k)) f
      granted-IsExclusive Event.start g f = absurd (ground arith)
      granted-IsExclusive _ g f = absurd (ground arith)

  run-IsExclusive :
      (es : List (ℕ × Event)) {tabs : Tabs}
      → IsExclusive tabs
      → AllTimely shown es tabs
      → IsExclusive (run_tabs shown es tabs)
  unfolding run_tabs
  run-IsExclusive [] v t = v
  run-IsExclusive ((i, e) ∷ es) v (timely, free, rest) =
      run-IsExclusive es (step-IsExclusive i e v timely free) rest

  -- In a browser with the Locks API, if no page is left while it connects, and the browser grants the lock only while no page holds
  -- it, then after any events, in any order, at most one page has a room, and that page holds the
  -- lock.
  pub run_tabs-room :
      (es : List (ℕ × Event))
      → AllTimely shown es (λ i. initial)
      → (i j a b : ℕ) → (run_tabs shown es (λ i. initial) i).room ≡ some a
      → (run_tabs shown es (λ i. initial) j).room ≡ some b
      → (i ≡ j) × ((run_tabs shown es (λ i. initial) i).holds_lock ≡ true)
  run_tabs-room es t i j a b p q =
      let v : IsExclusive (run_tabs shown es (λ i. initial)) = run-IsExclusive es fresh t in
      let held : (run_tabs shown es (λ i. initial) i).holds_lock ≡ true = (v.locked i).room a p in
      (v.one i j held ((v.locked j).room b q), held)
    where
      fresh : IsExclusive (λ i. initial)
      fresh = record { locked = λ i. initial-IsLocked; one = λ i j p q. cc }
