-- ===== src/Screens/Kept.antt =====
-- What the deck of tasks and the settings keep: theorems on mobile/src/components/TaskDeck.tsx and
-- mobile/src/screens/SettingsScreen.tsx.
use ai_voice_assistants.Common.{
  ◌≡◌, refl, subst, ℕ, zero, suc, ◌≤◌, String, true, false, not, Option, some, List, [], ◌∷◌, arith,
  str_eq, eq_iff, keep, length, length-append, Bool-cases, inl, inr,
}
use ai_voice_assistants.MobileApi.Assistant.{Answer}
use ai_voice_assistants.Screens.Deck.{Item, Deck, find, handle_dismiss, handle_undo, cancel_settled}
use ai_voice_assistants.Screens.Settings.{
  FaqEntry, Field, Settings, handle_add_faq, handle_update_faq, handle_remove_faq, update_at,
  remove_at,
}

find-keep :
    (id other : String) (ts : List Item)
    → str_eq id other ≡ false
    → find other (keep (λ t. not (str_eq t.id id)) ts) ≡ find other ts
unfolding keep
find-keep id other [] h = refl
find-keep id other (t ∷ ts) h =
    ground (arith, eq_iff t.id id, eq_iff t.id other, eq_iff id other, find-keep id other ts)

find-id : (id : String) (ts : List Item) (t : Item) → find id ts ≡ some t → str_eq t.id id ≡ true
find-id id [] t h = absurd (ground arith)
find-id id (u ∷ us) t h = ground (arith, find-id id us t)

abbrev others : String → List Item → List Item
others id ts = keep (λ t. not (str_eq t.id id)) ts

restored_self :
    (id : String) (ts : List Item) (t : Item)
    → find id ts ≡ some t
    → find id (t ∷ others id ts) ≡ find id ts
restored_self id ts t h = rw (find-id id ts t h, h) refl

restored :
    (id other : String) (ts : List Item) (t : Item)
    → find id ts ≡ some t
    → find other (t ∷ others id ts) ≡ find other ts
restored id other ts t h = elim (Bool-cases (str_eq id other)) [
  | inl same ↦
      subst (λ o. find o (t ∷ others id ts) ≡ find o ts) ((eq_iff id other).0 same)
        (restored_self id ts t h)
  | inr different ↦ ground (
    arith,
    eq_iff t.id id,
    eq_iff t.id other,
    eq_iff id other,
    find-id id ts t h,
    find-keep id other ts different,
  )
]

-- A task that is dismissed and brought back: under every ID the deck shows what it showed before.
pub find-undo :
    (id other : String) (s : Deck) (t : Item)
    → find id s.tasks ≡ some t
    → find other (handle_undo (handle_dismiss id s)).tasks ≡ find other s.tasks
unfolding handle_undo handle_dismiss
find-undo id other s t h = rw h (restored id other s.tasks t h)

-- A task is shown as cancelled whatever is answered to the cancellation, a failure included.
pub cancel_settled-ignores :
    (id now : String) (answer other : Option Answer) (s : Deck)
    → cancel_settled id now answer s ≡ cancel_settled id now other s
unfolding cancel_settled
cancel_settled-ignores id now answer other s = refl

length-update_at :
    (i : ℕ) (part : Field) (value : List ℕ) (es : List FaqEntry)
    → length (update_at i part value es) ≡ length es
unfolding update_at
length-update_at i part value [] = refl
length-update_at zero part value (e ∷ es) = refl
length-update_at (suc i) part value (e ∷ es) = omega (arith, length-update_at i part value es)

length-remove_at : (i : ℕ) (es : List FaqEntry) → length (remove_at i es) ≤ length es
unfolding remove_at
length-remove_at i [] = omega arith
length-remove_at zero (e ∷ es) = omega arith
length-remove_at (suc i) (e ∷ es) = omega (arith, length-remove_at i es)

-- However the questions are edited, there are never more than twenty.
pub length-faq :
    (s : Settings) (i : ℕ) (part : Field) (value : List ℕ)
    → length s.faq_entries ≤ 20
    → (length (handle_add_faq s).faq_entries ≤ 20)
      × (length (handle_update_faq i part value s).faq_entries ≤ 20)
      × (length (handle_remove_faq i s).faq_entries ≤ 20)
unfolding handle_add_faq handle_update_faq handle_remove_faq
length-faq s i part value h = (
  ground (arith, length-append s.faq_entries (record { question = []; answer = [] } ∷ [])),
  omega (arith, length-update_at i part value s.faq_entries),
  omega (arith, length-remove_at i s.faq_entries),
)
