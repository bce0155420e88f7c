-- ===== src/Screens/Deck.antt =====
-- The deck of tasks: mobile/src/components/TaskDeck.tsx. How an ID and a time are written is a
-- parameter. A tool's name that is no text makes the loading throw.
use ai_voice_assistants.Common.{
  ℕ, String, Bool, true, false, not, ◌||◌, Option, none, some, List, [], ◌∷◌, if◌then◌else◌, str_eq,
  keep, map,
}
use ai_voice_assistants.Common.Text.{codes}
use ai_voice_assistants.Common.Json.{Json, str, obj, field, end, truthy}
use ai_voice_assistants.MobileApi.Assistant.{Answer}
use ai_voice_assistants.MobileApi.Integrations.{TaskRecord, get_tasks}
use ai_voice_assistants.Workspace.ThreeCx.{starts_with}

pub data Category : Type 0 where
  calendar telephony general : Category

pub data Filter : Type 0 where
  all only_calendar only_telephony : Filter

pub record Item : Type 0 where
  pub id : String
  pub title : Json
  pub tool_name : String
  pub status : Json
  pub output : Option Json
  pub error_message : Option Json
  pub category : Category
  pub timestamp : String

pub record Deck : Type 0 where
  pub tasks : List Item
  pub is_loading : Bool
  pub active_filter : Filter
  pub last_dismissed : Option Item

-- `text.includes(part)`.
abbrev pub has_part : List ℕ → List ℕ → Bool
has_part part [] = starts_with part []
has_part part (c ∷ s) = starts_with part (c ∷ s) || has_part part s

unfoldable pub category_of : String → Category
category_of name =
    if has_part (codes "calendar") (codes name)
    then calendar
    else if has_part (codes "3cx") (codes name) || has_part (codes "telephony") (codes name)
    then telephony
    else general

module _ (shown_id shown_time : Option Json → String) where
  abbrev named_item : Json → TaskRecord → Option Item
  named_item (str name) t = some (record {
    id = shown_id t.id;
    title = if truthy t.title then t.title else str name;
    tool_name = name;
    status = if truthy t.status then t.status else str "completed";
    output = t.output_result;
    error_message = t.error_message;
    category = category_of name;
    timestamp = shown_time t.created_at;
  })
  named_item v t = none

  abbrev put_item : Option Item → Option (List Item) → Option (List Item)
  put_item (some item) (some items) = some (item ∷ items)
  put_item _ _ = none

  unfoldable pub items_of : List TaskRecord → Option (List Item)
  unfolding category_of
  items_of [] = some []
  items_of (t ∷ ts) = put_item (named_item t.tool_name t) (items_of ts)

  abbrev or_empty : Option (List Item) → List Item
  or_empty none = []
  or_empty (some items) = items

  -- The answer to `getTasks`; where the loading throws, the deck is emptied.
  unfoldable pub tasks_fetched : Option Answer → Deck → Deck
  unfolding items_of get_tasks
  tasks_fetched answer s = record s {
    tasks = or_empty (items_of (get_tasks answer));
    is_loading = false;
  }

unfoldable pub fetch_tasks : Deck → Deck
fetch_tasks s = record s { is_loading = true }

abbrev pub find : String → List Item → Option Item
find id [] = none
find id (t ∷ ts) = if str_eq t.id id then some t else find id ts

abbrev pub dismissed : String → Option Item → Deck → Deck
dismissed id none s = s
dismissed id (some target) s = record s {
  last_dismissed = some target;
  tasks = keep (λ t. not (str_eq t.id id)) s.tasks;
}

unfoldable pub handle_dismiss : String → Deck → Deck
handle_dismiss id s = dismissed id (find id s.tasks) s

abbrev pub undone : Option Item → Deck → Deck
undone none s = s
undone (some last) s = record s { tasks = last ∷ s.tasks; last_dismissed = none }

unfoldable pub handle_undo : Deck → Deck
handle_undo s = undone s.last_dismissed s

abbrev cancelled : String → String → Item → Item
cancelled id now t =
    if str_eq t.id id
    then record t {
      status = str "cancelled";
      output = some (
          obj (
            field "cancelledAt" (str now)
              (field "reason" (str "User requested cancellation") end)));
    }
    else t

-- The answer to `cancelTask`, whose result is not read.
unfoldable pub cancel_settled : String → String → Option Answer → Deck → Deck
cancel_settled id now answer s = record s { tasks = map (cancelled id now) s.tasks }

abbrev fits : Filter → Category → Bool
fits only_calendar calendar = true
fits only_calendar _ = false
fits only_telephony telephony = true
fits only_telephony _ = false
fits all _ = true

unfoldable pub filtered_tasks : Deck → List Item
filtered_tasks s = keep (λ t. fits s.active_filter t.category) s.tasks
