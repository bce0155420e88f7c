-- ===== src/Workspace/Languages.antt =====
-- The response languages of the assistant's pages of frontend/src/App.tsx, and that what they allow
-- is accepted by the compiler of profiles.
use ai_voice_assistants.Common.{
  String, Bool, not, ◌||◌, Option, none, some, List, [], ◌∷◌, ◌++◌, str_eq, if◌then◌else◌, keep,
}
use ai_voice_assistants.Common.Json.{Json, str, as_array}
use ai_voice_assistants.Capabilities.Sets.{includes, distinct}
use ai_voice_assistants.Capabilities.Compile.{with_default}

abbrev pub is_language : String → Bool
is_language s = str_eq s "fr-FR" || str_eq s "fr-BE" || str_eq s "en"

unfoldable pub read_response_language : Option Json → String
read_response_language (some (str s)) = if is_language s then s else "en"
read_response_language _ = "en"

-- The filter of the array's items.
unfoldable pub languages_of : List Json → List String
languages_of [] = []
languages_of (str s ∷ items) = if is_language s then s ∷ languages_of items else languages_of items
languages_of (item ∷ items) = languages_of items

abbrev pub listed : Option (List Json) → List String
listed none = []
listed (some items) = languages_of items

-- After the `unshift` the list is never empty, so its last line never takes its other branch.
unfoldable pub read_allowed_languages : Option Json → String → List String
unfolding languages_of distinct with_default
read_allowed_languages value default = with_default default (distinct (listed (as_array value)))

-- The language policy that is edited: the default language and the allowed ones.
abbrev pub Policy : Type 0
Policy = String × List String

-- A default is chosen; the list of choices holds the supported languages.
unfoldable pub choose_default : String → Policy → Policy
choose_default next (default, allowed) =
    (next, if includes next allowed then allowed else allowed ++ next ∷ [])

-- The box of a language is checked or cleared; the box of the default is disabled.
unfoldable pub check_language : String → Bool → Policy → Policy
unfolding distinct
check_language language checked (default, allowed) = (
  default,
  distinct
      (if checked then allowed ++ language ∷ [] else keep (λ l. not (str_eq l language)) allowed),
)
