-- ===== src/Workspace/Rules.antt =====
-- The editor of escalation rules of frontend/src/App.tsx: its text, the rules that its parent keeps,
-- and the upload of a file. Texts are lists of code units.
use ai_voice_assistants.Common.{
  ℕ, zero, suc, ◌*◌, String, Bool, true, false, not, ◌&&◌, Option, none, some, List, [], ◌∷◌, ◌++◌,
  ◌==◌, ltb, if◌then◌else◌, keep, take, length,
}
use ai_voice_assistants.Common.Text.{trim, trim_end}
use ai_voice_assistants.Workspace.Lines.{entries, join, is_full}

abbrev pub newline : ℕ
newline = 10

abbrev pub limit : ℕ
limit = 10

-- `parseRules`.
unfoldable pub parse_rules : List ℕ → List (List ℕ)
parse_rules text = take limit (entries newline text)

abbrev pub shown : List (List ℕ) → List ℕ
shown rules = join (newline ∷ []) rules

pub data Note : Type 0 where
  loaded : String → Note
  loaded_first : String → ℕ → Note
  too_large empty unreadable : Note

-- `content`: `none` where reading the file throws.
pub record File : Type 0 where
  pub name : String
  pub size : ℕ
  pub content : Option (List ℕ)

-- A file that is read: the content will be joined to the text of the render in which it was chosen.
pub record Reading : Type 0 where
  pub name : String
  pub content : Option (List ℕ)
  pub rendered : List ℕ

pub record Editor : Type 0 where
  pub text : List ℕ
  pub rules : List (List ℕ)
  pub note : Option Note
  pub reading : List Reading

abbrev pub same_text : List ℕ → List ℕ → Bool
same_text [] [] = true
same_text (c ∷ s) (d ∷ t) = c == d && same_text s t
same_text _ _ = false

abbrev pub update_escalation : List ℕ → Editor → Editor
update_escalation text s = record s { text = text; rules = parse_rules text }

-- The parent's rules change, and the effect replaces the text where it does not read as these.
unfoldable pub rules_changed : List (List ℕ) → Editor → Editor
unfolding parse_rules join
rules_changed rules s =
    if not (same_text (shown (parse_rules s.text)) (shown rules))
    then record s { text = shown rules; rules = rules }
    else record s { rules = rules }

-- `replace(/\r\n?/g, "\n")`; `after`: whether the last unit was a carriage return.
unfoldable pub unix_lines : Bool → List ℕ → List ℕ
unix_lines after [] = []
unix_lines after (c ∷ s) =
    let plain = unix_lines false s in
    let returned = unix_lines true s in
    if c == 13 then newline ∷ returned else if after && c == newline then plain else c ∷ plain

abbrev pub clean : List ℕ → List ℕ
clean content = keep (λ c. not (c == 0)) (unix_lines false content)

unfoldable pub combined : List ℕ → List ℕ → List ℕ
unfolding trim_end trim
combined text content = if is_full (trim text) then trim_end text ++ newline ∷ content else content

abbrev note_of : String → ℕ → Note
note_of name total = if ltb limit total then loaded_first name total else loaded name

abbrev pub upload : String → List ℕ → Option (List ℕ) → Editor → Editor
upload name rendered none s = record s { note = some unreadable }
upload name rendered (some content) s =
    if not (is_full (trim (clean content)))
    then record s { note = some empty }
    else record (update_escalation (combined rendered (clean content)) s) {
      note = some (note_of name (length (entries newline (combined rendered (clean content)))));
    }

-- `handleUpload` up to its await.
unfoldable pub handle_upload : Option File → Editor → Editor
handle_upload none s = s
handle_upload (some file) s =
    if ltb (200 * 1024) file.size then record s { note = some too_large } else record s {
      reading = record { name = file.name; content = file.content; rendered = s.text } ∷ s.reading;
    }

abbrev put_back : Reading → Option (Reading × List Reading) → Option (Reading × List Reading)
put_back r none = none
put_back r (some (other, rest)) = some (other, r ∷ rest)

-- The reading of an index, and the others.
unfoldable pub take_out : ℕ → List Reading → Option (Reading × List Reading)
take_out i [] = none
take_out zero (r ∷ rs) = some (r, rs)
take_out (suc i) (r ∷ rs) = put_back r (take_out i rs)

abbrev pub read_out : Option (Reading × List Reading) → Editor → Editor
read_out none s = s
read_out (some (r, rest)) s = upload r.name r.rendered r.content (record s { reading = rest })

-- The rest of `handleUpload`, for the file of an index among those that are read.
unfoldable pub file_read : ℕ → Editor → Editor
unfolding combined unix_lines parse_rules trim take_out
file_read i s = read_out (take_out i s.reading) s

-- The editor as it is first shown.
abbrev pub opened : List (List ℕ) → Editor
opened rules = record { text = shown rules; rules = rules; note = none; reading = [] }

-- What happens to the editor: the user types, a file is chosen, one has been read, or the parent's rules
-- change.
pub data Event : Type 0 where
  typed : List ℕ → Event
  chosen : Option File → Event
  was_read : ℕ → Event
  replaced : List (List ℕ) → Event

unfoldable pub step : Event → Editor → Editor
unfolding handle_upload file_read rules_changed parse_rules
step (typed text) s = update_escalation text s
step (chosen file) s = handle_upload file s
step (was_read i) s = file_read i s
step (replaced rules) s = rules_changed rules s

unfoldable pub run : List Event → Editor → Editor
unfolding step
run [] s = s
run (e ∷ es) s = run es (step e s)
