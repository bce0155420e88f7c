-- ===== src/Workspace/RulesKept.antt =====
-- That the text of the editor of rules always reads as the rules: theorems on frontend/src/App.tsx.
use ai_voice_assistants.Common.{
  ◌≡◌, refl, ℕ, zero, suc, String, ◌≤◌, ◌*◌, Bool, true, false, not, Option, none, some, List, [],
  ◌∷◌, arith, ltb, if◌then◌else◌, take, length, length-take, All, All-take, ◌∙◌, ap, sym,
}
use ai_voice_assistants.Common.Text.{trim}
use ai_voice_assistants.Workspace.Lines.{entries, is_full, IsEntry, entries-join, entries-All}
use ai_voice_assistants.Workspace.Rules.{
  newline, limit, parse_rules, shown, Editor, Note, same_text, update_escalation, rules_changed,
  clean, upload, handle_upload, Reading, take_out, read_out, file_read, was_read, Event, typed,
  chosen, replaced, run, opened,
}

take-take : (n : ℕ) (xs : List (List ℕ)) → take n (take n xs) ≡ take n xs
take-take zero xs = refl
take-take (suc n) [] = refl
take-take (suc n) (x ∷ xs) = ap (λ more. x ∷ more) (take-take n xs)

parse_rules-All : (text : List ℕ) → All (IsEntry newline) (parse_rules text)
unfolding parse_rules
parse_rules-All text =
    All-take (IsEntry newline) limit (entries newline text) (entries-All newline text)

-- The rules that are read from a text are read again from the text that shows them, which is what a page
-- that is loaded anew does; there are ten at most, none is empty, and none has a line break or white
-- space at an end.
pub parse_rules-shown :
    (text : List ℕ)
    → (parse_rules (shown (parse_rules text)) ≡ parse_rules text)
      × (length (parse_rules text) ≤ 10)
      × All (IsEntry newline) (parse_rules text)
unfolding parse_rules
parse_rules-shown text = (
  ap (take limit) (entries-join newline [] (parse_rules text) tt (parse_rules-All text))
      ∙ take-take limit (entries newline text),
  length-take limit (entries newline text),
  parse_rules-All text,
)

same_cons : (c d : ℕ) (s t : List ℕ) → c ≡ d → s ≡ t → (c ∷ s) ≡ (d ∷ t)
same_cons c d s t h k = rw (h, k) refl

same_text-eq : (s t : List ℕ) → same_text s t ≡ true → s ≡ t
same_text-eq [] [] h = refl
same_text-eq [] (d ∷ t) h = absurd (ground arith)
same_text-eq (c ∷ s) [] h = absurd (ground arith)
same_text-eq (c ∷ s) (d ∷ t) h = same_cons c d s t (ground arith) (same_text-eq s t (ground arith))

-- The text reads as the rules.
abbrev pub IsShown : Editor → Type 0
IsShown s = parse_rules s.text ≡ s.rules

-- Rules that are read from some text.
abbrev pub AreRead : List (List ℕ) → Type 0
AreRead rules = (text : List ℕ) × (rules ≡ parse_rules text)

shown-AreRead : (rules : List (List ℕ)) → AreRead rules → parse_rules (shown rules) ≡ rules
shown-AreRead rules (text, e) = rw e ((parse_rules-shown text).0)

rules_changed-IsShown :
    (rules : List (List ℕ)) (s : Editor) → AreRead rules → IsShown (rules_changed rules s)
unfolding rules_changed
rules_changed-IsShown rules s read = go (same_text (shown (parse_rules s.text)) (shown rules)) refl
  where
    go :
        (b : Bool)
        → same_text (shown (parse_rules s.text)) (shown rules) ≡ b
        → IsShown (
            if not b
            then record s { text = shown rules; rules = rules }
            else record s { rules = rules })
    go false h = shown-AreRead rules read
    go true h =
        sym ((parse_rules-shown s.text).0)
        ∙ (ap parse_rules (same_text-eq _ _ h) ∙ shown-AreRead rules read)

if-IsShown : (b : Bool) (s t : Editor) → IsShown s → IsShown t → IsShown (if b then s else t)
if-IsShown true s t h k = h
if-IsShown false s t h k = k

upload-IsShown :
    (name : String) (rendered : List ℕ) (content : Option (List ℕ)) (s : Editor)
    → IsShown s
    → IsShown (upload name rendered content s)
upload-IsShown name rendered none s h = h
upload-IsShown name rendered (some content) s h =
    if-IsShown (not (is_full (trim (clean content)))) (record s { note = some Note.empty }) _ h refl

abbrev pub AreAllRead : List Event → Type 0
AreAllRead [] = Unit
AreAllRead (replaced rules ∷ es) = AreRead rules × AreAllRead es
AreAllRead (e ∷ es) = AreAllRead es

read_out-IsShown :
    (o : Option (Reading × List Reading)) (s : Editor) → IsShown s → IsShown (read_out o s)
read_out-IsShown none s h = h
read_out-IsShown (some (r, rest)) s h =
    upload-IsShown r.name r.rendered r.content (record s { reading = rest }) h

run-IsShown : (es : List Event) (s : Editor) → AreAllRead es → IsShown s → IsShown (run es s)
unfolding run handle_upload file_read
run-IsShown [] s read h = h
run-IsShown (typed text ∷ es) s read h = run-IsShown es (update_escalation text s) read refl
run-IsShown (chosen none ∷ es) s read h = run-IsShown es s read h
run-IsShown (chosen (some file) ∷ es) s later h =
    run-IsShown es (handle_upload (some file) s) later
      (if-IsShown (ltb (200 * 1024) file.size) (record s { note = some Note.too_large }) _ h h)
run-IsShown (was_read i ∷ es) s later h =
    run-IsShown es (file_read i s) later (read_out-IsShown (take_out i s.reading) s h)
run-IsShown (replaced rules ∷ es) s (read, later) h =
    run-IsShown es (rules_changed rules s) later (rules_changed-IsShown rules s read)

-- Whatever is typed or uploaded, and whenever the stored rules are loaded, the rules of the editor are
-- those that its text reads as, where the stored rules are such as were read from some text.
pub run-opened-IsShown :
    (rules : List (List ℕ)) (es : List Event)
    → AreRead rules
    → AreAllRead es
    → parse_rules (run es (opened rules)).text ≡ (run es (opened rules)).rules
run-opened-IsShown rules es read later =
    run-IsShown es (opened rules) later (shown-AreRead rules read)
