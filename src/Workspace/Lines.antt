-- ===== src/Workspace/Lines.antt =====
-- Lists that a form shows as one text: `split(…).map(trim).filter(Boolean)` and `join(…)` of
-- frontend/src/App.tsx, as texts of code units.
use ai_voice_assistants.Common.{
  ◌≡◌, refl, ℕ, Bool, true, false, List, [], ◌∷◌, ◌++◌, arith, ◌==◌, if◌then◌else◌, keep, map,
  Bool-cases, inl, inr, All, ◌∙◌, ap,
}
use ai_voice_assistants.Common.Text.{
  trim, trim_start, trim_end, put_before, is_space, StartsPlain, EndsPlain, trim-IsPlain,
}

abbrev put_first : ℕ → List (List ℕ) → List (List ℕ)
put_first c [] = (c ∷ []) ∷ []
put_first c (s ∷ rest) = (c ∷ s) ∷ rest

unfoldable pub split_on : ℕ → List ℕ → List (List ℕ)
split_on mark [] = [] ∷ []
split_on mark (c ∷ s) =
    let rest = split_on mark s in if c == mark then [] ∷ rest else put_first c rest

abbrev pub is_full : List ℕ → Bool
is_full [] = false
is_full (c ∷ s) = true

unfoldable pub entries : ℕ → List ℕ → List (List ℕ)
unfolding split_on trim
entries mark s = keep is_full (map trim (split_on mark s))

unfoldable pub join : List ℕ → List (List ℕ) → List ℕ
join glue [] = []
join glue (s ∷ []) = s
join glue (s ∷ t ∷ rest) = s ++ (glue ++ join glue (t ∷ rest))

module _ (mark : ℕ) where
  abbrev pub IsOther : ℕ → Type 0
  IsOther c = (c == mark) ≡ false

  -- A text that is an entry: neither empty nor with white space at an end, and without the mark.
  abbrev pub IsEntry : List ℕ → Type 0
  IsEntry s = StartsPlain s × EndsPlain s × (is_full s ≡ true) × All IsOther s

  abbrev pub IsPad : ℕ → Type 0
  IsPad c = (is_space c ≡ true) × IsOther c

  pub split_on-whole : (s : List ℕ) → All IsOther s → split_on mark s ≡ s ∷ []
  unfolding split_on
  split_on-whole [] h = refl
  split_on-whole (c ∷ s) (p, h) = rw (p, split_on-whole s h) refl

  pub split_on-append :
      (s rest : List ℕ) → All IsOther s → split_on mark (s ++ mark ∷ rest) ≡ s ∷ split_on mark rest
  unfolding split_on
  split_on-append [] rest h = ground arith
  split_on-append (c ∷ s) rest (p, h) = rw (p, split_on-append s rest h) refl

  trim_end-plain : (s : List ℕ) → EndsPlain s → trim_end s ≡ s
  unfolding trim_end
  trim_end-plain [] h = refl
  trim_end-plain (c ∷ []) h = rw h refl
  trim_end-plain (c ∷ d ∷ s) h = rw (trim_end-plain (d ∷ s) h) refl

  pub trim-plain : (s : List ℕ) → StartsPlain s → EndsPlain s → trim s ≡ s
  unfolding trim trim_start
  trim-plain [] h k = trim_end-plain [] tt
  trim-plain (c ∷ s) h k = rw h (trim_end-plain (c ∷ s) k)

  trim-pad : (c : ℕ) (s : List ℕ) → is_space c ≡ true → trim (c ∷ s) ≡ trim s
  unfolding trim trim_start
  trim-pad c s h = rw h refl

  put_first-pad :
      (c : ℕ) (pieces : List (List ℕ))
      → is_space c ≡ true
      → keep is_full (map trim (put_first c pieces)) ≡ keep is_full (map trim pieces)
  unfolding keep trim trim_start trim_end
  put_first-pad c [] h = rw h refl
  put_first-pad c (s ∷ pieces) h = rw (trim-pad c s h) refl

  entries-pad : (pad s : List ℕ) → All IsPad pad → entries mark (pad ++ s) ≡ entries mark s
  unfolding entries split_on
  entries-pad [] s h = refl
  entries-pad (c ∷ pad) s ((space, other), h) =
      rw other (put_first-pad c (split_on mark (pad ++ s)) space ∙ entries-pad pad s h)

  keep-full :
      (s : List ℕ) (rest : List (List ℕ))
      → is_full s ≡ true
      → keep is_full (s ∷ rest) ≡ s ∷ keep is_full rest
  unfolding keep
  keep-full [] rest h = absurd (ground arith)
  keep-full (c ∷ s) rest h = refl

  entries-one : (s : List ℕ) → IsEntry s → entries mark s ≡ s ∷ []
  unfolding entries keep
  entries-one s (starts, ends, full, other) =
      rw (split_on-whole s other, trim-plain s starts ends) (keep-full s [] full)

  entries-more :
      (s rest : List ℕ) → IsEntry s → entries mark (s ++ mark ∷ rest) ≡ s ∷ entries mark rest
  unfolding entries keep
  entries-more s rest (starts, ends, full, other) =
      rw (split_on-append s rest other, trim-plain s starts ends)
        (keep-full s (map trim (split_on mark rest)) full)

  entries-nil : entries mark [] ≡ []
  unfolding entries split_on trim trim_start trim_end keep
  entries-nil = refl

  -- A list of entries is read back from the text that shows it.
  pub entries-join :
      (pad : List ℕ) (xs : List (List ℕ))
      → All IsPad pad
      → All IsEntry xs
      → entries mark (join (mark ∷ pad) xs) ≡ xs
  unfolding join
  entries-join pad [] p h = entries-nil
  entries-join pad (s ∷ []) p (e, h) = entries-one s e
  entries-join pad (s ∷ t ∷ rest) p (e, h) =
      entries-more s (pad ++ join (mark ∷ pad) (t ∷ rest)) e
      ∙ ap (λ more. s ∷ more)
          (entries-pad pad (join (mark ∷ pad) (t ∷ rest)) p ∙ entries-join pad (t ∷ rest) p h)

  put_first-IsOther :
      (c : ℕ) (pieces : List (List ℕ))
      → IsOther c
      → All (All IsOther) pieces
      → All (All IsOther) (put_first c pieces)
  put_first-IsOther c [] p h = ((p, tt), tt)
  put_first-IsOther c (s ∷ pieces) p (q, h) = ((p, q), h)

  split_on-IsOther : (s : List ℕ) → All (All IsOther) (split_on mark s)
  unfolding split_on
  split_on-IsOther [] = (tt, tt)
  split_on-IsOther (c ∷ s) = elim (Bool-cases (c == mark)) [
    | inl is ↦ rw is (tt, split_on-IsOther s)
    | inr other ↦ rw other (put_first-IsOther c (split_on mark s) other (split_on-IsOther s))
  ]

  trim_start-IsOther : (s : List ℕ) → All IsOther s → All IsOther (trim_start s)
  unfolding trim_start
  trim_start-IsOther [] h = tt
  trim_start-IsOther (c ∷ s) (p, h) = elim (Bool-cases (is_space c)) [
    | inl space ↦ rw space (trim_start-IsOther s h)
    | inr plain ↦ rw plain (p, h)
  ]

  put_before-IsOther :
      (c : ℕ) (s : List ℕ) → IsOther c → All IsOther s → All IsOther (put_before c s)
  put_before-IsOther c [] p h = elim (Bool-cases (is_space c)) [
    | inl space ↦ rw space tt
    | inr plain ↦ rw plain (p, tt)
  ]
  put_before-IsOther c (d ∷ s) p h = (p, h)

  trim_end-IsOther : (s : List ℕ) → All IsOther s → All IsOther (trim_end s)
  unfolding trim_end
  trim_end-IsOther [] h = tt
  trim_end-IsOther (c ∷ s) (p, h) = put_before-IsOther c (trim_end s) p (trim_end-IsOther s h)

  trim-IsOther : (s : List ℕ) → All IsOther s → All IsOther (trim s)
  unfolding trim
  trim-IsOther s h = trim_end-IsOther (trim_start s) (trim_start-IsOther s h)

  trim-IsEntry : (s : List ℕ) → All IsOther s → is_full (trim s) ≡ true → IsEntry (trim s)
  trim-IsEntry s h full = ((trim-IsPlain s).0, (trim-IsPlain s).1, full, trim-IsOther s h)

  kept-entries :
      (pieces : List (List ℕ))
      → All (All IsOther) pieces
      → All IsEntry (keep is_full (map trim pieces))
  unfolding keep
  kept-entries [] h = tt
  kept-entries (s ∷ pieces) (p, h) = go (is_full (trim s)) refl (kept-entries pieces h)
    where
      go :
          (b : Bool)
          → is_full (trim s) ≡ b
          → All IsEntry (keep is_full (map trim pieces))
          → All IsEntry (elim b [
            | true ↦ trim s ∷ keep is_full (map trim pieces)
            | false ↦ keep is_full (map trim pieces)
          ])
      go true full rest = (trim-IsEntry s p full, rest)
      go false empty rest = rest

  pub entries-All : (s : List ℕ) → All IsEntry (entries mark s)
  unfolding entries
  entries-All s = kept-entries (split_on mark s) (split_on-IsOther s)
