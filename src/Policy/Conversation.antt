-- ===== src/Policy/Conversation.antt =====
-- What the policy promises of a turn.
use ai_voice_assistants.Common.{
  ℕ, ◌≡◌, ◌≢◌, ◌⊎◌, inl, String, Bool, true, false, List, [], ◌∷◌, arith,
}
use ai_voice_assistants.Common.Text.{trim}
use ai_voice_assistants.Policy.Turns.{
  Action, Reason, Decision, Patterns, matches, classify_trimmed, classify_assistant_turn,
}

module _ (patterns : Patterns) (test : String → List ℕ → Bool) (to_lower : List ℕ → List ℕ) where
  trimmed-activates :
      (text : List ℕ) (active : Bool)
      → (classify_trimmed patterns test text active).context_active ≡ true
      → (active ≡ true) ⊎ (matches patterns test patterns.calendar_intent text ≡ true)
  unfolding classify_trimmed
  trimmed-activates [] active h = inl h
  trimmed-activates (c ∷ text) active h = ground arith

  -- A turn opens the context only if it matches a calendar pattern.
  pub turn-activates :
      (input : List ℕ) (active : Bool)
      → (classify_assistant_turn patterns test to_lower input active).context_active ≡ true
      → (active ≡ true)
        ⊎ (matches patterns test patterns.calendar_intent (to_lower (trim input)) ≡ true)
  unfolding classify_assistant_turn
  turn-activates input active h = trimmed-activates (to_lower (trim input)) active h

  -- How the action, the reason, and the context of one decision fit together.
  pub record IsCoherent (active : Bool) (d : Decision) : Type 0 where
    -- a redirection closes the context, and only a redirection does
    pub redirects : d.action ≡ Action.redirect → d.context_active ≡ false
    pub keeps : active ≡ true → d.context_active ≡ false → d.action ≡ Action.redirect
    -- a clarification leaves it as it was
    pub clarifies : d.action ≡ Action.clarify → d.context_active ≡ active
    -- a follow-up is allowed only in an active context
    pub follows : d.reason ≡ Reason.calendar_follow_up → active ≡ true
    -- a diversion or an off-topic turn is never allowed
    pub diverts :
        (d.reason ≡ Reason.hard_diversion) ⊎ (d.reason ≡ Reason.off_topic)
        → d.action ≡ Action.redirect

  classify_trimmed-IsCoherent :
      (text : List ℕ) (active : Bool)
      → IsCoherent active (classify_trimmed patterns test text active)
  unfolding classify_trimmed
  classify_trimmed-IsCoherent [] active = ground arith
  classify_trimmed-IsCoherent (c ∷ text) active = ground arith

  -- Every decision is coherent: a redirection closes the calendar context and nothing else does; a
  -- clarification leaves it; a follow-up is allowed only in an active context; and a diversion is
  -- always redirected.
  pub classify-IsCoherent :
      (input : List ℕ) (active : Bool)
      → IsCoherent active (classify_assistant_turn patterns test to_lower input active)
  unfolding classify_assistant_turn
  classify-IsCoherent input active = classify_trimmed-IsCoherent (to_lower (trim input)) active

  -- A turn that matches a diversion pattern is never allowed, whatever else it matches: a request
  -- for the calendar in it does not help.
  pub diversion-not_allowed :
      (input : List ℕ) (active : Bool)
      → (matches patterns test patterns.hard_diversion (to_lower (trim input)) ≡ true)
        ⊎ (matches patterns test patterns.off_topic (to_lower (trim input)) ≡ true)
      → (classify_assistant_turn patterns test to_lower input active).action ≢ Action.allow
  unfolding classify_assistant_turn
  diversion-not_allowed input active h = diverted (to_lower (trim input)) h
    where
      diverted :
          (text : List ℕ)
          → (matches patterns test patterns.hard_diversion text ≡ true)
            ⊎ (matches patterns test patterns.off_topic text ≡ true)
          → (classify_trimmed patterns test text active).action ≢ Action.allow
      diverted [] h = ground arith
      diverted (c ∷ text) h = ground arith
