-- ===== src/MobileApi/Laws.antt =====
-- What mobile/src/services/api.ts promises of a configuration and of the call history.
use ai_voice_assistants.Common.{
  ℕ, ◌+◌, ◌*◌, ◌-◌, ◌≤◌, ◌<◌, ◌≡◌, refl, true, false, Option, none, some, [], ◌∷◌, arith, eq_iff,
  ◌⊎◌, ◌↔◌,
}
use ai_voice_assistants.Common.Json.{Json, str, obj, end, field, truthy_field}
use ai_voice_assistants.MobileApi.Assistant.{
  Switches, Answer, Payload, validation, storing, coalesce, switched, decode, formatted,
  get_assistant_config, save_assistant_config,
}
use ai_voice_assistants.MobileApi.Calls.{
  duration_seconds, duration, CallStatus, status, listed_state,
}

decode-formatted : (s : Switches) → decode (formatted s) ≡ s
unfolding decode formatted switched coalesce
decode-formatted s = refl

-- What the backend would answer to a request for the configuration that was stored.
abbrev pub answer_with : Json → Answer
answer_with capabilities = record {
  is_ok = true;
  body = some (obj (field "data" (obj (field "capabilities" capabilities end)) end));
}

-- The switches that are saved are the switches that are loaded, if the backend returns what was
-- stored.
pub get-formatted :
    (s : Switches)
    → (content : Json) × (get_assistant_config (some (answer_with (formatted s)))
        ≡ some (record { content = content; capabilities = s }))
unfolding get_assistant_config decode formatted switched coalesce
get-formatted s = (obj (field "capabilities" (formatted s) end), refl)

-- The answer to the validation is ignored: whatever it is, a deployment stores the profile as
-- deployed, and ends in the same way.
pub save_assistant_config-validated :
    (config : Json) (s : Switches) (validated other stored : Option Answer)
    → (save_assistant_config config s true validated stored
        ≡ save_assistant_config config s true other stored)
      × ((p : Payload) × ((save_assistant_config config s true validated stored).1
            ≡ validation p ∷ storing p ∷ [])
          × (p.is_deployed ≡ true))
unfolding save_assistant_config
save_assistant_config-validated config s validated other stored =
    (refl, (record { config = config; capabilities = formatted s; is_deployed = true }, refl, refl))

-- The parts of a duration are the duration: the seconds below 60, in two digits.
pub duration-parts :
    (start ended : ℕ)
    → ((duration (duration_seconds (some start) (some (some ended)))).minutes * 60
          + (duration (duration_seconds (some start) (some (some ended)))).tens * 10
          + (duration (duration_seconds (some start) (some (some ended)))).ones
        ≡ duration_seconds (some start) (some (some ended)))
      × ((duration (duration_seconds (some start) (some (some ended)))).tens < 6)
      × ((duration (duration_seconds (some start) (some (some ended)))).ones < 10)
      × (start ≤ ended
          → (duration_seconds (some start) (some (some ended)) * 1000 ≤ ended - start)
            × (ended - start < duration_seconds (some start) (some (some ended)) * 1000 + 1000))
unfolding duration duration_seconds
duration-parts start ended =
    (omega arith, omega arith, omega arith, λ h. (omega arith, omega arith))

-- A call that has a state is listed as ended exactly where its state is "ended" or "completed"; a
-- call with none is listed with the state "ended" and the status of an active call.
pub status-listed_state :
    (state : Option Json)
    → (truthy_field state ≡ true
        → (status state ≡ CallStatus.ended)
          ↔ ((listed_state state ≡ str "ended") ⊎ (listed_state state ≡ str "completed")))
      × (truthy_field state ≡ false
          → (listed_state state ≡ str "ended") × (status state ≡ CallStatus.active))
unfolding status listed_state
status-listed_state none = (λ t. absurd (ground arith), λ t. (refl, refl))
status-listed_state (some (str s)) = (
  λ t. ground (arith, eq_iff s "ended", eq_iff s "completed", eq_iff s "failed"),
  λ t. let e : s ≡ "" = ground (arith, eq_iff s "") in rw e (refl, refl),
)
status-listed_state (some v) = (λ t. ground arith, λ t. ground arith)
