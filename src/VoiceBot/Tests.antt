-- ===== src/VoiceBot/Tests.antt =====
-- The theorems on mobile/src/hooks/useVoiceBot.ts and mobile/src/types/voiceBot.ts at concrete inputs.
use ai_voice_assistants.Common.{◌≡◌, refl, true, some, List, [], ◌∷◌, arith, contains}
use ai_voice_assistants.Common.Json.{Json, str, obj, end, field}
use ai_voice_assistants.VoiceBot.State.{Call, Phase, initial, update}
use ai_voice_assistants.VoiceBot.Calls.{
  initiate_call, end_call, token_received, audio_started, room_joined,
}
use ai_voice_assistants.VoiceBot.Room.{room_disconnected}
use ai_voice_assistants.VoiceBot.Events.{Event, step, run}
use ai_voice_assistants.VoiceBot.Tidy.{
  IsAccounted, AllTimely, run_timely-IsAccounted, stale_audio-blocks_calls,
}

abbrev spoken : Json
spoken = obj (field "type" (str "transcript") (field "text" (str " hello ") end))

-- A call that is ended while its room is joined.
abbrev ended_early : List Event
ended_early =
    Event.initiate_called
    ∷ Event.token_arrived 1
    ∷ Event.audio_ready 1
    ∷ Event.end_called
    ∷ Event.joined 1
    ∷ []

ended_early-opened : contains (run ended_early initial).opened 0 ≡ true
unfolding run step initiate_call token_received audio_started room_joined end_call
ended_early-opened = refl

ended_early-timely : AllTimely ended_early initial
unfolding step initiate_call token_received
ended_early-timely = (tt, (tt, (refl, (tt, (tt, tt)))))

run_timely-IsAccounted_example : IsAccounted 0 (run ended_early initial)
run_timely-IsAccounted_example =
    run_timely-IsAccounted ended_early 0 ended_early-timely ended_early-opened

-- The call of generation 1 starts its native audio, but has been ended since.
abbrev stale : Call
stale = record initial { generation = 2; phase = update initial.phase 1 Phase.preparing }

stale_audio-blocks_calls_example :
    ((room_joined 1 (audio_started 1 stale)).room ≡ some 0)
    × (contains (room_joined 1 (audio_started 1 stale)).closed 0 ≡ true)
    × (room_disconnected 1 0 (room_joined 1 (audio_started 1 stale))
        ≡ room_joined 1 (audio_started 1 stale))
    × (initiate_call (room_joined 1 (audio_started 1 stale))
        ≡ room_joined 1 (audio_started 1 stale))
stale_audio-blocks_calls_example = stale_audio-blocks_calls stale 1 refl (ground arith)

abbrev talking : Call
talking = record initial { room = some 0; is_bot_speaking = true }
