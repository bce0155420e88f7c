-- ===== src/TokenClient/Tests.antt =====
-- The theorems on mobile/src/services/livekitApi.ts at concrete inputs.
use ai_voice_assistants.Common.{◌≡◌, refl, none, some, [], ◌∷◌}
use ai_voice_assistants.Common.Json.{Json, obj, end, field, str}
use ai_voice_assistants.Common.Text.{codes}
use ai_voice_assistants.TokenClient.Requests.{
  SessionConfig, Params, text, Message, Code, ApiError, err, Token, thrown, fetch_token,
}

abbrev options : SessionConfig
options = record {
  session_id = none;
  participant_name = some (codes " Ann ");
  profile_version = some 3;
}

abbrev endpoint : Params
endpoint = ("region", text (codes "eu")) ∷ []

abbrev body : Json
body = obj (field "token" (str "jwt") (field "ws_url" (str "wss://x") end))

abbrev token : Token
token = record {
  token = "jwt";
  ws_url = "wss://x";
  room = "";
  identity = "";
  session_id = some (codes "fresh");
}

abbrev unreached : ApiError
unreached = record { message = Message.unreachable; status = none; code = some Code.network_error }

thrown-unreached : (fetch_token options (codes "fresh") endpoint thrown).1 ≡ err unreached
unfolding fetch_token
thrown-unreached = refl
