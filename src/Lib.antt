-- ===== src/Lib.antt =====
-- AI Voice Assistants: a model of the TypeScript program of the repository, a voice assistant for
-- companies with a web application (frontend) and a mobile application (mobile) over LiveKit.
--
-- How the parts interact. The web client fetches a token through the route /api/livekit/token, which
-- `proxyBackend` forwards to the backend for a verified user; it joins a LiveKit room, publishes its
-- microphone, and plays the audio of the agent. A voice activity hook decides when the user's speech
-- interrupts the assistant. The agent reports its life over data packets, and its silence ends the
-- session by a heartbeat timer. Tool calls of the assistant are guarded by a policy in the browser
-- and again in a route of the server. The mobile client has a hook of its own over the same tokens.
--
-- Which file models what:
-- Common: Boolean tests, lists, JSON values with JavaScript's tests, and texts as code units.
-- Common.Decimal: decimal numerals, as `toString` and `padStart` write them.
-- LiveKit: frontend/src/hooks/useLiveKitSession.ts and frontend/src/lib/livekitSessionRuntime.ts.
-- State is the record of the hook's refs and state variables; Connect, Audio and Packets hold one
-- function for each handler; Events is the event loop. A call of `connect` is cut at its awaits into
-- `connect`, `token_received`, `room_joined`, `microphone_published` and `connect_failed`.
-- Vad: frontend/src/hooks/useClientVAD.ts.
-- VoiceBot: mobile/src/hooks/useVoiceBot.ts, mobile/src/services/voicePackets.ts and
-- mobile/src/types/voiceBot.ts, in the same way.
-- Capabilities: frontend/src/lib/capabilityRegistry.ts.
-- Sandbox: frontend/src/components/sandbox/TestingSandboxPage.tsx. State, Connect and Packets hold one
-- function for each handler, `startSession` is cut at its awaits (the field phase says where it
-- waits), and Events is the event loop of a page; Tabs runs several pages of one browser, and Call is
-- the abstract call that a page refines.
-- GeminiLive: frontend/src/hooks/useGeminiLiveSession.ts. State, Calls, Connect and Playback hold its
-- handlers, Pcm the encoding of audio, and Events the event loop; Context speaks of the calendar context.
-- Workspace: the switches, the languages, the editor of rules, the cards of the 3CX and Google
-- connections and the figures of the dashboard of frontend/src/App.tsx.
-- Policy: frontend/src/lib/assistantPolicy.ts, frontend/src/lib/tools.ts,
-- frontend/src/lib/safeLogging.ts, and the idempotency keys of
-- frontend/src/hooks/useGeminiLiveSession.ts.
-- TokenClient: mobile/src/services/livekitApi.ts.
-- MobileApi: mobile/src/services/api.ts (Operations holds the requests, Replies and Integrations what is
-- made of the answers), and in Account mobile/src/context/AuthContext.tsx over it.
-- Screens: the handlers of mobile/src/components/TaskDeck.tsx and mobile/src/screens/SettingsScreen.tsx.
-- Cache: frontend/src/lib/workspaceCache.ts.
-- Web: frontend/src/lib/sessionContext.ts, frontend/src/lib/backendProxy.ts,
-- frontend/src/lib/mockMode.ts, the route handlers under frontend/src/app/api, and
-- frontend/src/app/auth/google/[path]/route.ts; Paths is what `fetch` makes of a path.
--
-- What the model abstracts. A value that a hook holds in a ref and in a state variable is one field;
-- rooms, tracks, audio nodes and requests are numbers, given out by a counter. Events may come in any
-- order, so the model has more runs than the program: the heartbeat timer may fire after it was
-- cleared (and is then ignored), an activation may settle that was never begun, and the retry of a
-- blocked playback is such a settling. Numbers in JSON are natural. In the voice sessions only audio
-- tracks are subscribed. An ID in an answer of the identity provider that is no string counts as
-- missing. Texts of errors, the measured latency, and what is only drawn are left out.
--
-- A response with a body is made for a status from 200 to 599 but 204, 205 and 304; for any other status
-- the constructor throws, which the proxy counts as a failed attempt and the identity route answers
-- with 502. `fetch` resolves the segments `.` and `..` of a path (Web.Paths), which `encodeURIComponent`
-- leaves as they are. Audio that is no base64 is not considered; audio with an odd number of bytes, or
-- with none, throws out of the handler of its message.
--
-- A page of the sandbox that is left while it connects goes on as the code does. In a browser without
-- the Locks API its session goes on with no lock; what is proved of the lock supposes the API. A tool call of the
-- browser-direct hook waits for its answer under its place in a list, so that answers come in any
-- order.
--
-- Parameters. `btoa` and `atob`, with what `atob` undoes as a hypothesis; the lock manager of the
-- browser, which is there and grants a lock only while no page holds it where that matters; whether a regular expression matches a
-- text, `toLowerCase` in the policy, SHA-256, HMAC, `Date.parse`, the parser of URLs, the answers of
-- the identity provider and of the backend, and the texts of assistantPolicy.json. SHA-256 is assumed
-- to give 64 lower-case hexadecimal digits where that matters.
--
-- Bounds. The attempts of the proxy recurse on the retries that are left, which is what the loop
-- counts. The loop over the chunks of a frame recurses on fuel, one more than the bytes of the frame,
-- with which it ends. Decimal numerals recurse on accessibility; every other function is by recursion
-- on its data, so nothing runs out of fuel.
--
-- Not modelled: the mock backend, the base URLs of the mobile API client, and the other mobile
-- screens; what the React components draw; the copy of the Live API web console; the audio worklet;
-- and the agent, the backend, the database and the connector, which are not TypeScript.
pub mod Common
pub mod LiveKit
pub mod Vad
pub mod VoiceBot
pub mod Capabilities
pub mod Policy
pub mod GeminiLive
pub mod Sandbox
pub mod TokenClient
pub mod Cache
pub mod Web
pub mod Workspace
pub mod Screens
pub mod MobileApi
