-- ===== src/Protocol/Frames/Payloads.antt =====
-- The payload of each frame, and the checks of the strict frame schemas.
use gptsession_bridge.Shared.{
  ℕ, ◌+◌, String, Bool, true, ◌&&◌, List, [], ◌∷◌, Option, none, some, length, leb, all, contains,
  all_distinct, nat_eq, if◌then◌else◌,
}
use gptsession_bridge.Protocol.Text.{
  opaque_id, request_id, model_id, implementation_version, frame_sequence, utf16_length,
  length_within,
}
use gptsession_bridge.Protocol.Errors.{BridgeError, bridge_error_ok}
use gptsession_bridge.Protocol.Models.{
  BrowserCapabilities, browser_capabilities_ok, reasoning_effort_ok,
}
use gptsession_bridge.Protocol.Agent.{
  AgentStatus, ActiveAgentStatus, agent_status_ok, active_status_ok,
}
use gptsession_bridge.Protocol.Frames.Types.{
  FrameType, PeerRole, SessionCloseReason, TurnFinishReason, TurnDeltaChannel,
}

-- NATIVE_MESSAGING_PROTOCOL_VERSION
abbrev pub protocol_version : ℕ
protocol_version = 2

pub record Hello : Type 0 where
  pub peer : PeerRole
  pub version : String
  pub supported_protocol_versions : List ℕ

pub record AgentTurnStart : Type 0 where
  pub catalog_revision : String
  pub expected : ActiveAgentStatus
  pub input : List String
  pub model_id : String
  pub reasoning_effort : String
  pub turn_id : String

pub record TurnStart : Type 0 where
  pub turn_id : String
  pub catalog_revision : String
  pub model_id : String
  pub reasoning_effort : String
  pub input : List String
  pub temporary : Bool

-- After the sender's peer or the session's id, what the type of the frame adds.
pub data Payload : Type 0 where
  hello : Hello → Payload
  hello_acknowledged : PeerRole → String → Payload
  heartbeat : Payload
  ack : ℕ → Payload
  session_connect session_connected : String → Payload
  session_disconnect : String → Option SessionCloseReason → Payload
  session_disconnected : String → SessionCloseReason → Payload
  capabilities_read : String → Payload
  capabilities_result capabilities_changed : String → BrowserCapabilities → Payload
  agent_status_read : String → Payload
  agent_status_result agent_status_changed : String → AgentStatus → Payload
  agent_activity_note agent_activity_result : String → ActiveAgentStatus → Payload
  agent_turn_start : String → AgentTurnStart → Payload
  turn_start : String → TurnStart → Payload
  turn_started : String → String → Payload
  turn_delta : String → String → TurnDeltaChannel → String → Payload
  turn_completed : String → String → TurnFinishReason → Payload
  turn_cancel turn_cancelled : String → String → Payload
  turn_failed : String → String → BridgeError → Payload
  error : BridgeError → Payload

unfoldable pub payload_type : Payload → FrameType
payload_type (hello h) = FrameType.hello
payload_type (hello_acknowledged p v) = FrameType.hello_acknowledged
payload_type heartbeat = FrameType.heartbeat
payload_type (ack n) = FrameType.ack
payload_type (session_connect s) = FrameType.session_connect
payload_type (session_connected s) = FrameType.session_connected
payload_type (session_disconnect s r) = FrameType.session_disconnect
payload_type (session_disconnected s r) = FrameType.session_disconnected
payload_type (capabilities_read s) = FrameType.capabilities_read
payload_type (capabilities_result s c) = FrameType.capabilities_result
payload_type (capabilities_changed s c) = FrameType.capabilities_changed
payload_type (agent_status_read s) = FrameType.agent_status_read
payload_type (agent_status_result s a) = FrameType.agent_status_result
payload_type (agent_status_changed s a) = FrameType.agent_status_changed
payload_type (agent_activity_note s a) = FrameType.agent_activity_note
payload_type (agent_activity_result s a) = FrameType.agent_activity_result
payload_type (agent_turn_start s t) = FrameType.agent_turn_start
payload_type (turn_start s t) = FrameType.turn_start
payload_type (turn_started s t) = FrameType.turn_started
payload_type (turn_delta s t c d) = FrameType.turn_delta
payload_type (turn_completed s t r) = FrameType.turn_completed
payload_type (turn_cancel s t) = FrameType.turn_cancel
payload_type (turn_cancelled s t) = FrameType.turn_cancelled
payload_type (turn_failed s t e) = FrameType.turn_failed
payload_type (error e) = FrameType.error

unfoldable pub supported_versions_ok : List ℕ → Bool
supported_versions_ok vs =
    all (λ v. leb 1 v && frame_sequence v) vs
    && (leb 1 (length vs)
        && (leb (length vs) 16 && (all_distinct vs && contains vs protocol_version)))

total_length : List String → ℕ
unfolding utf16_length
total_length [] = 0
total_length (t ∷ ts) = utf16_length t + total_length ts

text_input_ok : String → Bool
unfolding utf16_length
text_input_ok = length_within 1 65536

unfoldable pub turn_input_ok : List String → Bool
unfolding total_length text_input_ok
turn_input_ok items =
    all text_input_ok items
    && (leb 1 (length items) && (leb (length items) 16 && leb (total_length items) 262144))

unfoldable pub agent_turn_input_ok : List String → Bool
unfolding text_input_ok
agent_turn_input_ok items =
    all text_input_ok items && (leb 1 (length items) && leb (length items) 1)

unfoldable pub hello_ok : Hello → Bool
unfolding supported_versions_ok
hello_ok h = implementation_version h.version && supported_versions_ok h.supported_protocol_versions

unfoldable pub agent_turn_start_ok : AgentTurnStart → Bool
unfolding agent_turn_input_ok
agent_turn_start_ok t =
    opaque_id 128 t.catalog_revision
    && (active_status_ok t.expected
        && (agent_turn_input_ok t.input
            && (model_id t.model_id
                && (reasoning_effort_ok t.reasoning_effort && opaque_id 128 t.turn_id))))

unfoldable pub turn_start_ok : TurnStart → Bool
unfolding turn_input_ok
turn_start_ok t =
    opaque_id 128 t.turn_id
    && (opaque_id 128 t.catalog_revision
        && (model_id t.model_id
            && (reasoning_effort_ok t.reasoning_effort && turn_input_ok t.input)))

abbrev ids_ok : String → String → Bool
ids_ok session turn = opaque_id 128 session && opaque_id 128 turn

unfoldable pub payload_ok : Payload → Bool
unfolding hello_ok agent_turn_start_ok turn_start_ok
payload_ok (hello h) = hello_ok h
payload_ok (hello_acknowledged p v) = implementation_version v
payload_ok heartbeat = true
payload_ok (ack n) = frame_sequence n
payload_ok (session_connect s) = opaque_id 128 s
payload_ok (session_connected s) = opaque_id 128 s
payload_ok (session_disconnect s r) = opaque_id 128 s
payload_ok (session_disconnected s r) = opaque_id 128 s
payload_ok (capabilities_read s) = opaque_id 128 s
payload_ok (capabilities_result s c) = opaque_id 128 s && browser_capabilities_ok c
payload_ok (capabilities_changed s c) = opaque_id 128 s && browser_capabilities_ok c
payload_ok (agent_status_read s) = opaque_id 128 s
payload_ok (agent_status_result s a) = opaque_id 128 s && agent_status_ok a
payload_ok (agent_status_changed s a) = opaque_id 128 s && agent_status_ok a
payload_ok (agent_activity_note s a) = active_status_ok a && opaque_id 128 s
payload_ok (agent_activity_result s a) = opaque_id 128 s && active_status_ok a
payload_ok (agent_turn_start s t) = agent_turn_start_ok t && opaque_id 128 s
payload_ok (turn_start s t) = opaque_id 128 s && turn_start_ok t
payload_ok (turn_started s t) = ids_ok s t
payload_ok (turn_delta s t c d) = ids_ok s t && length_within 1 16384 d
payload_ok (turn_completed s t r) = ids_ok s t
payload_ok (turn_cancel s t) = ids_ok s t
payload_ok (turn_cancelled s t) = ids_ok s t
payload_ok (turn_failed s t e) = ids_ok s t && bridge_error_ok e
payload_ok (error e) = bridge_error_ok e

-- `protocolVersion` is the literal 2.
pub record Frame : Type 0 where
  pub request_id : String
  pub sequence : ℕ
  pub payload : Payload

unfoldable pub frame_type : Frame → FrameType
frame_type f = payload_type f.payload

unfoldable pub frame_ok : Frame → Bool
frame_ok f = request_id f.request_id && (frame_sequence f.sequence && payload_ok f.payload)

-- A value from outside: `none` is one whose shape is no frame's (a wrong type, a missing or an
-- unknown field, another literal), which the strict schemas refuse.
abbrev pub Untrusted : Type 0
Untrusted = Option Frame

-- nativeMessagingFrameSchema.parse, `none` where it throws.
unfoldable pub parse_frame : Untrusted → Option Frame
parse_frame none = none
parse_frame (some f) = if frame_ok f then some f else none
