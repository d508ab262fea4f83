-- ===== src/Link/Policy.antt =====
-- The frame types of link-session.ts and relay-policy.ts.
use gptsession_bridge.Shared.{List, [], ◌∷◌}
use gptsession_bridge.Protocol.Frames.{FrameType}

abbrev pub transport_frame_types : List FrameType
transport_frame_types =
    FrameType.ack ∷ FrameType.heartbeat ∷ FrameType.hello ∷ FrameType.hello_acknowledged ∷ []

abbrev pub application_frame_types : List FrameType
application_frame_types =
    FrameType.session_connect ∷ FrameType.session_connected ∷ FrameType.session_disconnect
    ∷ FrameType.session_disconnected ∷ FrameType.agent_status_read ∷ FrameType.agent_status_result
    ∷ FrameType.agent_status_changed ∷ FrameType.agent_activity_note
    ∷ FrameType.agent_activity_result ∷ FrameType.agent_turn_start ∷ FrameType.capabilities_read
    ∷ FrameType.capabilities_result ∷ FrameType.capabilities_changed ∷ FrameType.turn_start
    ∷ FrameType.turn_started ∷ FrameType.turn_delta ∷ FrameType.turn_completed
    ∷ FrameType.turn_cancel ∷ FrameType.turn_cancelled ∷ FrameType.turn_failed ∷ FrameType.error
    ∷ []

abbrev pub bridge_to_extension_types : List FrameType
bridge_to_extension_types =
    FrameType.session_connect ∷ FrameType.session_disconnect ∷ FrameType.agent_status_read
    ∷ FrameType.agent_activity_note ∷ FrameType.agent_turn_start ∷ FrameType.capabilities_read
    ∷ FrameType.turn_start ∷ FrameType.turn_cancel ∷ FrameType.error ∷ []

abbrev pub extension_to_bridge_types : List FrameType
extension_to_bridge_types =
    FrameType.session_connected ∷ FrameType.session_disconnected ∷ FrameType.agent_status_result
    ∷ FrameType.agent_status_changed ∷ FrameType.agent_activity_result
    ∷ FrameType.capabilities_result ∷ FrameType.capabilities_changed ∷ FrameType.turn_started
    ∷ FrameType.turn_delta ∷ FrameType.turn_completed ∷ FrameType.turn_cancelled
    ∷ FrameType.turn_failed ∷ FrameType.error ∷ []
