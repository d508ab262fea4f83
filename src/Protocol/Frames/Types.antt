-- ===== src/Protocol/Frames/Types.antt =====
-- `NativeMessagingFrameType` and the small enumerations of the payloads.
use gptsession_bridge.Shared.{Eq, discrete_eq}

pub data FrameType : Type 0 where
  hello hello_acknowledged heartbeat ack : FrameType
  session_connect session_connected session_disconnect session_disconnected : FrameType
  capabilities_read capabilities_result capabilities_changed : FrameType
  agent_status_read agent_status_result agent_status_changed : FrameType
  agent_activity_note agent_activity_result agent_turn_start : FrameType
  turn_start turn_started turn_delta turn_completed : FrameType
  turn_cancel turn_cancelled turn_failed error : FrameType

unfoldable pub FrameType-discrete : Discrete FrameType
FrameType-discrete = hlevel

instance abbrev pub frame_type_eq : Eq FrameType
frame_type_eq = discrete_eq FrameType-discrete

pub data PeerRole : Type 0 where
  bridge native_host extension : PeerRole

unfoldable pub PeerRole-discrete : Discrete PeerRole
PeerRole-discrete = hlevel

instance abbrev pub peer_role_eq : Eq PeerRole
peer_role_eq = discrete_eq PeerRole-discrete

pub data SessionCloseReason : Type 0 where
  user shutdown replaced transport_lost page_unavailable : SessionCloseReason

pub data TurnFinishReason : Type 0 where
  stop length : TurnFinishReason

pub data TurnDeltaChannel : Type 0 where
  output_text reasoning commentary : TurnDeltaChannel
