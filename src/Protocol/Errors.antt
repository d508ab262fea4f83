-- ===== src/Protocol/Errors.antt =====
-- packages/protocol/src/errors.ts.
use gptsession_bridge.Shared.{String, Bool}
use gptsession_bridge.Protocol.Text.{safe_text}

pub data BridgeErrorCode : Type 0 where
  protocol_invalid_message protocol_unsupported_version protocol_sequence_violation :
      BridgeErrorCode
  transport_unavailable transport_timeout : BridgeErrorCode
  session_not_connected session_already_connected session_closed : BridgeErrorCode
  capability_unsupported model_unavailable : BridgeErrorCode
  turn_not_found turn_already_active turn_cancelled : BridgeErrorCode
  browser_unavailable browser_state_changed internal_error : BridgeErrorCode

pub record BridgeError : Type 0 where
  pub code : BridgeErrorCode
  pub message : String
  pub retryable : Bool

unfoldable pub bridge_error_ok : BridgeError → Bool
bridge_error_ok e = safe_text 512 e.message
