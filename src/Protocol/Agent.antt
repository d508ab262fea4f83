-- ===== src/Protocol/Agent.antt =====
-- The Web Agent activation snapshots of packages/protocol/src/native-messaging.ts.
use gptsession_bridge.Shared.{ℕ, ◌+◌, ◌-◌, String, Bool, ◌&&◌, leb, nat_beq}
use gptsession_bridge.Protocol.Text.{opaque_id, frame_sequence, max_safe_integer}

-- AGENT_ACTIVATION_INACTIVITY_TIMEOUT_MS
abbrev pub inactivity_timeout_ms : ℕ
inactivity_timeout_ms = 900000

pub record DocumentBinding : Type 0 where
  pub document_id : String
  pub generation : ℕ
  pub tab_id : ℕ

pub record ActiveAgentStatus : Type 0 where
  pub binding : DocumentBinding
  pub conversation_ownership_id : String
  pub expires_at_ms : ℕ
  pub issued_at_ms : ℕ
  pub last_activity_at_ms : ℕ
  pub lease_id : String
  pub revision : ℕ

pub data AgentStatus : Type 0 where
  active : ActiveAgentStatus → AgentStatus
  inactive : ℕ → AgentStatus

unfoldable pub document_binding_ok : DocumentBinding → Bool
document_binding_ok b =
    opaque_id 256 b.document_id && (frame_sequence b.generation && frame_sequence b.tab_id)

-- The negation of the condition under which the schema reports inconsistent timestamps.
unfoldable pub timestamps_consistent : ActiveAgentStatus → Bool
timestamps_consistent s =
    leb s.issued_at_ms s.last_activity_at_ms
    && (leb s.last_activity_at_ms (max_safe_integer - inactivity_timeout_ms)
        && nat_beq s.expires_at_ms (s.last_activity_at_ms + inactivity_timeout_ms))

unfoldable pub active_status_ok : ActiveAgentStatus → Bool
unfolding document_binding_ok timestamps_consistent
active_status_ok s =
    document_binding_ok s.binding
    && (opaque_id 128 s.conversation_ownership_id
        && (frame_sequence s.expires_at_ms
            && (frame_sequence s.issued_at_ms
                && (frame_sequence s.last_activity_at_ms
                    && (opaque_id 128 s.lease_id
                        && (frame_sequence s.revision && timestamps_consistent s))))))

unfoldable pub agent_status_ok : AgentStatus → Bool
unfolding active_status_ok
agent_status_ok (active s) = active_status_ok s
agent_status_ok (inactive revision) = frame_sequence revision
