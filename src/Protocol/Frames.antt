-- ===== src/Protocol/Frames.antt =====
-- The frames of packages/protocol/src/native-messaging.ts and `nativeMessagingFrameSchema`.
mod Types
mod Payloads
unfoldable pub use Types.*
unfoldable pub use Payloads.*
