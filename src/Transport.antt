-- ===== src/Transport.antt =====
-- packages/native-messaging/src/transport and the JSON lines of apps/bridge/src/transport: bytes to
-- messages, and messages to a stream.
pub mod Codes
pub mod Encoding
pub mod Outcome
pub mod Decoder
pub mod Lines
pub mod Pump
pub mod Writer
mod Examples
