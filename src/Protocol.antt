-- ===== src/Protocol.antt =====
-- packages/protocol: the values that cross the native-messaging link, and the checks of their
-- schemas.
pub mod Text
pub mod Errors
pub mod Models
pub mod Agent
pub mod Frames
