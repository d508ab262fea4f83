-- ===== src/Transport/Codes.antt =====
-- NativeMessageTransportErrorCode and the constants of the transport.
use gptsession_bridge.Shared.{ℕ}

pub data Code : Type 0 where
  buffer_overflow frame_too_large invalid_frame queue_overflow : Code
  transport_closed truncated_frame write_failed : Code

abbrev pub header_bytes : ℕ
header_bytes = 4

-- DEFAULT_NATIVE_MESSAGE_MAX_FRAME_BYTES
abbrev pub default_max_frame : ℕ
default_max_frame = 1048576

-- DEFAULT_NATIVE_MESSAGE_MAX_BUFFERED_BYTES and DEFAULT_NATIVE_MESSAGE_MAX_QUEUED_BYTES
abbrev pub default_max_bytes : ℕ
default_max_bytes = 2097160
