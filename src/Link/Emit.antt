-- ===== src/Link/Emit.antt =====
-- The frames that a session puts together pass the schema that it parses them with.
use gptsession_bridge.Shared.{
  ◌+◌, ◌≡◌, String, true, [], ◌∷◌, none, some, ok, ltb, arith, all, all_distinct, contains,
  if◌then◌else◌,
}
use gptsession_bridge.Protocol.Text.{
  request_id, implementation_version, max_safe_integer, frame_sequence,
}
use gptsession_bridge.Protocol.Frames.{
  Payload, hello, Frame, Untrusted, frame_ok, payload_ok, parse_frame, protocol_version,
}
use gptsession_bridge.Link.{Session, sequence_exhausted, reject, emit}

abbrev pub own_hello : Session → Payload
own_hello s = hello (record {
  peer = s.local_peer;
  version = s.version;
  supported_protocol_versions = protocol_version ∷ [];
})

pub own_hello_ok :
    (s : Session) → implementation_version s.version ≡ true → payload_ok (own_hello s) ≡ true
unfolding payload_ok frame_sequence all all_distinct contains
own_hello_ok s h = rw h

abbrev pub framed : String → Payload → Session → Frame
framed id p s = record { request_id = id; sequence = s.next_outbound; payload = p }

abbrev pub advanced : Session → Session
advanced s = record s { next_outbound = s.next_outbound + 1 }

-- With a valid id and payload the only refusal left is that of the sequence numbers.
pub emit_lem :
    (id : String) (p : Payload) (s : Session)
    → request_id id ≡ true
    → payload_ok p ≡ true
    → emit id p s ≡ (
        if ltb max_safe_integer s.next_outbound
        then reject sequence_exhausted s
        else (ok (framed id p s), advanced s))
unfolding emit frame_ok frame_sequence reject
emit_lem id p s hid hp = ground arith

pub parse_frame-ok : (v : Untrusted) (f : Frame) → parse_frame v ≡ some f → frame_ok f ≡ true
unfolding parse_frame
parse_frame-ok none f h = cc
parse_frame-ok (some g) f h = ground arith
