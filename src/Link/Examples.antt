-- ===== src/Link/Examples.antt =====
-- Two sessions at work, and the runs of the link's theorems on them.
use gptsession_bridge.Shared.{
  ℕ, map, ◌≡◌, ◌≢◌, refl, arith, err, List, [], ◌∷◌, none, some, ok, all_distinct, contains, all,
  string_eq,
}
use gptsession_bridge.Protocol.Text.{request_id, implementation_version, frame_sequence}
use gptsession_bridge.Protocol.Frames.{
  Payload, hello, heartbeat, protocol_version, FrameType, PeerRole, Frame, PeerRole-discrete,
  FrameType-discrete, frame_ok, frame_type, parse_frame, payload_ok, payload_type,
}
use gptsession_bridge.Link.{
  Options, Session, initiator, responder, idle, awaiting_hello, nothing, response, create, start,
  closed, link, invalid_state, receive,
}
use gptsession_bridge.Link.Invariant.{Sound, IsValid}
use gptsession_bridge.Link.Run.{
  Call, starts, receives, beats, closes, apply, run, all_emitted, all_accepted, NumberedFrom,
  create-run-Sound, apply-closed, accepted,
}
use gptsession_bridge.Link.Run.Outgoing.{create-all_emitted}
use gptsession_bridge.Link.Run.Incoming.{create-all_accepted}
use gptsession_bridge.Link.Handshake.{opened, handshake-opens}

abbrev host : Options
host = record {
  version = "1.0.0";
  incoming_types = FrameType.turn_start ∷ [];
  local_peer = PeerRole.native_host;
  mode = initiator;
  outgoing_types = FrameType.turn_started ∷ FrameType.session_connected ∷ [];
  remote_peer = PeerRole.extension;
}

abbrev page : Options
page = record {
  version = "1.0.0";
  incoming_types = FrameType.turn_started ∷ FrameType.session_connected ∷ [];
  local_peer = PeerRole.extension;
  mode = responder;
  outgoing_types = FrameType.turn_start ∷ [];
  remote_peer = PeerRole.native_host;
}

abbrev host_session : Session
host_session = record {
  options = host;
  expected_inbound = 0;
  handshake_request_id = none;
  next_outbound = 0;
  pending_heartbeats = [];
  state = idle;
}

abbrev page_session : Session
page_session = record {
  options = page;
  expected_inbound = 0;
  handshake_request_id = none;
  next_outbound = 0;
  pending_heartbeats = [];
  state = awaiting_hello;
}

host_created : create host ≡ some host_session
unfolding create implementation_version all_distinct contains all PeerRole-discrete
    FrameType-discrete
host_created = refl

page_created : create page ≡ some page_session
unfolding create implementation_version all_distinct contains all PeerRole-discrete
    FrameType-discrete
page_created = refl

abbrev framed_as : ℕ → Payload → Frame
framed_as n p = record { request_id = "frame-1"; sequence = n; payload = p }

abbrev calls : List Call
calls = starts "hello-1" ∷ beats "beat-1" ∷ receives none ∷ closes ∷ []

create-run-Sound_example :
    Sound (run host_session calls) (apply (starts "again") (run host_session calls))
create-run-Sound_example = create-run-Sound host host_session calls (starts "again") host_created

create-all_emitted_example : NumberedFrom 0 (all_emitted host_session calls)
create-all_emitted_example = create-all_emitted host host_session calls host_created

-- A hello, a heartbeat and an application frame, of which each is let in.
abbrev incoming : List Call
incoming =
    receives (
      some (
        framed_as 0 (
          hello (record {
            peer = PeerRole.native_host;
            version = "1.0.0";
            supported_protocol_versions = protocol_version ∷ [];
          }))))
    ∷ receives (some (framed_as 1 heartbeat))
    ∷ receives (some (framed_as 2 (Payload.session_connected "session-1")))
    ∷ []

all_let_in : map (λ f. f.sequence) (all_accepted page_session incoming) ≡ 0 ∷ 1 ∷ 2 ∷ []
unfolding all_accepted accepted apply receive parse_frame frame_ok request_id frame_sequence
    payload_ok implementation_version all all_distinct PeerRole-discrete FrameType-discrete
    frame_type payload_type
all_let_in = refl

create-all_accepted_example : NumberedFrom 0 (all_accepted page_session incoming)
create-all_accepted_example = create-all_accepted page page_session incoming page_created

handshake-opens_example :
    (f g : Frame) × (a' : Session) × (start "hello-1" host_session ≡ (ok f, a'))
    × (receive (some f) page_session ≡ (ok (response g), opened page))
    × (receive (some g) a' ≡ (ok nothing, opened host))
unfolding request_id
handshake-opens_example =
    handshake-opens "hello-1" host page host_session page_session host_created page_created refl
      refl refl refl refl

abbrev ended : Session
ended = record page_session { state = closed }

ended-IsValid : IsValid ended
unfolding implementation_version
ended-IsValid = record { version_ok = refl; numbered = omega arith; shape = (refl, refl) }

beats_not_closes : beats "beat-1" ≢ closes
beats_not_closes e = cc e

apply-closed_example : apply (beats "beat-1") ended ≡ (err (link invalid_state), ended)
apply-closed_example = apply-closed (beats "beat-1") ended ended-IsValid refl beats_not_closes
