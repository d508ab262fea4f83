-- ===== src/Relay/Examples.antt =====
-- A relay at work, and the runs of its theorems on it.
use gptsession_bridge.Shared.{
  ◌≡◌, refl, arith, List, [], ◌∷◌, none, some, all_distinct, contains, all, string_eq,
}
use gptsession_bridge.Protocol.Text.{request_id, implementation_version, frame_sequence}
use gptsession_bridge.Protocol.Frames.{
  PeerRole, Payload, hello, Frame, PeerRole-discrete, FrameType-discrete, protocol_version,
  frame_ok, frame_type, parse_frame, payload_ok, payload_type,
}
use gptsession_bridge.Link.{awaiting_hello, ready, create, receive}
use gptsession_bridge.Relay.{
  Relay, bridge_options, extension_options, create_relay, Call, from_bridge, from_extension, closes,
  apply, run, receive_from_bridge, receive_from_extension,
}
use gptsession_bridge.Relay.Guarded.{IsRelay, EndsBoth, create_relay-run-apply}
use gptsession_bridge.Relay.Forwarded.{carried, run-receive_from_bridge-carried}

abbrev fresh : Relay
fresh = record {
  bridge = record {
    options = bridge_options "1.0.0";
    expected_inbound = 0;
    handshake_request_id = none;
    next_outbound = 0;
    pending_heartbeats = [];
    state = awaiting_hello;
  };
  extension = record {
    options = extension_options "1.0.0";
    expected_inbound = 0;
    handshake_request_id = none;
    next_outbound = 0;
    pending_heartbeats = [];
    state = awaiting_hello;
  };
}

created : create_relay "1.0.0" ≡ some fresh
unfolding create_relay create implementation_version all_distinct contains all PeerRole-discrete
    FrameType-discrete
created = refl

abbrev greeting : PeerRole → Frame
greeting peer = record {
  request_id = "hello-1";
  sequence = 0;
  payload = hello (record {
    peer = peer;
    version = "1.0.0";
    supported_protocol_versions = protocol_version ∷ [];
  });
}

abbrev opening : List Call
opening =
    from_extension (some (greeting PeerRole.extension))
    ∷ from_bridge (some (greeting PeerRole.bridge))
    ∷ []

abbrev opened : Relay
opened = record {
  bridge = record fresh.bridge { expected_inbound = 1; next_outbound = 1; state = ready };
  extension = record fresh.extension { expected_inbound = 1; next_outbound = 1; state = ready };
}

create_relay-run-apply_example :
    IsRelay "1.0.0" (apply closes (run fresh opening)).1
    × EndsBoth (apply closes (run fresh opening))
create_relay-run-apply_example = create_relay-run-apply "1.0.0" fresh opening closes created

abbrev read_agent : Frame
read_agent = record {
  request_id = "read-1";
  sequence = 1;
  payload = Payload.agent_status_read "session-1";
}

abbrev connected : Frame
connected = record {
  request_id = "connect-1";
  sequence = 1;
  payload = Payload.session_connected "session-1";
}

run-receive_from_bridge-carried_example :
    receive_from_bridge (some read_agent) (run fresh opening)
    ≡ carried read_agent
        (record opened.bridge { expected_inbound = 2 })
        (run fresh opening).extension
unfolding run receive receive_from_extension parse_frame frame_ok request_id frame_sequence
    payload_ok implementation_version all all_distinct PeerRole-discrete FrameType-discrete
    frame_type payload_type
run-receive_from_bridge-carried_example =
    run-receive_from_bridge-carried "1.0.0" fresh opening (some read_agent) read_agent
      (record opened.bridge { expected_inbound = 2 }) created refl refl (omega arith)
