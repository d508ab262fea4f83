-- ===== src/Link/Handshake.antt =====
-- The handshake of two sessions that are made for each other.
use gptsession_bridge.Shared.{
  ◌≡◌, String, true, [], ◌∷◌, none, some, ok, arith, ==_refl, string_eq, option_eq,
}
use gptsession_bridge.Protocol.Text.{request_id, implementation_version, frame_sequence}
use gptsession_bridge.Protocol.Frames.{
  hello, hello_acknowledged, Frame, frame_ok, payload_ok, parse_frame, protocol_version,
}
use gptsession_bridge.Link.{
  Options, Session, initiator, responder, ready, nothing, response, create, start, receive,
  receive_in, accept_parsed, accept_in, accept_hello, accept_hello_acknowledgement,
  accept_hello_from, accept_acknowledgement_from, initial_state, awaiting_acknowledgement,
}
use gptsession_bridge.Link.Emit.{own_hello_ok}

-- What a constructor has made.
made : Options → Session
made o = record {
  options = o;
  expected_inbound = 0;
  handshake_request_id = none;
  next_outbound = 0;
  pending_heartbeats = [];
  state = initial_state o.mode;
}

create-made :
    (o : Options) (s : Session)
    → create o ≡ some s
    → (s ≡ made o) × (implementation_version o.version ≡ true)
unfolding create made
create-made o s h = ground arith

hello_of : String → Options → Frame
hello_of id o = record {
  request_id = id;
  sequence = 0;
  payload = hello (record {
    peer = o.local_peer;
    version = o.version;
    supported_protocol_versions = protocol_version ∷ [];
  });
}

answer_of : String → Options → Frame
answer_of id o = record {
  request_id = id;
  sequence = 0;
  payload = hello_acknowledged o.local_peer o.version;
}

started : String → Options → Session
unfolding made
started id o = record (made o) {
  handshake_request_id = some id;
  next_outbound = 1;
  state = awaiting_acknowledgement;
}

-- The state in which both ends leave the handshake.
abbrev pub opened : Options → Session
opened o = record {
  options = o;
  expected_inbound = 1;
  handshake_request_id = none;
  next_outbound = 1;
  pending_heartbeats = [];
  state = ready;
}

start-made :
    (id : String) (o : Options)
    → o.mode ≡ initiator
    → implementation_version o.version ≡ true
    → request_id id ≡ true
    → start id (made o) ≡ (ok (hello_of id o), started id o)
unfolding start made started hello_of initial_state frame_ok frame_sequence payload_ok
start-made id o m v h = ground (arith, own_hello_ok (made o) v)

receive-hello :
    (id : String) (o p : Options)
    → p.mode ≡ responder
    → o.local_peer ≡ p.remote_peer
    → implementation_version o.version ≡ true
    → implementation_version p.version ≡ true
    → request_id id ≡ true
    → receive (some (hello_of id o)) (made p) ≡ (ok (response (answer_of id p)), opened p)
unfolding receive receive_in accept_parsed accept_in accept_hello accept_hello_from made opened
    hello_of answer_of initial_state frame_ok frame_sequence payload_ok parse_frame
receive-hello id o p m e v w h = ground (arith, own_hello_ok (made o) v)

receive-answer :
    (id : String) (o p : Options)
    → o.mode ≡ initiator
    → p.local_peer ≡ o.remote_peer
    → implementation_version p.version ≡ true
    → request_id id ≡ true
    → receive (some (answer_of id p)) (started id o) ≡ (ok nothing, opened o)
unfolding receive receive_in accept_parsed accept_in accept_hello_acknowledgement
    accept_acknowledgement_from made started answer_of initial_state frame_ok frame_sequence
    payload_ok parse_frame
receive-answer id o p m e w h = ground (arith, ==_refl id, ==_refl (some id))

-- For an initiator and a responder with matching roles and a valid request id, the hello, the
-- answer and its receipt are all accepted and both sessions end ready.
pub handshake-opens :
    (id : String) (o p : Options) (a b : Session)
    → create o ≡ some a
    → create p ≡ some b
    → o.mode ≡ initiator
    → p.mode ≡ responder
    → o.local_peer ≡ p.remote_peer
    → p.local_peer ≡ o.remote_peer
    → request_id id ≡ true
    → (f g : Frame) × (a' : Session) × (start id a ≡ (ok f, a'))
      × (receive (some f) b ≡ (ok (response g), opened p))
      × (receive (some g) a' ≡ (ok nothing, opened o))
handshake-opens id o p a b ha hb m n e e' w =
    let (made_a, v) = create-made o a ha in
    let (made_b, v') = create-made p b hb in
    (
      hello_of id o,
      answer_of id p,
      started id o,
      rw made_a (start-made id o m v w),
      rw made_b (receive-hello id o p n e v v' w),
      receive-answer id o p m e' v' w,
    )
