-- ===== src/Link/Admitted.antt =====
-- What `receive` hands on as an application frame, and `send_application` makes of a frame.
use gptsession_bridge.Shared.{◌≤◌, ◌≡◌, refl, true, Option, none, some, ok, arith, contains}
use gptsession_bridge.Protocol.Text.{max_safe_integer}
use gptsession_bridge.Protocol.Frames.{
  Payload, hello, hello_acknowledged, heartbeat, ack, Frame, Untrusted, parse_frame, frame_type,
  frame_ok, frame_type_eq,
}
use gptsession_bridge.Link.{
  State, ready, closed, awaiting_hello, awaiting_acknowledgement, Session, application, receive,
  send_application, accept_hello_from, accept_acknowledgement_from, accept_by_type, accept_in,
  accept_parsed, receive_in, send_parsed, emit, build, take_outbound_sequence, accept_hello,
  accept_hello_acknowledgement, accept_ready, reject,
}
use gptsession_bridge.Link.Emit.{framed, advanced, emit_lem}

-- An application frame that a session lets in is the one that it was given.
pub record LetsIn (s : Session) (u : Untrusted) (f : Frame) : Type 0 where
  pub given : parse_frame u ≡ some f
  pub was_ready : s.state ≡ ready
  pub allowed : contains s.incoming_types (frame_type f) ≡ true
  pub in_turn : f.sequence ≡ s.expected_inbound

accept_by_type-application :
    (f g : Frame) (p : Payload) (s : Session)
    → (accept_by_type f p s).0 ≡ ok (application g)
    → (f ≡ g) × (contains s.incoming_types (frame_type f) ≡ true)
unfolding accept_by_type reject
accept_by_type-application f g heartbeat s h = ground arith
accept_by_type-application f g (ack n) s h = ground arith
accept_by_type-application f g (hello x) s h = ground arith
accept_by_type-application f g (hello_acknowledged x y) s h = ground arith
accept_by_type-application f g _ s h = ground arith

accept_hello-application :
    (f g : Frame) (p : Payload) (s : Session) → (accept_hello_from f p s).0 ≡ ok (application g) → ⊥
unfolding accept_hello_from reject
accept_hello-application f g (hello x) s h = ground arith
accept_hello-application f g _ s h = ground arith

accept_acknowledgement-application :
    (f g : Frame) (p : Payload) (s : Session)
    → (accept_acknowledgement_from f p s).0 ≡ ok (application g)
    → ⊥
unfolding accept_acknowledgement_from reject
accept_acknowledgement-application f g (hello_acknowledged x y) s h = ground arith
accept_acknowledgement-application f g _ s h = ground arith

accept_in-application :
    (t : State) (f g : Frame) (s : Session)
    → (accept_in t f s).0 ≡ ok (application g)
    → (t ≡ ready) × (f ≡ g) × (contains s.incoming_types (frame_type f) ≡ true)
unfolding accept_in accept_hello accept_hello_acknowledgement accept_ready reject
accept_in-application ready f g s h =
    let (same, allowed) = accept_by_type-application f g f.payload _ h in (refl, same, allowed)
accept_in-application awaiting_hello f g s h = absurd (accept_hello-application f g f.payload s h)
accept_in-application awaiting_acknowledgement f g s h =
    absurd (accept_acknowledgement-application f g f.payload s h)
accept_in-application _ f g s h = ground arith

accept_parsed-application :
    (u : Option Frame) (g : Frame) (s : Session)
    → (accept_parsed u s).0 ≡ ok (application g)
    → (u ≡ some g)
      × (s.state ≡ ready)
      × (contains s.incoming_types (frame_type g) ≡ true)
      × (g.sequence ≡ s.expected_inbound)
unfolding accept_parsed reject
accept_parsed-application none g s h = ground arith
accept_parsed-application (some f) g s h = ground (arith, accept_in-application s.state f g s)

receive_in-application :
    (t : State) (u : Untrusted) (g : Frame) (s : Session)
    → (receive_in t u s).0 ≡ ok (application g)
    → (accept_parsed (parse_frame u) s).0 ≡ ok (application g)
unfolding receive_in
receive_in-application closed u g s h = cc
receive_in-application _ u g s h = h

pub receive-LetsIn :
    (u : Untrusted) (g : Frame) (s : Session) → (receive u s).0 ≡ ok (application g) → LetsIn s u g
unfolding receive
receive-LetsIn u g s h =
    let (given, was_ready, allowed, in_turn) =
      accept_parsed-application (parse_frame u) g s (receive_in-application s.state u g s h) in
    record { given = given; was_ready = was_ready; allowed = allowed; in_turn = in_turn }

-- What `send_application` makes of a frame: the same but for its number.
pub send_application-framed :
    (f g : Frame) (s : Session)
    → (send_application (some f) s).0 ≡ ok g
    → g ≡ framed f.request_id f.payload s
unfolding send_application send_parsed parse_frame emit build take_outbound_sequence reject
send_application-framed f g s h = ground arith

-- The other way round: a ready session sends what it may while numbers are left.
pub send_application-ready :
    (f : Frame) (s : Session)
    → frame_ok f ≡ true
    → s.state ≡ ready
    → contains s.outgoing_types (frame_type f) ≡ true
    → s.next_outbound ≤ max_safe_integer
    → send_application (some f) s ≡ (ok (framed f.request_id f.payload s), advanced s)
unfolding send_application send_parsed parse_frame frame_ok
send_application-ready f s hf hs ht hn = ground (arith, emit_lem f.request_id f.payload s)
