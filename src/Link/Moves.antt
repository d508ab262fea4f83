-- ===== src/Link/Moves.antt =====
-- How one `receive` moves the two counters of a session.
use gptsession_bridge.Shared.{
  ◌+◌, ◌≡◌, refl, true, some, Result, ok, err, arith, inl, inr, nat_beq_iff, nat_beq, Bool-cases,
}
use gptsession_bridge.Protocol.Text.{frame_sequence}
use gptsession_bridge.Protocol.Frames.{
  Payload, hello, hello_acknowledged, heartbeat, ack, Frame, frame_ok, payload_ok, parse_frame,
}
use gptsession_bridge.Link.{
  Failure, State, awaiting_hello, awaiting_acknowledgement, ready, closed, Session, Received,
  response, reject, receive, accept_in, accept_hello_from, accept_acknowledgement_from,
  accept_by_type, accept_parsed, receive_in, accept_hello, accept_hello_acknowledgement,
  accept_ready,
}
use gptsession_bridge.Link.Invariant.{IsValid}

-- A frame that is sent takes the next number; nothing else does.
abbrev pub Out : Session → Result Failure Received → Session → Type 0
Out s (ok (response g)) s' =
    (g.sequence ≡ s.next_outbound) × (s'.next_outbound ≡ s.next_outbound + 1)
Out s _ s' = s'.next_outbound ≡ s.next_outbound

-- A frame that is let in has the expected number, which then rises.
abbrev pub In : Frame → Session → Result Failure Received → Session → Type 0
In f s (ok r) s' =
    (f.sequence ≡ s.expected_inbound) × (s'.expected_inbound ≡ s.expected_inbound + 1)
In f s (err e) s' = Unit {0}

abbrev pub Moves : Frame → Session → Result Failure Received × Session → Type 0
Moves f s r = Out s r.0 r.1 × In f s r.0 r.1

module _ (f : Frame) (s : Session) (v : IsValid s) (ok_f : frame_ok f ≡ true)
    (now : f.sequence ≡ s.expected_inbound) where
  hello-Moves : (p : Payload) → s.state ≡ awaiting_hello → Moves f s (accept_hello_from f p s)
  unfolding accept_hello_from reject frame_ok frame_sequence payload_ok
  hello-Moves (hello h) e = ground arith
  hello-Moves _ e = ground arith

  acknowledgement-Moves :
      (p : Payload)
      → s.state ≡ awaiting_acknowledgement
      → Moves f s (accept_acknowledgement_from f p s)
  unfolding accept_acknowledgement_from reject
  acknowledgement-Moves (hello_acknowledged p w) e = ground arith
  acknowledgement-Moves _ e = ground arith

  ready-Moves :
      (p : Payload) (s' : Session)
      → s' ≡ record s { expected_inbound = s.expected_inbound + 1 }
      → Moves f s (accept_by_type f p s')
  unfolding accept_by_type reject frame_ok frame_sequence payload_ok
  ready-Moves heartbeat s' e = rw e (ground arith)
  ready-Moves (ack n) s' e = rw e (ground arith)
  ready-Moves _ s' e = rw e (ground arith)

  accept_in-Moves : (t : State) → s.state ≡ t → Moves f s (accept_in t f s)
  unfolding accept_in accept_hello accept_hello_acknowledgement accept_ready reject
  accept_in-Moves awaiting_hello e = hello-Moves f.payload e
  accept_in-Moves awaiting_acknowledgement e = acknowledgement-Moves f.payload e
  accept_in-Moves ready e = ready-Moves f.payload _ refl
  accept_in-Moves _ e = ground arith

accept_parsed-Moves :
    (f : Frame) (s : Session) → IsValid s → frame_ok f ≡ true → Moves f s (accept_parsed (some f) s)
unfolding accept_parsed reject
accept_parsed-Moves f s v ok_f = elim (Bool-cases (nat_beq f.sequence s.expected_inbound)) [
  | inl same ↦ rw same (accept_in-Moves f s v ok_f ((nat_beq_iff _ _).0 same) s.state refl)
  | inr other ↦ rw other (refl, tt)
]

receive_in-Moves :
    (t : State) (f : Frame) (s : Session)
    → s.state ≡ t
    → IsValid s
    → Moves f s (receive_in t (some f) s)
unfolding receive_in parse_frame
receive_in-Moves closed f s e v = ground arith
receive_in-Moves _ f s e v = elim (Bool-cases (frame_ok f)) [
  | inl ok_f ↦ rw ok_f (accept_parsed-Moves f s v ok_f)
  | inr bad ↦ rw bad (unfold accept_parsed reject in (refl, tt))
]

pub receive-Moves : (f : Frame) (s : Session) → IsValid s → Moves f s (receive (some f) s)
unfolding receive
receive-Moves f s v = receive_in-Moves s.state f s refl v
