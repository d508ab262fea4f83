-- ===== src/Link/Invariant.antt =====
-- The state of a session and its other fields fit together, whatever is called.
use gptsession_bridge.Shared.{
  ℕ, ◌+◌, ◌≤◌, ◌<◌, ◌≡◌, ◌≢◌, refl, String, true, [], ◌∷◌, Option, none, some, Result, ok, err,
  arith,
}
use gptsession_bridge.Shared.Table.{Table, get, set, delete}
use gptsession_bridge.Protocol.Text.{
  request_id, implementation_version, max_safe_integer, frame_sequence,
}
use gptsession_bridge.Protocol.Frames.{
  Payload, hello, hello_acknowledged, heartbeat, ack, Frame, Untrusted, frame_ok, payload_ok,
  parse_frame,
}
use gptsession_bridge.Link.{
  ErrorCode, Failure, link, schema, initiator, responder, State, idle, awaiting_hello,
  awaiting_acknowledgement, ready, closed, Session, Options, Received, create, reject, start,
  receive, send_application, send_heartbeat, accept_hello_from, accept_acknowledgement_from,
  accept_by_type, accept_in, accept_parsed, receive_in, sequence_violation, accept_hello,
  accept_hello_acknowledgement, accept_ready,
}
use gptsession_bridge.Link.Emit.{own_hello_ok, parse_frame-ok}

-- At most one heartbeat waits, and its number is one that was sent.
abbrev pub AtMostOneBelow : ℕ → Table ℕ String → Type 0
AtMostOneBelow n [] = Unit {0}
AtMostOneBelow n ((k, id) ∷ []) = k < n
AtMostOneBelow n (x ∷ y ∷ m) = ⊥

-- What the fields hold in each state.
abbrev pub Shape : State → Session → Type 0
Shape idle s =
    (s.mode ≡ initiator)
    × (s.next_outbound ≡ 0)
    × (s.expected_inbound ≡ 0)
    × (s.handshake_request_id ≡ none)
    × (s.pending_heartbeats ≡ [])
Shape awaiting_hello s =
    (s.mode ≡ responder)
    × (s.next_outbound ≡ 0)
    × (s.expected_inbound ≡ 0)
    × (s.handshake_request_id ≡ none)
    × (s.pending_heartbeats ≡ [])
Shape awaiting_acknowledgement s =
    (s.mode ≡ initiator)
    × (s.next_outbound ≡ 1)
    × (s.expected_inbound ≡ 0)
    × (s.handshake_request_id ≢ none)
    × (s.pending_heartbeats ≡ [])
Shape ready s =
    (1 ≤ s.next_outbound)
    × (1 ≤ s.expected_inbound)
    × (s.handshake_request_id ≡ none)
    × AtMostOneBelow s.next_outbound s.pending_heartbeats
Shape closed s = (s.handshake_request_id ≡ none) × (s.pending_heartbeats ≡ [])

pub record IsValid (s : Session) : Type 0 where
  pub version_ok : implementation_version s.version ≡ true
  pub numbered : s.next_outbound ≤ max_safe_integer + 1
  pub shape : Shape s.state s

-- A throw leaves the link closed, and is never the schema's own error.
abbrev pub Ends {ℓ} : {A : Type ℓ} → Result Failure A → Session → Type 0
Ends (ok a) s = Unit {0}
Ends (err (link code)) s = s.state ≡ closed
Ends (err schema) s = ⊥

-- What every method of a valid session promises.
pub record Sound {ℓ} {A : Type ℓ} (s : Session) (r : Result Failure A × Session) : Type 0 where
  pub valid : IsValid r.1
  pub ends : Ends r.0 r.1
  pub same_options : r.1.options ≡ s.options
  pub grows : s.next_outbound ≤ r.1.next_outbound

pub create-IsValid : (o : Options) (s : Session) → create o ≡ some s → IsValid s
unfolding create
create-IsValid o s h = ground arith

reject-Sound {ℓ} :
    {A : Type ℓ} (code : ErrorCode) (s : Session) → IsValid s → Sound {A = A} s (reject code s)
unfolding reject
reject-Sound code s v = ground arith

accept_hello_from-Sound :
    (f : Frame) (p : Payload) (s : Session)
    → IsValid s
    → s.state ≡ awaiting_hello
    → request_id f.request_id ≡ true
    → Sound s (accept_hello_from f p s)
unfolding accept_hello_from reject payload_ok frame_ok frame_sequence
accept_hello_from-Sound f (hello h) s v st hid = ground arith
accept_hello_from-Sound f _ s v st hid = reject-Sound _ s v

accept_acknowledgement_from-Sound :
    (f : Frame) (p : Payload) (s : Session)
    → IsValid s
    → s.state ≡ awaiting_acknowledgement
    → Sound s (accept_acknowledgement_from f p s)
unfolding accept_acknowledgement_from reject
accept_acknowledgement_from-Sound f (hello_acknowledged peer version) s v st = ground arith
accept_acknowledgement_from-Sound f _ s v st = reject-Sound _ s v

ack_case :
    (f : Frame) (n : ℕ) (s : Session) (m : Table ℕ String)
    → IsValid s
    → s.state ≡ ready
    → s.pending_heartbeats ≡ m
    → Sound s (accept_by_type f (ack n) (record s { expected_inbound = s.expected_inbound + 1 }))
unfolding accept_by_type reject get delete
ack_case f n s [] v st e = ground arith
ack_case f n s ((k, id) ∷ []) v st e = ground arith
ack_case f n s (x ∷ y ∷ m) v st e = ground arith

accept_by_type-Sound :
    (f : Frame) (p : Payload) (s s' : Session)
    → IsValid s
    → s.state ≡ ready
    → request_id f.request_id ≡ true
    → frame_sequence f.sequence ≡ true
    → s' ≡ record s { expected_inbound = s.expected_inbound + 1 }
    → Sound s (accept_by_type f p s')
unfolding accept_by_type reject payload_ok frame_ok frame_sequence get delete
accept_by_type-Sound f heartbeat s s' v st hid hseq e = rw e (ground arith)
accept_by_type-Sound f (ack n) s s' v st hid hseq e =
    rw e (ack_case f n s s.pending_heartbeats v st refl)
accept_by_type-Sound f _ s s' v st hid hseq e = rw e (ground arith)

pub start-Sound : (id : String) (s : Session) → IsValid s → Sound s (start id s)
unfolding start reject frame_ok frame_sequence
start-Sound id s v = ground (arith, own_hello_ok s v.version_ok)

pub send_heartbeat-Sound : (id : String) (s : Session) → IsValid s → Sound s (send_heartbeat id s)
unfolding send_heartbeat reject frame_ok frame_sequence payload_ok set
send_heartbeat-Sound id s v = ground arith

pub send_application-Sound :
    (u : Untrusted) (s : Session) → IsValid s → Sound s (send_application u s)
unfolding send_application reject frame_ok frame_sequence parse_frame
send_application-Sound none s v = ground arith
send_application-Sound (some f) s v = ground arith

accept_in-Sound :
    (t : State) (f : Frame) (s : Session)
    → IsValid s
    → s.state ≡ t
    → frame_ok f ≡ true
    → Sound s (accept_in t f s)
unfolding accept_in accept_hello accept_hello_acknowledgement accept_ready frame_ok
accept_in-Sound awaiting_hello f s v e ok_f =
    accept_hello_from-Sound f f.payload s v e (ground arith)
accept_in-Sound awaiting_acknowledgement f s v e ok_f =
    accept_acknowledgement_from-Sound f f.payload s v e
accept_in-Sound ready f s v e ok_f =
    accept_by_type-Sound f f.payload s _ v e (ground arith) (ground arith) refl
accept_in-Sound _ f s v e ok_f = reject-Sound _ s v

accept_parsed-Sound :
    (o : Option Frame) (s : Session)
    → IsValid s
    → ((f : Frame) → o ≡ some f → frame_ok f ≡ true)
    → Sound s (accept_parsed o s)
unfolding accept_parsed
accept_parsed-Sound none s v h = reject-Sound _ s v
accept_parsed-Sound (some f) s v h = ground (
  arith,
  reject-Sound {A = Received} sequence_violation s v,
  accept_in-Sound s.state f s v refl (h f refl),
)

receive_in-Sound :
    (t : State) (u : Untrusted) (s : Session) → s.state ≡ t → IsValid s → Sound s (receive_in t u s)
unfolding receive_in
receive_in-Sound closed u s e v = ground arith
receive_in-Sound _ u s e v = accept_parsed-Sound (parse_frame u) s v (parse_frame-ok u)

pub receive-Sound : (u : Untrusted) (s : Session) → IsValid s → Sound s (receive u s)
unfolding receive
receive-Sound u s v = receive_in-Sound s.state u s refl v
