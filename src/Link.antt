-- ===== src/Link.antt =====
-- packages/native-messaging/src/link: one end of an authenticated native-messaging link
-- (`NativeLinkSession`). A method is an `Exec`: what it wrote before it threw stays written.
pub mod Policy
pub mod Emit
pub mod Invariant
mod Moves
pub mod Run
pub mod Handshake
pub mod Admitted
mod Examples
use gptsession_bridge.Shared.{
  ℕ, zero, ◌+◌, String, Bool, true, false, not, ◌&&◌, Option, none, some, List, [], ◌∷◌, Result, ok,
  err, ltb, all, contains, all_distinct, nat_eq, string_eq, option_eq, ◌==◌, if◌then◌else◌,
}
use gptsession_bridge.Shared.Exec.{Exec, pure, lift, gets, modify, ◌>>=◌, ◌>>◌}
use gptsession_bridge.Shared.Table.{Table, get, set, delete}
use gptsession_bridge.Protocol.Text.{request_id, implementation_version, max_safe_integer}
use gptsession_bridge.Protocol.Frames.{
  FrameType, PeerRole, Payload, hello, hello_acknowledged, heartbeat, ack, Frame, Untrusted,
  frame_type, frame_ok, parse_frame, protocol_version, frame_type_eq, peer_role_eq,
}
use Policy.{transport_frame_types, application_frame_types}

pub data ErrorCode : Type 0 where
  correlation_violation destination_unavailable direction_violation invalid_frame : ErrorCode
  invalid_state sequence_exhausted sequence_violation unexpected_peer : ErrorCode

-- What a method throws: a `NativeLinkError`, or the schema's own error where no `try` catches it.
pub data Failure : Type 0 where
  link : ErrorCode → Failure
  schema : Failure

pub data Mode : Type 0 where
  initiator responder : Mode

pub data State : Type 0 where
  idle awaiting_hello awaiting_acknowledgement ready closed : State

pub record Options : Type 0 where
  pub version : String
  pub incoming_types : List FrameType
  pub local_peer : PeerRole
  pub mode : Mode
  pub outgoing_types : List FrameType
  pub remote_peer : PeerRole

pub record Session : Type 0 where
  pub options : Options
  pub open options use *
  pub expected_inbound : ℕ
  pub handshake_request_id : Option String
  pub next_outbound : ℕ
  pub pending_heartbeats : Table ℕ String
  pub state : State

-- What `receive` hands on: at most one of the two members is set.
pub data Received : Type 0 where
  nothing : Received
  application response : Frame → Received

unfoldable pub is_application_type_set : List FrameType → Bool
is_application_type_set types =
    all_distinct types
    && all (λ t. contains application_frame_types t && not (contains transport_frame_types t)) types

initial_state : Mode → State
initial_state initiator = idle
initial_state responder = awaiting_hello

-- The constructor; `none` is its `RangeError`.
unfoldable pub create : Options → Option Session
unfolding is_application_type_set initial_state
create o =
    if not (o.local_peer == o.remote_peer)
      && (implementation_version o.version
          && (is_application_type_set o.incoming_types && is_application_type_set o.outgoing_types))
    then some (record {
      options = o;
      expected_inbound = 0;
      handshake_request_id = none;
      next_outbound = 0;
      pending_heartbeats = [];
      state = initial_state o.mode;
    })
    else none

unfoldable pub close : Session → Session
close s = record s { handshake_request_id = none; pending_heartbeats = []; state = closed }

unfoldable pub reject {ℓ} : {A : Type ℓ} → ErrorCode → Exec Session Failure A
unfolding close
reject code s = (err (link code), close s)

unfoldable pub take_outbound_sequence : Exec Session Failure ℕ
unfolding reject
take_outbound_sequence s =
    if ltb max_safe_integer s.next_outbound
    then reject sequence_exhausted s
    else (ok s.next_outbound, record s { next_outbound = s.next_outbound + 1 })

-- `nativeMessagingFrameSchema.parse` of a frame that the session puts together.
unfoldable pub build : String → Payload → ℕ → Result Failure Frame
build id payload n =
    let f : Frame = record { request_id = id; sequence = n; payload = payload } in
    if frame_ok f then ok f else err schema

unfoldable pub emit : String → Payload → Exec Session Failure Frame
unfolding take_outbound_sequence build
emit id payload = do n ← take_outbound_sequence; lift (build id payload n)

-- `catch`: a link error is thrown on, any other is an invalid frame.
unfoldable pub caught {ℓ} : {A : Type ℓ} → Result Failure A → Exec Session Failure A
unfolding reject
caught (ok a) s = (ok a, s)
caught (err (link code)) s = (err (link code), s)
caught (err schema) s = reject invalid_frame s

unfoldable pub try {ℓ} : {A : Type ℓ} → Exec Session Failure A → Exec Session Failure A
unfolding caught
try m s = let (r, s') = m s in caught r s'

abbrev pub can_start : Mode → State → Bool
can_start initiator idle = true
can_start _ _ = false

abbrev pub is_ready : State → Bool
is_ready ready = true
is_ready _ = false

unfoldable pub check_request_id : String → Result Failure (Unit {0})
check_request_id id = if request_id id then ok tt else err schema

unfoldable pub start : String → Exec Session Failure Frame
unfolding reject emit try check_request_id
start id s =
    if can_start s.mode s.state
    then try
        (do
          lift (check_request_id id)
          frame ← emit id (
              hello (record {
                peer = s.local_peer;
                version = s.version;
                supported_protocol_versions = protocol_version ∷ [];
              }))
          modify
              (λ t. record t { handshake_request_id = some id; state = awaiting_acknowledgement })
          pure frame)
        s
    else reject invalid_state s

respond : String → Payload → Exec Session Failure Received
unfolding emit
respond id payload = do frame ← emit id payload; pure (response frame)

-- #acceptHello
accept_hello_from : Frame → Payload → Exec Session Failure Received
unfolding reject respond
accept_hello_from f (hello h) s =
    if h.peer == s.remote_peer
    then respond f.request_id (hello_acknowledged s.local_peer s.version)
        (record s { expected_inbound = 1; state = ready })
    else reject unexpected_peer s
accept_hello_from f _ s = reject invalid_state s

unfoldable pub accept_hello : Frame → Exec Session Failure Received
unfolding accept_hello_from
accept_hello f = accept_hello_from f f.payload

-- #acceptHelloAcknowledgement
accept_acknowledgement_from : Frame → Payload → Exec Session Failure Received
unfolding reject
accept_acknowledgement_from f (hello_acknowledged peer version) s =
    if not (peer == s.remote_peer)
    then reject unexpected_peer s
    else if not (some f.request_id == s.handshake_request_id)
    then reject correlation_violation s
    else (ok nothing, record s { expected_inbound = 1; handshake_request_id = none; state = ready })
accept_acknowledgement_from f _ s = reject invalid_state s

unfoldable pub accept_hello_acknowledgement : Frame → Exec Session Failure Received
unfolding accept_acknowledgement_from
accept_hello_acknowledgement f = accept_acknowledgement_from f f.payload

-- The `switch` of `receive`, by the frame's type.
accept_by_type : Frame → Payload → Exec Session Failure Received
unfolding reject respond
accept_by_type f heartbeat s = respond f.request_id (ack f.sequence) s
accept_by_type f (ack n) s =
    if get s.pending_heartbeats n == some f.request_id
    then (ok nothing, record s { pending_heartbeats = delete s.pending_heartbeats n })
    else reject correlation_violation s
accept_by_type f (hello h) s = reject invalid_state s
accept_by_type f (hello_acknowledged p v) s = reject invalid_state s
accept_by_type f _ s =
    if contains s.incoming_types (frame_type f)
    then (ok (application f), s)
    else reject direction_violation s

unfoldable pub accept_ready : Frame → Exec Session Failure Received
unfolding accept_by_type
accept_ready f s =
    accept_by_type f f.payload (record s { expected_inbound = s.expected_inbound + 1 })

accept_in : State → Frame → Exec Session Failure Received
unfolding reject accept_hello accept_hello_acknowledgement accept_ready
accept_in awaiting_hello f s = accept_hello f s
accept_in awaiting_acknowledgement f s = accept_hello_acknowledgement f s
accept_in ready f s = accept_ready f s
accept_in _ f s = reject invalid_state s

accept_parsed : Option Frame → Exec Session Failure Received
unfolding reject accept_in
accept_parsed none s = reject invalid_frame s
accept_parsed (some f) s =
    if f.sequence == s.expected_inbound then accept_in s.state f s else reject sequence_violation s

receive_in : State → Untrusted → Exec Session Failure Received
unfolding accept_parsed
receive_in closed value s = (err (link invalid_state), s)
receive_in _ value s = accept_parsed (parse_frame value) s

unfoldable pub receive : Untrusted → Exec Session Failure Received
unfolding receive_in
receive value s = receive_in s.state value s

send_parsed : Option Frame → Exec Session Failure Frame
unfolding reject emit
send_parsed none s = reject invalid_frame s
send_parsed (some f) s =
    if contains s.outgoing_types (frame_type f)
    then emit f.request_id f.payload s
    else reject direction_violation s

unfoldable pub send_application : Untrusted → Exec Session Failure Frame
unfolding reject send_parsed
send_application value s =
    if is_ready s.state then send_parsed (parse_frame value) s else reject invalid_state s

no_heartbeat_pending : Table ℕ String → Bool
no_heartbeat_pending [] = true
no_heartbeat_pending (entry ∷ m) = false

unfoldable pub send_heartbeat : String → Exec Session Failure Frame
unfolding reject try check_request_id take_outbound_sequence build no_heartbeat_pending
send_heartbeat id s =
    if is_ready s.state && no_heartbeat_pending s.pending_heartbeats
    then try
        (do
          lift (check_request_id id)
          n ← take_outbound_sequence
          frame ← lift (build id heartbeat n)
          modify (λ t. record t { pending_heartbeats = set t.pending_heartbeats n id })
          pure frame)
        s
    else reject invalid_state s
