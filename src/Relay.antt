-- ===== src/Relay.antt =====
-- apps/native-host/src/protocol/native-host-relay.ts, `NativeHostRelay`: two links, of
-- which one carries on what the application of the other sends.
pub mod Guarded
pub mod Forwarded
mod Examples
use gptsession_bridge.Shared.{
  String, Bool, true, false, not, ◌&&◌, List, [], ◌∷◌, Option, none, some, Result, ok, err,
  if◌then◌else◌,
}
use gptsession_bridge.Protocol.Frames.{PeerRole, Frame, Untrusted}
use gptsession_bridge.Link.Policy.{bridge_to_extension_types, extension_to_bridge_types}
use gptsession_bridge.Link.{
  ErrorCode, Failure, link, destination_unavailable, responder, State, awaiting_hello, is_ready,
  Options, Session, Received, nothing, application, response, create, close, receive,
  send_application,
}

pub record Relay : Type 0 where
  pub bridge : Session
  pub extension : Session

abbrev pub bridge_options : String → Options
bridge_options version = record {
  version = version;
  incoming_types = bridge_to_extension_types;
  local_peer = PeerRole.native_host;
  mode = responder;
  outgoing_types = extension_to_bridge_types;
  remote_peer = PeerRole.bridge;
}

abbrev pub extension_options : String → Options
extension_options version = record {
  version = version;
  incoming_types = extension_to_bridge_types;
  local_peer = PeerRole.native_host;
  mode = responder;
  outgoing_types = bridge_to_extension_types;
  remote_peer = PeerRole.extension;
}

both : Option Session → Option Session → Option Relay
both (some b) (some e) = some (record { bridge = b; extension = e })
both _ _ = none

-- The constructor; `none` is a `RangeError` of one of the links.
unfoldable pub create_relay : String → Option Relay
unfolding both
create_relay version = both (create (bridge_options version)) (create (extension_options version))

-- NativeHostRelayResult: at most one of the two frames.
pub data Output : Type 0 where
  quiet : Output
  to_bridge to_extension : Frame → Output

unfoldable pub close_both : Relay → Relay
close_both r = record { bridge = close r.bridge; extension = close r.extension }

-- #guard
unfoldable pub guarded : Result Failure Output × Relay → Result Failure Output × Relay
unfolding close_both
guarded (ok o, r) = (ok o, r)
guarded (err e, r) = (err e, close_both r)

abbrev pub awaits_hello : State → Bool
awaits_hello awaiting_hello = true
awaits_hello _ = false

abbrev pub unavailable : Relay → Result Failure Output × Relay
unavailable r = (err (link destination_unavailable), r)

-- `sendApplication` on the other link.
unfoldable pub sent_to_extension :
    Session → Result Failure Frame × Session → Result Failure Output × Relay
sent_to_extension b (ok f, e) = (ok (to_extension f), record { bridge = b; extension = e })
sent_to_extension b (err c, e) = (err c, record { bridge = b; extension = e })

unfoldable pub sent_to_bridge :
    Session → Result Failure Frame × Session → Result Failure Output × Relay
sent_to_bridge e (ok f, b) = (ok (to_bridge f), record { bridge = b; extension = e })
sent_to_bridge e (err c, b) = (err c, record { bridge = b; extension = e })

-- What follows `receive` on the link of the bridge, and on that of the extension.
unfoldable pub pass_to_extension :
    Session → Result Failure Received × Session → Result Failure Output × Relay
unfolding sent_to_extension
pass_to_extension e (err c, b) = (err c, record { bridge = b; extension = e })
pass_to_extension e (ok nothing, b) = (ok quiet, record { bridge = b; extension = e })
pass_to_extension e (ok (response f), b) = (ok (to_bridge f), record { bridge = b; extension = e })
pass_to_extension e (ok (application f), b) =
    if is_ready e.state
    then sent_to_extension b (send_application (some f) e)
    else unavailable (record { bridge = b; extension = e })

unfoldable pub pass_to_bridge :
    Session → Result Failure Received × Session → Result Failure Output × Relay
unfolding sent_to_bridge
pass_to_bridge b (err c, e) = (err c, record { bridge = b; extension = e })
pass_to_bridge b (ok nothing, e) = (ok quiet, record { bridge = b; extension = e })
pass_to_bridge b (ok (response f), e) = (ok (to_extension f), record { bridge = b; extension = e })
pass_to_bridge b (ok (application f), e) =
    if is_ready b.state
    then sent_to_bridge e (send_application (some f) b)
    else unavailable (record { bridge = b; extension = e })

unfoldable pub receive_from_bridge : Untrusted → Relay → Result Failure Output × Relay
unfolding guarded pass_to_extension
receive_from_bridge value r = guarded (
    if awaits_hello r.bridge.state && not (is_ready r.extension.state)
    then unavailable r
    else pass_to_extension r.extension (receive value r.bridge))

unfoldable pub receive_from_extension : Untrusted → Relay → Result Failure Output × Relay
unfolding guarded pass_to_bridge
receive_from_extension value r = guarded (pass_to_bridge r.bridge (receive value r.extension))

pub data Call : Type 0 where
  from_bridge from_extension : Untrusted → Call
  closes : Call

unfoldable pub apply : Call → Relay → Result Failure Output × Relay
unfolding receive_from_bridge
apply (from_bridge value) r = receive_from_bridge value r
apply (from_extension value) r = receive_from_extension value r
apply closes r = (ok quiet, close_both r)

unfoldable pub run : Relay → List Call → Relay
unfolding apply
run r [] = r
run r (c ∷ cs) = run (apply c r).1 cs
