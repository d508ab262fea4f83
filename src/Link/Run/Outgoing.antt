-- ===== src/Link/Run/Outgoing.antt =====
-- What leaves a session under any sequence of calls is numbered without a gap.
use gptsession_bridge.Shared.{
  ◌+◌, ◌≡◌, subst, List, [], ◌∷◌, Option, none, some, Result, ok, err, length, arith,
}
use gptsession_bridge.Protocol.Text.{frame_sequence}
use gptsession_bridge.Protocol.Frames.{Frame, frame_ok, payload_ok, parse_frame}
use gptsession_bridge.Link.{
  Failure, Session, Received, nothing, application, response, close, reject, start, receive,
  send_application, send_heartbeat,
}
use gptsession_bridge.Link.Moves.{Out, receive-Moves}
use gptsession_bridge.Link.Emit.{own_hello_ok}
use gptsession_bridge.Link.Invariant.{IsValid}
use gptsession_bridge.Link.Run.{
  Call, starts, receives, sends, beats, closes, Output, as_got, apply, emitted, all_emitted,
  NumberedFrom, NumberedFrom-append, apply-Sound,
}
use gptsession_bridge.Link.{Options, create}
use gptsession_bridge.Link.Invariant.{create-IsValid}

abbrev Emits : Session → Result Failure Output × Session → Type 0
Emits s r =
    NumberedFrom s.next_outbound (emitted r.0)
    × (r.1.next_outbound ≡ s.next_outbound + length (emitted r.0))

apply-Emits-sends : (u : Option Frame) (s : Session) → IsValid s → Emits s (apply (sends u) s)
unfolding apply emitted send_application reject frame_ok frame_sequence parse_frame
apply-Emits-sends none s v = ground arith
apply-Emits-sends (some f) s v = ground arith

receives_some :
    (f : Frame) (s : Session) (r : Result Failure Received) (s' : Session)
    → Out s r s'
    → Emits s (as_got (some f) r, s')
unfolding as_got emitted
receives_some f s (ok nothing) s' m = ground arith
receives_some f s (ok (application g)) s' m = ground arith
receives_some f s (ok (response g)) s' m = ground arith
receives_some f s (err e) s' m = ground arith

apply-Emits-receives : (u : Option Frame) (s : Session) → IsValid s → Emits s (apply (receives u) s)
unfolding apply emitted receive parse_frame reject
apply-Emits-receives none s v = ground arith
apply-Emits-receives (some f) s v =
    receives_some f s (receive (some f) s).0 (receive (some f) s).1 (receive-Moves f s v).0

apply-Emits : (c : Call) (s : Session) → IsValid s → Emits s (apply c s)
unfolding apply emitted start send_heartbeat close reject frame_ok frame_sequence payload_ok
apply-Emits (starts id) s v = ground (arith, own_hello_ok s v.version_ok)
apply-Emits (receives u) s v = apply-Emits-receives u s v
apply-Emits (sends u) s v = apply-Emits-sends u s v
apply-Emits (beats id) s v = ground arith
apply-Emits closes s v = ground arith

create-zero : (o : Options) (s : Session) → create o ≡ some s → s.next_outbound ≡ 0
unfolding create
create-zero o s h = ground arith

-- Whatever is called, the frames that leave a session carry consecutive numbers.
pub all_emitted-NumberedFrom :
    (s : Session) (cs : List Call) → IsValid s → NumberedFrom s.next_outbound (all_emitted s cs)
unfolding all_emitted
all_emitted-NumberedFrom s [] v = tt
all_emitted-NumberedFrom s (c ∷ cs) v =
    let (now, moved) = apply-Emits c s v in
    NumberedFrom-append s.next_outbound _ _ now (
      subst (λ m. NumberedFrom m (all_emitted (apply c s).1 cs)) moved
        (all_emitted-NumberedFrom (apply c s).1 cs (apply-Sound c s v).valid))

-- From the creation of a session on, the frames that it emits are numbered 0, 1, 2 and so on,
-- whatever is called.
pub create-all_emitted :
    (o : Options) (s : Session) (cs : List Call)
    → create o ≡ some s
    → NumberedFrom 0 (all_emitted s cs)
create-all_emitted o s cs h =
    subst (λ n. NumberedFrom n (all_emitted s cs)) (create-zero o s h)
      (all_emitted-NumberedFrom s cs (create-IsValid o s h))
