-- ===== src/Link/Run.antt =====
-- A session under any sequence of calls: what leaves it and what it lets in is numbered without a
-- gap, and an error is final.
pub mod Outgoing
pub mod Incoming
use gptsession_bridge.Shared.{
  ℕ, ◌+◌, ◌≡◌, ◌≢◌, refl, subst, String, List, [], ◌∷◌, ◌++◌, Option, none, some, Result, ok, err,
  length, arith, ◌⊎◌, inl, inr,
}
use gptsession_bridge.Shared.Exec.{Exec}
use gptsession_bridge.Protocol.Text.{frame_sequence}
use gptsession_bridge.Protocol.Frames.{Frame, Untrusted, frame_ok, payload_ok, parse_frame}
use gptsession_bridge.Link.{
  Options, create, Failure, link, schema, invalid_state, closed, Session, Received, nothing,
  application, response, close, reject, start, receive, send_application, send_heartbeat,
}
use gptsession_bridge.Link.Moves.{Out, In, receive-Moves}
use native.Mathlib.Nat.{add-zero}
use gptsession_bridge.Link.Emit.{own_hello_ok}
use gptsession_bridge.Link.Invariant.{
  create-IsValid, IsValid, Sound, Ends, start-Sound, receive-Sound, send_application-Sound,
  send_heartbeat-Sound,
}

pub data Call : Type 0 where
  starts : String → Call
  receives sends : Untrusted → Call
  beats : String → Call
  closes : Call

pub data Output : Type 0 where
  sent : Frame → Output
  got : Frame → Received → Output
  done : Output

as_sent : Result Failure Frame → Result Failure Output
as_sent (ok f) = ok (sent f)
as_sent (err e) = err e

unfoldable as_got : Untrusted → Result Failure Received → Result Failure Output
as_got (some f) (ok r) = ok (got f r)
as_got none (ok r) = ok done
as_got u (err e) = err e

unfoldable pub apply : Call → Exec Session Failure Output
unfolding as_sent as_got
apply (starts id) s = let (r, s') = start id s in (as_sent r, s')
apply (receives u) s = let (r, s') = receive u s in (as_got u r, s')
apply (sends u) s = let (r, s') = send_application u s in (as_sent r, s')
apply (beats id) s = let (r, s') = send_heartbeat id s in (as_sent r, s')
apply closes s = (ok done, close s)

pub run : Session → List Call → Session
run s [] = s
run s (c ∷ cs) = run (apply c s).1 cs

-- The frames that a call puts on the wire.
pub emitted : Result Failure Output → List Frame
emitted (ok (sent f)) = f ∷ []
emitted (ok (got f (response g))) = g ∷ []
emitted _ = []

-- The frames that a call lets in.
unfoldable pub accepted : Result Failure Output → List Frame
accepted (ok (got f r)) = f ∷ []
accepted _ = []

pub all_emitted : Session → List Call → List Frame
all_emitted s [] = []
all_emitted s (c ∷ cs) = emitted (apply c s).0 ++ all_emitted (apply c s).1 cs

unfoldable pub all_accepted : Session → List Call → List Frame
all_accepted s [] = []
all_accepted s (c ∷ cs) = accepted (apply c s).0 ++ all_accepted (apply c s).1 cs

-- The frames are numbered n, n + 1, ...
abbrev pub NumberedFrom : ℕ → List Frame → Type 0
NumberedFrom n [] = Unit {0}
NumberedFrom n (f ∷ fs) = (f.sequence ≡ n) × NumberedFrom (n + 1) fs

apply-Sound : (c : Call) (s : Session) → IsValid s → Sound s (apply c s)
unfolding apply close
apply-Sound (starts id) s v = ground (arith, start-Sound id s v)
apply-Sound (receives none) s v = ground (arith, receive-Sound none s v)
apply-Sound (receives (some f)) s v = ground (arith, receive-Sound (some f) s v)
apply-Sound (sends u) s v = ground (arith, send_application-Sound u s v)
apply-Sound (beats id) s v = ground (arith, send_heartbeat-Sound id s v)
apply-Sound closes s v = ground arith

run-IsValid : (s : Session) (cs : List Call) → IsValid s → IsValid (run s cs)
unfolding run
run-IsValid s [] v = v
run-IsValid s (c ∷ cs) v = run-IsValid (apply c s).1 cs (apply-Sound c s v).valid

create-run-IsValid :
    (o : Options) (s : Session) (cs : List Call) → create o ≡ some s → IsValid (run s cs)
create-run-IsValid o s cs h = run-IsValid s cs (create-IsValid o s h)

-- A valid session that is closed refuses every call but close as an invalid state and stays as it
-- is.
pub apply-closed :
    (c : Call) (s : Session)
    → IsValid s
    → s.state ≡ closed
    → c ≢ closes
    → apply c s ≡ (err (link invalid_state), s)
unfolding apply start receive send_application send_heartbeat close reject
apply-closed (starts id) s v e n = ground arith
apply-closed (receives none) s v e n = ground arith
apply-closed (receives (some f)) s v e n = ground arith
apply-closed (sends u) s v e n = ground arith
apply-closed (beats id) s v e n = ground arith
apply-closed closes s v e n = absurd (n refl)

NumberedFrom-append :
    (n : ℕ) (fs gs : List Frame)
    → NumberedFrom n fs
    → NumberedFrom (n + length fs) gs
    → NumberedFrom n (fs ++ gs)
NumberedFrom-append n [] gs h k = subst (λ m. NumberedFrom m gs) (add-zero n) k
NumberedFrom-append n (f ∷ fs) gs h k =
    (h.0, NumberedFrom-append (n + 1) fs gs h.1 (subst (λ m. NumberedFrom m gs) (omega arith) k))

-- After any sequence of calls from its creation on, a further call leaves the session valid with
-- the same options and a counter that has not gone down, and closes it if it throws.
pub create-run-Sound :
    (o : Options) (s : Session) (cs : List Call) (c : Call)
    → create o ≡ some s
    → Sound (run s cs) (apply c (run s cs))
create-run-Sound o s cs c h = apply-Sound c (run s cs) (create-run-IsValid o s cs h)
