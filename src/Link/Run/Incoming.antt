-- ===== src/Link/Run/Incoming.antt =====
-- What a session lets in under any sequence of calls is numbered without a gap.
use gptsession_bridge.Shared.{
  ◌+◌, ◌≡◌, refl, subst, List, [], ◌∷◌, Option, none, some, Result, ok, err, length, arith, ◌⊎◌,
  inl, inr,
}
use gptsession_bridge.Protocol.Frames.{Frame, parse_frame}
use gptsession_bridge.Link.{
  Failure, link, schema, closed, Session, Received, close, reject, start, receive, send_application,
  send_heartbeat,
}
use gptsession_bridge.Link.Moves.{In, receive-Moves}
use gptsession_bridge.Link.Invariant.{IsValid, Ends, receive-Sound}
use gptsession_bridge.Link.Run.{
  Call, starts, receives, sends, beats, closes, Output, as_got, apply, accepted, all_accepted,
  NumberedFrom, NumberedFrom-append, apply-Sound,
}
use gptsession_bridge.Link.{Options, create}
use gptsession_bridge.Link.Invariant.{create-IsValid}

create-zero : (o : Options) (s : Session) → create o ≡ some s → s.expected_inbound ≡ 0
unfolding create
create-zero o s h = ground arith

Accepts : Session → Result Failure Output × Session → Type 0
Accepts s r =
    NumberedFrom s.expected_inbound (accepted r.0)
    × ((r.1.expected_inbound ≡ s.expected_inbound + length (accepted r.0)) ⊎ (r.1.state ≡ closed))

receives-Accepts :
    (f : Frame) (s : Session) (r : Result Failure Received) (s' : Session)
    → In f s r s'
    → Ends r s'
    → Accepts s (as_got (some f) r, s')
unfolding Accepts as_got accepted
receives-Accepts f s (ok r) s' m e = ground arith
receives-Accepts f s (err (link c)) s' m e = (tt, inr e)
receives-Accepts f s (err schema) s' m e = absurd e

sends-Accepts : (u : Option Frame) (s : Session) → Accepts s (apply (sends u) s)
unfolding Accepts apply accepted send_application reject parse_frame
sends-Accepts none s = ground arith
sends-Accepts (some f) s = ground arith

apply-Accepts : (c : Call) (s : Session) → IsValid s → Accepts s (apply c s)
unfolding Accepts apply accepted start send_heartbeat close reject
apply-Accepts (starts id) s v = ground arith
apply-Accepts (receives none) s v = unfold receive parse_frame in ground arith
apply-Accepts (receives (some f)) s v =
    receives-Accepts f s _ _ (receive-Moves f s v).1 (receive-Sound (some f) s v).ends
apply-Accepts (sends u) s v = sends-Accepts u s
apply-Accepts (beats id) s v = ground arith
apply-Accepts closes s v = ground arith

closed-accepts-nothing :
    (c : Call) (s : Session)
    → IsValid s
    → s.state ≡ closed
    → (accepted (apply c s).0 ≡ []) × ((apply c s).1.state ≡ closed)
unfolding apply accepted start receive send_application send_heartbeat close reject
closed-accepts-nothing (starts id) s v e = ground arith
closed-accepts-nothing (receives none) s v e = ground arith
closed-accepts-nothing (receives (some f)) s v e = ground arith
closed-accepts-nothing (sends u) s v e = ground arith
closed-accepts-nothing (beats id) s v e = ground arith
closed-accepts-nothing closes s v e = ground arith

all_accepted-closed :
    (s : Session) (cs : List Call) → IsValid s → s.state ≡ closed → all_accepted s cs ≡ []
unfolding all_accepted
all_accepted-closed s [] v e = refl
all_accepted-closed s (c ∷ cs) v e =
    let (none_now, still) = closed-accepts-nothing c s v e in
    rw (none_now, all_accepted-closed (apply c s).1 cs (apply-Sound c s v).valid still)

-- The frames that a session lets in are numbered without a gap, whatever else arrives.
pub all_accepted-NumberedFrom :
    (s : Session) (cs : List Call) → IsValid s → NumberedFrom s.expected_inbound (all_accepted s cs)
unfolding all_accepted Accepts
all_accepted-NumberedFrom s [] v = tt
all_accepted-NumberedFrom s (c ∷ cs) v =
    let next = (apply c s).1 in
    let v' = (apply-Sound c s v).valid in
    elim (apply-Accepts c s v).1 [
      | inl moved ↦ NumberedFrom-append s.expected_inbound _ _ (apply-Accepts c s v).0 (
          subst (λ m. NumberedFrom m (all_accepted next cs)) moved
            (all_accepted-NumberedFrom next cs v'))
      | inr shut ↦
          NumberedFrom-append s.expected_inbound _ _ (apply-Accepts c s v).0
            (rw (all_accepted-closed next cs v' shut) tt)
    ]

-- From the creation of a session on, the frames that it lets in are numbered 0, 1, 2 and so on,
-- whatever else arrives.
pub create-all_accepted :
    (o : Options) (s : Session) (cs : List Call)
    → create o ≡ some s
    → NumberedFrom 0 (all_accepted s cs)
create-all_accepted o s cs h =
    subst (λ n. NumberedFrom n (all_accepted s cs)) (create-zero o s h)
      (all_accepted-NumberedFrom s cs (create-IsValid o s h))
