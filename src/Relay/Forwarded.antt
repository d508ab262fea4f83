-- ===== src/Relay/Forwarded.antt =====
-- What the relay carries on: the application frame that it was given, numbered anew.
use gptsession_bridge.Shared.{
  ◌≤◌, ◌≡◌, refl, sym, ap, subst, String, true, false, List, some, Result, ok, contains,
}
use gptsession_bridge.Protocol.Text.{max_safe_integer}
use gptsession_bridge.Protocol.Frames.{
  Frame, FrameType, Untrusted, parse_frame, frame_type, frame_type_eq,
}
use gptsession_bridge.Link.{Failure, ready, State, Session, application, receive, send_application}
use gptsession_bridge.Link.Emit.{framed, advanced, parse_frame-ok}
use gptsession_bridge.Link.Admitted.{receive-LetsIn, send_application-ready}
use gptsession_bridge.Relay.{
  Relay, Output, to_extension, create_relay, guarded, sent_to_extension, pass_to_extension,
  receive_from_bridge, Call, run, awaits_hello,
}
use gptsession_bridge.Relay.Guarded.{create_relay-run-IsRelay}

-- `g` is the frame that `u` is, under the next number of the session `t` that sends it.
pub record Carries (s t : Session) (types : List FrameType) (u : Untrusted) (g : Frame)
    : Type 0 where
  pub received : Frame
  pub given : parse_frame u ≡ some received
  pub in_turn : received.sequence ≡ s.expected_inbound
  pub allowed : contains types (frame_type received) ≡ true
  pub source_ready : s.state ≡ ready
  pub target_ready : t.state ≡ ready
  pub same : g ≡ framed received.request_id received.payload t

-- The frame that the relay hands on, and the sessions that it leaves.
abbrev pub carried : Frame → Session → Session → Result Failure Output × Relay
carried f b e = (
  ok (to_extension (framed f.request_id f.payload e)),
  record { bridge = b; extension = advanced e },
)

passed_on :
    (f : Frame) (b e : Session)
    → e.state ≡ ready
    → send_application (some f) e ≡ (ok (framed f.request_id f.payload e), advanced e)
    → guarded (pass_to_extension e (ok (application f), b)) ≡ carried f b e
unfolding pass_to_extension sent_to_extension guarded
passed_on f b e hs h = rw h (rw hs refl)

not_awaiting : (t : State) → t ≡ ready → awaits_hello t ≡ false
not_awaiting t h = rw h refl

-- After any calls from the creation of a relay on, an application frame that the link of the
-- bridge lets in is handed to the extension, and the relay stays open, as long as the link to the
-- extension is ready and has a number left.
pub run-receive_from_bridge-carried :
    (v : String) (r : Relay) (cs : List Call) (u : Untrusted) (f : Frame) (b : Session)
    → create_relay v ≡ some r
    → receive u (run r cs).bridge ≡ (ok (application f), b)
    → (run r cs).extension.state ≡ ready
    → (run r cs).extension.next_outbound ≤ max_safe_integer
    → receive_from_bridge u (run r cs) ≡ carried f b (run r cs).extension
unfolding receive_from_bridge
run-receive_from_bridge-carried v r cs u f b hr h hs hn =
    let s = run r cs in
    let i = create_relay-run-IsRelay v r cs hr in
    let l = receive-LetsIn u f s.bridge (ap (λ x. x.0) h) in
    let sends =
      send_application-ready f s.extension (parse_frame-ok u f l.given) hs
        (subst (λ o. contains o.outgoing_types (frame_type f) ≡ true) (sym i.extension_same)
          (subst (λ o. contains o.incoming_types (frame_type f) ≡ true) i.bridge_same l.allowed))
        hn in
    rw h (rw (not_awaiting s.bridge.state l.was_ready) (passed_on f b s.extension hs sends))
