-- ===== src/Relay/Guarded.antt =====
-- Both links stay valid, and a throw closes both.
use gptsession_bridge.Shared.{
  ◌≡◌, refl, ◌∙◌, String, List, [], ◌∷◌, Option, some, Result, ok, err, arith,
}
use gptsession_bridge.Protocol.Frames.{Frame, Untrusted}
use gptsession_bridge.Link.{
  Failure, closed, Options, Session, Received, nothing, application, response, create, close,
  receive, send_application,
}
use gptsession_bridge.Link.Invariant.{
  IsValid, create-IsValid, receive-Sound, send_application-Sound,
}
use gptsession_bridge.Relay.{
  Relay, Output, bridge_options, extension_options, both, create_relay, close_both, guarded,
  unavailable, sent_to_extension, sent_to_bridge, pass_to_extension, pass_to_bridge,
  receive_from_bridge, receive_from_extension, Call, from_bridge, from_extension, closes, apply,
  run,
}

-- Both sessions are valid and have the options that the relay gave them.
pub record IsRelay (version : String) (r : Relay) : Type 0 where
  pub bridge_valid : IsValid r.bridge
  pub extension_valid : IsValid r.extension
  pub bridge_same : r.bridge.options ≡ bridge_options version
  pub extension_same : r.extension.options ≡ extension_options version

close-IsValid : (s : Session) → IsValid s → IsValid (close s)
unfolding close
close-IsValid s v = ground (arith, v.version_ok, v.numbered)

-- A throw ends both links.
abbrev pub EndsBoth : Result Failure Output × Relay → Type 0
EndsBoth (ok o, r) = Unit {0}
EndsBoth (err e, r) = (r.bridge.state ≡ closed) × (r.extension.state ≡ closed)

close_both-IsRelay : (v : String) (r : Relay) → IsRelay v r → IsRelay v (close_both r)
unfolding close_both close
close_both-IsRelay v r h = record {
  bridge_valid = close-IsValid r.bridge h.bridge_valid;
  extension_valid = close-IsValid r.extension h.extension_valid;
  bridge_same = h.bridge_same;
  extension_same = h.extension_same;
}

guarded-IsRelay :
    (v : String) (x : Result Failure Output × Relay) → IsRelay v x.1 → IsRelay v (guarded x).1
unfolding guarded
guarded-IsRelay v (ok o, r) h = h
guarded-IsRelay v (err e, r) h = close_both-IsRelay v r h

guarded-EndsBoth : (x : Result Failure Output × Relay) → EndsBoth (guarded x)
unfolding guarded close_both close
guarded-EndsBoth (ok o, r) = tt
guarded-EndsBoth (err e, r) = (refl, refl)

sent_to_extension-IsRelay :
    (v : String) (b : Session) (x : Result Failure Frame × Session)
    → IsRelay v (record { bridge = b; extension = x.1 })
    → IsRelay v (sent_to_extension b x).1
unfolding sent_to_extension
sent_to_extension-IsRelay v b (ok f, e) h = h
sent_to_extension-IsRelay v b (err c, e) h = h

sent_to_bridge-IsRelay :
    (v : String) (e : Session) (x : Result Failure Frame × Session)
    → IsRelay v (record { bridge = x.1; extension = e })
    → IsRelay v (sent_to_bridge e x).1
unfolding sent_to_bridge
sent_to_bridge-IsRelay v e (ok f, b) h = h
sent_to_bridge-IsRelay v e (err c, b) h = h

-- A method of the link of the bridge, or of the extension, has been called.
on_bridge {ℓ} :
    {A : Type ℓ} (v : String) (b e : Session) (x : A × Session)
    → IsRelay v (record { bridge = b; extension = e })
    → IsValid x.1
    → x.1.options ≡ b.options
    → IsRelay v (record { bridge = x.1; extension = e })
on_bridge v b e x h valid same = record {
  bridge_valid = valid;
  extension_valid = h.extension_valid;
  bridge_same = same ∙ h.bridge_same;
  extension_same = h.extension_same;
}

on_extension {ℓ} :
    {A : Type ℓ} (v : String) (b e : Session) (x : A × Session)
    → IsRelay v (record { bridge = b; extension = e })
    → IsValid x.1
    → x.1.options ≡ e.options
    → IsRelay v (record { bridge = b; extension = x.1 })
on_extension v b e x h valid same = record {
  bridge_valid = h.bridge_valid;
  extension_valid = valid;
  bridge_same = h.bridge_same;
  extension_same = same ∙ h.extension_same;
}

send_to_extension-IsRelay :
    (v : String) (f : Frame) (b e : Session)
    → IsRelay v (record { bridge = b; extension = e })
    → IsRelay v (sent_to_extension b (send_application (some f) e)).1
send_to_extension-IsRelay v f b e h =
    let s = send_application-Sound (some f) e h.extension_valid in
    sent_to_extension-IsRelay v b (send_application (some f) e)
      (on_extension v b e (send_application (some f) e) h s.valid s.same_options)

send_to_bridge-IsRelay :
    (v : String) (f : Frame) (b e : Session)
    → IsRelay v (record { bridge = b; extension = e })
    → IsRelay v (sent_to_bridge e (send_application (some f) b)).1
send_to_bridge-IsRelay v f b e h =
    let s = send_application-Sound (some f) b h.bridge_valid in
    sent_to_bridge-IsRelay v e (send_application (some f) b)
      (on_bridge v b e (send_application (some f) b) h s.valid s.same_options)

pass_to_extension-IsRelay :
    (v : String) (e : Session) (x : Result Failure Received × Session)
    → IsRelay v (record { bridge = x.1; extension = e })
    → IsRelay v (pass_to_extension e x).1
unfolding pass_to_extension
pass_to_extension-IsRelay v e (err c, b) h = h
pass_to_extension-IsRelay v e (ok nothing, b) h = h
pass_to_extension-IsRelay v e (ok (response f), b) h = h
pass_to_extension-IsRelay v e (ok (application f), b) h =
    ground (arith, send_to_extension-IsRelay v f b e h)

pass_to_bridge-IsRelay :
    (v : String) (b : Session) (x : Result Failure Received × Session)
    → IsRelay v (record { bridge = b; extension = x.1 })
    → IsRelay v (pass_to_bridge b x).1
unfolding pass_to_bridge
pass_to_bridge-IsRelay v b (err c, e) h = h
pass_to_bridge-IsRelay v b (ok nothing, e) h = h
pass_to_bridge-IsRelay v b (ok (response f), e) h = h
pass_to_bridge-IsRelay v b (ok (application f), e) h =
    ground (arith, send_to_bridge-IsRelay v f b e h)

receive_from_bridge-IsRelay :
    (v : String) (u : Untrusted) (r : Relay) → IsRelay v r → IsRelay v (receive_from_bridge u r).1
unfolding receive_from_bridge
receive_from_bridge-IsRelay v u r h =
    let s = receive-Sound u r.bridge h.bridge_valid in
    let passed =
      pass_to_extension-IsRelay v r.extension (receive u r.bridge)
        (on_bridge v r.bridge r.extension (receive u r.bridge) h s.valid s.same_options) in
    ground (
      arith,
      guarded-IsRelay v (unavailable r) h,
      guarded-IsRelay v (pass_to_extension r.extension (receive u r.bridge)) passed,
    )

receive_from_extension-IsRelay :
    (v : String) (u : Untrusted) (r : Relay)
    → IsRelay v r
    → IsRelay v (receive_from_extension u r).1
unfolding receive_from_extension
receive_from_extension-IsRelay v u r h =
    let s = receive-Sound u r.extension h.extension_valid in
    guarded-IsRelay v (pass_to_bridge r.bridge (receive u r.extension)) (
      pass_to_bridge-IsRelay v r.bridge (receive u r.extension)
        (on_extension v r.bridge r.extension (receive u r.extension) h s.valid s.same_options))

apply-IsRelay : (v : String) (c : Call) (r : Relay) → IsRelay v r → IsRelay v (apply c r).1
unfolding apply
apply-IsRelay v (from_bridge u) r h = receive_from_bridge-IsRelay v u r h
apply-IsRelay v (from_extension u) r h = receive_from_extension-IsRelay v u r h
apply-IsRelay v closes r h = close_both-IsRelay v r h

apply-EndsBoth : (c : Call) (r : Relay) → EndsBoth (apply c r)
unfolding apply receive_from_bridge receive_from_extension
apply-EndsBoth (from_bridge u) r = guarded-EndsBoth _
apply-EndsBoth (from_extension u) r = guarded-EndsBoth _
apply-EndsBoth closes r = tt

run-IsRelay : (v : String) (r : Relay) (cs : List Call) → IsRelay v r → IsRelay v (run r cs)
unfolding run
run-IsRelay v r [] h = h
run-IsRelay v r (c ∷ cs) h = run-IsRelay v (apply c r).1 cs (apply-IsRelay v c r h)

create-options : (o : Options) (s : Session) → create o ≡ some s → s.options ≡ o
unfolding create
create-options o s h = ground arith

both-IsRelay :
    (v : String) (b e : Option Session) (r : Relay)
    → create (bridge_options v) ≡ b
    → create (extension_options v) ≡ e
    → both b e ≡ some r
    → IsRelay v r
unfolding both
both-IsRelay v (some b) (some e) r hb he h = ground (
  arith,
  create-IsValid (bridge_options v) b hb,
  create-IsValid (extension_options v) e he,
  create-options (bridge_options v) b hb,
  create-options (extension_options v) e he,
)
both-IsRelay v _ _ r hb he h = cc

pub create_relay-run-IsRelay :
    (v : String) (r : Relay) (cs : List Call) → create_relay v ≡ some r → IsRelay v (run r cs)
unfolding create_relay
create_relay-run-IsRelay v r cs h = run-IsRelay v r cs (both-IsRelay v _ _ r refl refl h)

-- After any calls from the creation of a relay on, a further call leaves both links valid with
-- the options that the relay gave them, and closes both if it throws.
pub create_relay-run-apply :
    (v : String) (r : Relay) (cs : List Call) (c : Call)
    → create_relay v ≡ some r
    → IsRelay v (apply c (run r cs)).1 × EndsBoth (apply c (run r cs))
create_relay-run-apply v r cs c h =
    (apply-IsRelay v c (run r cs) (create_relay-run-IsRelay v r cs h), apply-EndsBoth c (run r cs))
