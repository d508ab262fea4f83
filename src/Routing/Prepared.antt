-- ===== src/Routing/Prepared.antt =====
-- What a request that `prepare` admits leaves behind: its pending entry, its parameters and its
-- quarantine.
use gptsession_bridge.Shared.{
  ◌≡◌, refl, ap, sym, ◌∙◌, String, true, false, Option, some, Result, ok, err, arith, string_eq,
  option_eq, ==_refl,
}
use gptsession_bridge.Shared.Table.{get, has, get-set, has-set}
use gptsession_bridge.Values.{Value, Fields, at, read_record}
use gptsession_bridge.Routing.Codes.{Code}
use gptsession_bridge.Routing.Params.{Method, is_start, read_optional_string, identity_overrides}
use gptsession_bridge.Routing.Decide.{native, web, Route}
use gptsession_bridge.Routing.Inject.{inject_web_route}
use gptsession_bridge.Routing.State.{Pending, Router, quarantine}
use gptsession_bridge.Routing.Prepare.{
  Request, Prepared, Plan, read_source, routing_source, pending_of, prepared_params, plan, commit,
  finish, prepare,
}
use gptsession_bridge.Routing.Planned.{Planned, plan-Planned}
use gptsession_bridge.Routing.Injected.{WebParams, inject_web_route-WebParams}
use gptsession_bridge.Routing.Provider.{decide-web_source, decide-native_source, decide-native_kept}

-- The plan behind an admitted request.
pub record Behind (q : Request) (r : Router) (p : Prepared) : Type 0 where
  pub plan_of : Plan
  pub planned : Planned r q plan_of
  pub params_eq : p.params ≡ plan_of.params
  pub key_eq : p.request_key ≡ plan_of.key
  pub kind_eq : p.route ≡ plan_of.decision.route.kind
  pub state_eq : (prepare q r).1 ≡ commit plan_of r

finish-Behind :
    (q : Request) (r : Router) (o : Result Code Plan) (p : Prepared)
    → plan r q ≡ o
    → (finish r o).0 ≡ ok p
    → Behind q r p
unfolding finish
finish-Behind q r (err e) p h k = cc
finish-Behind q r (ok pl) p h k = record {
  plan_of = pl;
  planned = plan-Planned r q pl h;
  params_eq = ground arith;
  key_eq = ground arith;
  kind_eq = ground arith;
  state_eq = unfold prepare in rw h;
}

pub prepare-Behind :
    (q : Request) (r : Router) (p : Prepared) → (prepare q r).0 ≡ ok p → Behind q r p
unfolding prepare
prepare-Behind q r p h = finish-Behind q r (plan r q) p refl h

-- The thread that a request names.
abbrev pub named_thread : Request → Option String
named_thread q = read_optional_string (at (read_record q.params) "threadId")

pub read_source-eq :
    (r : Router) (m : Method) (ps : Option Fields) (s : Option String)
    → read_source r m ps ≡ ok s
    → s ≡ read_optional_string (at ps "threadId")
unfolding read_source
read_source-eq r m ps s h = ground arith

-- The pending entry that the request makes.
pub pending_after :
    (q : Request) (r : Router) (p : Prepared) (b : Behind q r p)
    → get (prepare q r).1.pending p.request_key ≡ some b.plan_of.decision
unfolding commit
pending_after q r p b =
    rw (b.state_eq, b.key_eq)
      (get-set r.pending b.plan_of.key b.plan_of.key b.plan_of.decision
        ∙ rw (==_refl b.plan_of.key))

web_injected :
    (r : Router) (q : Request) (d : Route)
    → d.kind ≡ web
    → (v : Value) → prepared_params r q.params (read_record q.params) d ≡ ok v
    → inject_web_route r.configuration (read_record q.params) d ≡ ok v
unfolding prepared_params
web_injected r q d k v h = ground arith

routing_source-web :
    (r : Router) (m : Method) (ps : Option Fields) (source : Option String) (t : String) (s : Route)
    → source ≡ some t
    → get r.threads t ≡ some s
    → s.kind ≡ web
    → routing_source r m ps source ≡ some s
unfolding routing_source
routing_source-web r m ps source t s e pinned k = ground arith

native_params :
    (q : Request) (r : Router) (p : Prepared)
    → (prepare q r).0 ≡ ok p
    → p.route ≡ native
    → p.params ≡ q.params
unfolding prepared_params pending_of
native_params q r p h k =
    let b = prepare-Behind q r p h in
    ground (arith, b.params_eq, b.kind_eq, b.planned.injected, b.planned.shaped)

-- The parameters prepared for a Web route name the provider model that its pending entry holds
-- and point at the bridge with its capability token.
pub prepare-WebParams :
    (q : Request) (r : Router) (p : Prepared)
    → (prepare q r).0 ≡ ok p
    → p.route ≡ web
    → (d : Pending) × (m : String) × (get (prepare q r).1.pending p.request_key ≡ some d)
      × (d.route.provider_model ≡ some m)
      × WebParams r.configuration p.params m d.route.reasoning_effort
unfolding pending_of
prepare-WebParams q r p h k =
    let b = prepare-Behind q r p h in
    let same : b.plan_of.decision.route ≡ b.planned.route =
      ap (λ (d : Pending). d.route) b.planned.shaped in
    let is_web_route : b.planned.route.kind ≡ web =
      ap (λ (d : Route). d.kind) (sym same) ∙ sym b.kind_eq ∙ k in
    let injected : inject_web_route r.configuration (read_record q.params) b.planned.route
        ≡ ok p.params =
      web_injected r q b.planned.route is_web_route p.params
        (b.planned.injected ∙ ap ok (sym b.params_eq)) in
    let (m, named, w) =
      inject_web_route-WebParams r.configuration (read_record q.params) b.planned.route p.params
        injected in
    (b.plan_of.decision, m, pending_after q r p b, rw same named, rw same w)

-- A lifecycle request admitted on a thread that is pinned to a Web route is pending for that very
-- route.
pub prepare-web_source :
    (q : Request) (r : Router) (p : Prepared) (t : String) (s : Route)
    → (prepare q r).0 ≡ ok p
    → named_thread q ≡ some t
    → get r.threads t ≡ some s
    → s.kind ≡ web
    → (d : Pending) × (get (prepare q r).1.pending p.request_key ≡ some d) × (d.route ≡ s)
unfolding pending_of
prepare-web_source q r p t s h n pinned k =
    let b = prepare-Behind q r p h in
    let same : b.plan_of.decision.route ≡ b.planned.route =
      ap (λ (d : Pending). d.route) b.planned.shaped in
    let source : b.planned.source ≡ some t =
      read_source-eq r q.method (read_record q.params) b.planned.source b.planned.source_read ∙ n in
    (
      b.plan_of.decision,
      pending_after q r p b,
      same
          ∙ decide-web_source r.models q.method (read_record q.params) s b.planned.route
              q.catalog_revision k
              (rw
                (sym (
                  routing_source-web r q.method (read_record q.params) b.planned.source t s source
                    pinned k))
                b.planned.decided),
    )

routing_source-native :
    (r : Router) (m : Method) (ps : Option Fields) (source : Option String) (t : String) (s : Route)
    → source ≡ some t
    → get r.threads t ≡ some s
    → identity_overrides m ps ≡ false
    → routing_source r m ps source ≡ some s
unfolding routing_source
routing_source-native r m ps source t s e pinned k = ground arith

-- A lifecycle request admitted on a native thread that is identified by its id alone stays
-- native.
pub prepare-native_source :
    (q : Request) (r : Router) (p : Prepared) (t : String) (s : Route)
    → (prepare q r).0 ≡ ok p
    → named_thread q ≡ some t
    → get r.threads t ≡ some s
    → s.kind ≡ native
    → identity_overrides q.method (read_record q.params) ≡ false
    → p.route ≡ native
unfolding pending_of
prepare-native_source q r p t s h n pinned k plain =
    let b = prepare-Behind q r p h in
    let same : b.plan_of.decision.route ≡ b.planned.route =
      ap (λ (d : Pending). d.route) b.planned.shaped in
    let source : b.planned.source ≡ some t =
      read_source-eq r q.method (read_record q.params) b.planned.source b.planned.source_read ∙ n in
    b.kind_eq
    ∙ ap (λ (d : Route). d.kind) same
    ∙ decide-native_source r.models q.method (read_record q.params) s b.planned.route
        q.catalog_revision k
        (rw
          (sym (
            routing_source-native r q.method (read_record q.params) b.planned.source t s source
              pinned plain))
          b.planned.decided)

-- A resume or fork that is admitted on a native thread identified by its id alone forwards its
-- parameters unchanged and is pending for that very native route.
pub prepare-native_kept :
    (q : Request) (r : Router) (p : Prepared) (t : String) (s : Route)
    → (prepare q r).0 ≡ ok p
    → named_thread q ≡ some t
    → get r.threads t ≡ some s
    → s.kind ≡ native
    → is_start q.method ≡ false
    → identity_overrides q.method (read_record q.params) ≡ false
    → (p.params ≡ q.params)
      × (d : Pending) × (get (prepare q r).1.pending p.request_key ≡ some d)
      × (d.route ≡ s)
unfolding pending_of
prepare-native_kept q r p t s h n pinned k resumes plain =
    let b = prepare-Behind q r p h in
    let source : b.planned.source ≡ some t =
      read_source-eq r q.method (read_record q.params) b.planned.source b.planned.source_read ∙ n in
    let kept : b.planned.route ≡ s =
      decide-native_kept r.models q.method (read_record q.params) s b.planned.route
        q.catalog_revision k resumes
        (rw
          (sym (
            routing_source-native r q.method (read_record q.params) b.planned.source t s source
              pinned plain))
          b.planned.decided) in
    (
      native_params q r p h (prepare-native_source q r p t s h n pinned k plain),
      b.plan_of.decision,
      pending_after q r p b,
      ap (λ (d : Pending). d.route) b.planned.shaped ∙ kept,
    )

-- After an admitted resume or fork the thread that it counts on is in quarantine.
pub prepare-quarantines :
    (q : Request) (r : Router) (p : Prepared) (d : Pending) (t : String)
    → (prepare q r).0 ≡ ok p
    → get (prepare q r).1.pending p.request_key ≡ some d
    → d.quarantined ≡ some t
    → has (prepare q r).1.provisional t ≡ true
unfolding commit quarantine
prepare-quarantines q r p d t h found k =
    let b = prepare-Behind q r p h in
    let e : b.plan_of.decision.quarantined ≡ some t = cc (pending_after q r p b) in
    rw (b.state_eq, commit, e) (has-set r.provisional t t _ ∙ rw (==_refl t))
