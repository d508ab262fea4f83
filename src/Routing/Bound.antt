-- ===== src/Routing/Bound.antt =====
-- What a thread-bound request on a pinned thread is turned into.
use gptsession_bridge.Shared.{
  ◌≡◌, refl, String, false, Option, none, some, Result, ok, arith, string_eq, option_eq, bind-ok,
  ◌==◌, ◌∙◌, Option-cases, inl, inr,
}
use gptsession_bridge.Values.{
  Value, object, string, Fields, member, read_record, set_property, clone_fields,
}
use gptsession_bridge.Values.Laws.{member-set}
use gptsession_bridge.Routing.Codes.{Code}
use gptsession_bridge.Routing.Params.{assert_no_reserved_definitions}
use gptsession_bridge.Routing.Decide.{web, Route}
use gptsession_bridge.Routing.Inject.{or_invalid, set_text}
use gptsession_bridge.Routing.Injected.{member-set_text}
use gptsession_bridge.Routing.State.{Router, route_of, assert_thread_available, assert_integrity}
use gptsession_bridge.Shared.Table.{get}
use gptsession_bridge.Routing.Refused.{thread_named_in}
use gptsession_bridge.Routing.Validate.{
  Bound, read_bound, bound_by_route, bound_to_web, rewrite_bound, pin_collaboration, pin_settings,
  validate_thread_bound, pinned_to_web,
}

abbrev pub EffortNamed : Fields → Option String → Type 0
EffortNamed params none = Unit {0}
EffortNamed params (some e) = member params "effort" ≡ string e

-- The parameters name the provider model and the effort that the thread is pinned to.
pub record NamesRoute (v : Value) (route : Route) : Type 0 where
  pub params : Fields
  pub model : String
  pub is_object : v ≡ object params
  pub routed : route.provider_model ≡ some model
  pub model_named : member params "model" ≡ string model
  pub effort_named : EffortNamed params route.reasoning_effort

set_property-member :
    (ps : Fields) (x : Value) (fs : Fields) (j : String)
    → ◌≡◌ {A = Result Code Fields} (ok (set_property ps "collaborationMode" x)) (ok fs)
    → ("collaborationMode" == j) ≡ false
    → member fs j ≡ member ps j
set_property-member ps x fs j h n = ground (arith, member-set ps "collaborationMode" j x)

pin_settings-member :
    (ps c : Fields) (o : Option Fields) (m : String) (e : Option String) (fs : Fields) (j : String)
    → pin_settings ps c o m e ≡ ok fs
    → ("collaborationMode" == j) ≡ false
    → member fs j ≡ member ps j
unfolding pin_settings
pin_settings-member ps c none m e fs j h n = absurd (cc)
pin_settings-member ps c (some s) m e fs j h n = set_property-member ps _ fs j h n

pinned_collaboration :
    (ps : Fields) (m : String) (e : Option String) (fs : Fields) (j : String) (o : Option Fields)
    → elim o [ none ↦ ok ps | some c ↦ pin_settings ps c (read_record (member c "settings")) m e ]
      ≡ ok fs
    → ("collaborationMode" == j) ≡ false
    → member fs j ≡ member ps j
pinned_collaboration ps m e fs j none h n = ground arith
pinned_collaboration ps m e fs j (some c) h n = pin_settings-member ps c _ m e fs j h n

pin_collaboration-member :
    (ps : Fields) (m : String) (e : Option String) (fs : Fields) (j : String)
    → pin_collaboration ps m e ≡ ok fs
    → ("collaborationMode" == j) ≡ false
    → member fs j ≡ member ps j
unfolding pin_collaboration
pin_collaboration-member ps m e fs j h n =
    pinned_collaboration ps m e fs j (read_record (member ps "collaborationMode")) h n

pinned-EffortNamed :
    (ps fs : Fields) (m : String) (o : Option String)
    → pin_collaboration (set_text ps "effort" o) m o ≡ ok fs
    → EffortNamed fs o
unfolding set_text
pinned-EffortNamed ps fs m none h = tt
pinned-EffortNamed ps fs m (some e) h =
    pin_collaboration-member (set_property ps "effort" (string e)) m (some e) fs "effort" h refl
    ∙ simp member-set

rewrite_bound-NamesRoute :
    (params : Option Fields) (route : Route) (w : Value)
    → rewrite_bound params route ≡ ok w
    → NamesRoute w route
unfolding rewrite_bound
rewrite_bound-NamesRoute params route w h = bind-ok (or_invalid params) _ h λ fs _ h1.
    bind-ok (or_invalid route.provider_model) _ h1 λ m named h2.
      bind-ok (or_invalid (clone_fields fs)) _ h2 λ cloned _ h3.
        bind-ok (pin_collaboration _ m route.reasoning_effort) _ h3 λ result pinned h4. record {
          params = result;
          model = m;
          is_object = cc;
          routed = unfold or_invalid in ground arith;
          model_named =
              pin_collaboration-member _ m route.reasoning_effort result "model" pinned refl
              ∙ member-set_text _ "effort" "model" route.reasoning_effort refl
              ∙ simp member-set;
          effort_named = pinned-EffortNamed _ result m route.reasoning_effort pinned;
        }

bound_to_web-rewritten :
    (params : Option Fields) (b : Bound) (route : Route) (w : Value)
    → bound_to_web params b route ≡ ok w
    → rewrite_bound params route ≡ ok w
unfolding bound_to_web
bound_to_web-rewritten params b route w h = ground arith

validate_thread_bound-route :
    (r : Router) (v w : Value)
    → validate_thread_bound r v ≡ ok w
    → (b : Bound) × (bound_by_route v (thread_named_in v) b (route_of r (thread_named_in v)) ≡ ok w)
unfolding validate_thread_bound
validate_thread_bound-route r v w h = bind-ok (assert_integrity r) _ h λ _ _ h1.
    bind-ok (assert_no_reserved_definitions (read_record v)) _ h1 λ _ _ h2.
      bind-ok (assert_thread_available r (thread_named_in v)) _ h2 λ _ _ h3.
        bind-ok (read_bound r (read_record v) (route_of r (thread_named_in v))) _ h3
          λ b _ h4. (b, h4)

bound_by_route-web :
    (v w : Value) (t : Option String) (b : Bound) (route : Route)
    → route.kind ≡ web
    → bound_by_route v t b (some route) ≡ ok w
    → bound_to_web (read_record v) b route ≡ ok w
unfolding bound_by_route
bound_by_route-web v w t b route k h = ground arith

-- On a thread pinned to a Web route, an accepted request is rewritten to the pinned selection.
pub validate_thread_bound-NamesRoute :
    (r : Router) (v w : Value) (t : String) (route : Route)
    → validate_thread_bound r v ≡ ok w
    → thread_named_in v ≡ some t
    → get r.threads t ≡ some route
    → route.kind ≡ web
    → NamesRoute w route
unfolding route_of
validate_thread_bound-NamesRoute r v w t route h e pinned k =
    let (b, bound) = validate_thread_bound-route r v w h in
    let there : route_of r (thread_named_in v) ≡ some route = rw (e, pinned) in
    rewrite_bound-NamesRoute (read_record v) route w (
      bound_to_web-rewritten (read_record v) b route w
        (bound_by_route-web v w (thread_named_in v) b route k (rw there at bound)))

-- On any other thread, or none, an accepted request goes on unchanged.
pub validate_thread_bound-unchanged :
    (r : Router) (v w : Value)
    → validate_thread_bound r v ≡ ok w
    → pinned_to_web (route_of r (thread_named_in v)) ≡ false
    → w ≡ v
unfolding bound_by_route
validate_thread_bound-unchanged r v w h n =
    let (b, bound) = validate_thread_bound-route r v w h in
    elim (Option-cases (route_of r (thread_named_in v))) [
      | inl none_there ↦ ground arith
      | inr (route, there) ↦ ground arith
    ]
