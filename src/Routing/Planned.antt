-- ===== src/Routing/Planned.antt =====
-- What a plan that was not refused says of the request.
use gptsession_bridge.Shared.{
  ◌+◌, ◌≡◌, refl, sym, ap, ◌∙◌, Bool, String, false, true, ◌&&◌, Option, ok, bind-ok, leb, arith,
  throw_if,
}
use gptsession_bridge.Shared.Table.{size}
use gptsession_bridge.Values.{read_record}
use gptsession_bridge.Routing.Codes.{Code}
use gptsession_bridge.Routing.Decide.{decide_lifecycle_route, Route}
use gptsession_bridge.Routing.State.{Router}
use gptsession_bridge.Routing.Prepare.{
  Request, Plan, plan_decided, admit, read_source, routing_source, check_web, effective_source,
  reserves, pending_of, prepared_params, plan,
}

pub record Planned (r : Router) (q : Request) (p : Plan) : Type 0 where
  pub source : Option String
  pub route : Route
  pub admitted : admit r q ≡ ok p.key
  pub source_read : read_source r q.method (read_record q.params) ≡ ok source
  pub decided :
      decide_lifecycle_route r.models q.method
        (read_record q.params)
        (routing_source r q.method (read_record q.params) source)
        q.catalog_revision
      ≡ ok route
  pub web_checked : check_web route.kind q.method (read_record q.params) ≡ ok tt
  pub fits :
      (reserves r q.method (effective_source q.method (read_record q.params) route.kind source)
        && leb r.max_threads (size r.threads + r.reservations))
      ≡ false
  pub injected : prepared_params r q.params (read_record q.params) route ≡ ok p.params
  pub shaped :
      p.decision
      ≡ pending_of r q.method
          (effective_source q.method (read_record q.params) route.kind source)
          route

pub throw_if-ok : (b : Bool) (c : Code) → throw_if b c ≡ ok tt → b ≡ false
throw_if-ok true c h = cc
throw_if-ok false c h = refl

module _ (r : Router) (q : Request) (p : Plan) (key : String) (source : Option String)
    (d : Route) where
  abbrev effective : Option String
  effective = effective_source q.method (read_record q.params) d.kind source

  plan_decided-Decided :
      plan_decided r q key source d ≡ ok p
      → (check_web d.kind q.method (read_record q.params) ≡ ok tt)
        × ((reserves r q.method effective && leb r.max_threads (size r.threads + r.reservations))
            ≡ false)
        × (prepared_params r q.params (read_record q.params) d ≡ ok p.params)
        × (p.key ≡ key)
        × (p.decision ≡ pending_of r q.method effective d)
  unfolding plan_decided
  plan_decided-Decided h = ground arith

pub plan-Planned : (r : Router) (q : Request) (p : Plan) → plan r q ≡ ok p → Planned r q p
unfolding plan
plan-Planned r q p h = bind-ok (admit r q) _ h λ key admitted h1.
    bind-ok (read_source r q.method (read_record q.params)) _ h1 λ source source_read h2.
      bind-ok
        (decide_lifecycle_route r.models q.method (read_record q.params)
          (routing_source r q.method (read_record q.params) source) q.catalog_revision)
        _ h2
        λ route decided h3.
          let (web_checked, fits, injected, named, shaped) =
            plan_decided-Decided r q p key source route h3 in
          record {
            source = source;
            route = route;
            admitted = admitted ∙ ap ok (sym named);
            source_read = source_read;
            decided = decided;
            web_checked = web_checked;
            fits = fits;
            injected = injected;
            shaped = shaped;
          }
