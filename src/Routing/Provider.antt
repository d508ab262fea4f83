-- ===== src/Routing/Provider.antt =====
-- A request never moves a thread to another provider, and Web parameters name the pinned model.
use gptsession_bridge.Shared.{
  ◌≡◌, refl, String, false, Option, none, some, ok, bind-ok, arith, string_eq, option_eq, inl, ◌⊎◌,
}
use gptsession_bridge.Values.{Fields}
use gptsession_bridge.Routing.Registry.{Definition, Registry, lookup_model, lookup_selected}
use gptsession_bridge.Routing.Params.{Method, is_start}
use gptsession_bridge.Routing.Decide.{
  native, web, Route, Selection, create_web_route, create_native_route, decide_web, decide_fresh,
  decide_from, read_selection, decide_lifecycle_route,
}

decide_web-eq : (c : Selection) (s d : Route) → decide_web c s ≡ ok d → d ≡ s
unfolding decide_web
decide_web-eq c s d h = ground arith

create_web_route-web :
    (v : Definition) (e : Option String) (d : Route) → create_web_route v e ≡ ok d → d.kind ≡ web
unfolding create_web_route
create_web_route-web v e d h = ground arith

decide_from-web :
    (m : Method) (s d : Route) (v : Option String) (c : Selection)
    → s.kind ≡ web
    → decide_from m (some s) v c ≡ ok d
    → d ≡ s
unfolding decide_from
decide_from-web m s d v c k h = ground (arith, decide_web-eq c s d)

decide_from-native :
    (m : Method) (s d : Route) (v : Option String) (c : Selection)
    → s.kind ≡ native
    → decide_from m (some s) v c ≡ ok d
    → d.kind ≡ native
unfolding decide_from create_native_route
decide_from-native m s d v c k h = ground arith

decide_from-native_kept :
    (m : Method) (s d : Route) (v : Option String) (c : Selection)
    → s.kind ≡ native
    → is_start m ≡ false
    → decide_from m (some s) v c ≡ ok d
    → d ≡ s
unfolding decide_from decide_fresh create_native_route
decide_from-native_kept m s d v c k n h = ground arith

-- The selection of a Web route made afresh is one of the registered models.
pub record FromModel (models : Registry) (d : Route) : Type 0 where
  pub definition : Definition
  pub selected : String
  pub listed : lookup_model models selected ≡ ok (some definition)
  pub named : d.model ≡ some definition.public_model
  pub provided : d.provider_model ≡ some definition.provider_model
  pub revised : d.catalog_revision ≡ some definition.catalog_revision

read_selection-virtual :
    (m : Registry) (ps : Option Fields) (s : Option Route) (c : Selection)
    → read_selection m ps s ≡ ok c
    → lookup_selected m c.model ≡ ok c.virtual
unfolding read_selection
read_selection-virtual m ps s c h = ground arith

selected-FromModel :
    (models : Registry) (model : Option String) (v : Definition) (e : Option String) (d : Route)
    → lookup_selected models model ≡ ok (some v)
    → create_web_route v e ≡ ok d
    → FromModel models d
unfolding lookup_selected create_web_route
selected-FromModel models none v e d l h = cc
selected-FromModel models (some s) v e d l h = record {
  definition = v;
  selected = s;
  listed = l;
  named = ground arith;
  provided = ground arith;
  revised = ground arith;
}

fresh-FromModel :
    (models : Registry) (m : Method) (s : Option Route) (rev : Option String) (c : Selection)
    (v : Option Definition) (d : Route)
    → lookup_selected models c.model ≡ ok v
    → (s ≡ none) ⊎ ((o : Route) × (s ≡ some o) × (o.kind ≡ native))
    → decide_fresh m s rev c v ≡ ok d
    → d.kind ≡ web
    → FromModel models d
unfolding decide_fresh create_native_route
fresh-FromModel models m s rev c none d l n h w = absurd (ground arith)
fresh-FromModel models m s rev c (some v) d l n h w =
    selected-FromModel models c.model v c.effort d l (ground arith)

-- A request whose source is pinned to a Web route goes to that route or is refused.
pub decide-web_source :
    (models : Registry) (m : Method) (ps : Option Fields) (s d : Route) (rev : Option String)
    → s.kind ≡ web
    → decide_lifecycle_route models m ps (some s) rev ≡ ok d
    → d ≡ s
unfolding decide_lifecycle_route
decide-web_source models m ps s d rev k h =
    bind-ok (read_selection models ps (some s)) _ h λ c _ h1. decide_from-web m s d rev c k h1

-- One whose source is pinned to a native route stays native or is refused.
pub decide-native_source :
    (models : Registry) (m : Method) (ps : Option Fields) (s d : Route) (rev : Option String)
    → s.kind ≡ native
    → decide_lifecycle_route models m ps (some s) rev ≡ ok d
    → d.kind ≡ native
unfolding decide_lifecycle_route
decide-native_source models m ps s d rev k h =
    bind-ok (read_selection models ps (some s)) _ h λ c _ h1. decide_from-native m s d rev c k h1

-- And one that resumes or forks it goes to that very route or is refused.
pub decide-native_kept :
    (models : Registry) (m : Method) (ps : Option Fields) (s d : Route) (rev : Option String)
    → s.kind ≡ native
    → is_start m ≡ false
    → decide_lifecycle_route models m ps (some s) rev ≡ ok d
    → d ≡ s
unfolding decide_lifecycle_route
decide-native_kept models m ps s d rev k n h =
    bind-ok (read_selection models ps (some s)) _ h
      λ c _ h1. decide_from-native_kept m s d rev c k n h1

-- With no source route, a Web decision carries the public model, the provider model and the
-- revision of a model that the registry lists.
pub decide-fresh_source :
    (models : Registry) (m : Method) (ps : Option Fields) (d : Route) (rev : Option String)
    → d.kind ≡ web
    → decide_lifecycle_route models m ps none rev ≡ ok d
    → FromModel models d
unfolding decide_lifecycle_route decide_from
decide-fresh_source models m ps d rev k h =
    bind-ok (read_selection models ps none) _ h λ c selected h1.
      fresh-FromModel models m none rev c c.virtual d
        (read_selection-virtual models ps none c selected) (inl refl) h1 k
