-- ===== src/Routing/Codes.antt =====
-- packages/core/src/routing/errors.ts.
pub data Code : Type 0 where
  invalid_configuration invalid_params pending_capacity pinned_selection_mismatch : Code
  provider_switch request_id_conflict route_conflict thread_capacity : Code
  thread_route_blocked thread_route_pending thread_route_unknown : Code
  web_derived_thread_unsupported web_method_unsupported web_model_unavailable : Code
  web_realtime_unsupported web_review_unsupported : Code
