-- ===== src/Catalog/Codes.antt =====
-- packages/core/src/catalog/errors.ts.
pub data Code : Type 0 where
  cursor_expired cursor_generation_failed invalid_configuration invalid_cursor : Code
  invalid_limit invalid_model invalid_model_page model_collision : Code
