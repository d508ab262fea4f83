-- ===== src/Catalog.antt =====
-- packages/core/src/catalog: the model catalog, and the cursors of its pages.
pub mod Codes
pub mod Cursors
pub mod Virtual
pub mod Models
pub mod Merge
pub mod Paging
pub mod Setup
mod Examples
