-- ===== src/Shared/Table.antt =====
-- JavaScript's `Map`: entries in the order of their first insertion. `set` on a key that is
-- present keeps its place; `size` counts the entries.
mod Defs
mod Laws
unfoldable pub use Defs.*
pub use Laws.*
