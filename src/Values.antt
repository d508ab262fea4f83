-- ===== src/Values.antt =====
-- JavaScript values of type `unknown`, as the router reads them.
pub mod Strings
mod Data
mod Clone
pub mod Laws
unfoldable pub use Data.*
unfoldable pub use Clone.*
