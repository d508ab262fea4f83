-- ===== src/Routing.antt =====
-- packages/core/src/routing: which provider a thread is pinned to.
pub mod Codes
pub mod Registry
pub mod Keys
pub mod Params
pub mod Decide
pub mod Inject
pub mod State
pub mod Prepare
pub mod Settle
pub mod Validate
pub mod Planned
pub mod Quarantine
pub mod Rule
pub mod Invariant
pub mod Run
pub mod Pinned
pub mod Injected
pub mod Provider
pub mod Prepared
pub mod Committed
pub mod Settled
pub mod Bound
pub mod Listed
pub mod Refused
mod Examples
