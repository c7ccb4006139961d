-- ===== src/Network/Invariant.antt =====
-- What holds of every world that the callers and the callbacks can reach.
mod Defs
mod Moves
mod Settled
mod Messages
pub mod Reached
pub use Defs.*
pub use Moves.*
pub use Messages.*
