-- ===== src/World.antt =====
-- What the agent runs in: errors, the environment with the state, and actions.
mod Errors
mod State
mod Actions
pub use Errors.*
pub use State.*
pub use Actions.*
