-- ===== src/Game.antt =====
-- option-b/internal/game: the rules of the game.
pub mod State
pub mod Order
pub mod PathMachine
pub mod Units
pub mod Combat
pub mod Validate
pub mod Detection
pub mod WellFormed
pub mod Turn
pub mod Samples
mod Tests
