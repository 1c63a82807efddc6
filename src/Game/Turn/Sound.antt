-- ===== src/Game/Turn/Sound.antt =====
-- Each step of the turn (option-b/internal/game/turn.go) in a well-formed world: it does not panic,
-- and the world stays well formed.
pub mod Routes
pub mod Actions
pub mod Advances
pub mod Battles
pub mod Counters
pub mod Whole
