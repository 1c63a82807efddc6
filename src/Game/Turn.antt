-- ===== src/Game/Turn.antt =====
-- option-b/internal/game/turn.go: the end of a turn, in thirteen steps.
pub mod Helpers
pub mod Blocks
pub mod Moves
pub mod Battle
pub mod Close
pub mod Process
pub mod Invariant
pub mod Sound
pub mod Secrecy
pub mod Keys
pub mod Surveillance
