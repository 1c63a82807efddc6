-- ===== src/Game/Combat/Damage.antt =====
-- What damage does to a unit (`ApplyDamage` of option-b/internal/game/combat.go), on every branch.
use lotr_kafka_strategy_game.Prelude.{ℕ, ◌+◌, ◌≤◌, ◌<◌, ◌≡◌, ◌⊎◌, true, false, arith}
use lotr_kafka_strategy_game.Config.{UnitConfig}
use lotr_kafka_strategy_game.Game.State.{destroyed, respawning, UnitState}
use lotr_kafka_strategy_game.Game.Combat.{apply_damage}

-- A unit that endures the damage: it stays where it is with its status, and keeps a positive
-- strength, which has fallen by the damage unless the floor of an indestructible unit held it at 1.
abbrev pub Endures : UnitState → UnitConfig → ℕ → UnitState → Type 0
Endures u cfg damage v =
    (v.status ≡ u.status)
    × (v.region ≡ u.region)
    × (0 < v.strength)
    × ((v.strength + damage ≡ u.strength)
        ⊎ (cfg.indestructible ≡ true) × (v.strength ≡ 1) × (u.strength ≤ damage))

-- A unit that falls: it leaves the map, to respawn or for good.
abbrev pub Falls : UnitState → UnitConfig → ℕ → UnitState → Type 0
Falls u cfg damage v =
    (cfg.indestructible ≡ false)
    × (u.strength ≤ damage)
    × (v.strength ≡ 0)
    × (v.region ≡ "")
    × ((cfg.respawns ≡ true) × (v.status ≡ respawning) × (v.respawn_turns ≡ cfg.respawn_turns)
        ⊎ (cfg.respawns ≡ false) × (v.status ≡ destroyed))

-- A damaged unit endures or falls. An indestructible unit always endures; any other falls exactly
-- if the damage reaches its strength.
pub apply_damage_lem :
    (u : UnitState) (cfg : UnitConfig) (damage : ℕ)
    → let v = apply_damage u cfg damage in Endures u cfg damage v ⊎ Falls u cfg damage v
unfolding apply_damage
apply_damage_lem u cfg damage = ground arith
