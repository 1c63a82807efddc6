-- ===== src/Game/Combat.antt =====
-- option-b/internal/game/combat.go: the battle formula and what damage does to a unit. Sums are
-- unbounded here; with strengths and bonuses of the shipped files they stay far below 2^63.
pub mod Formula
pub mod Damage
use lotr_kafka_strategy_game.Prelude.{
  ℕ, suc, ◌+◌, ◌-◌, String, Bool, true, false, none, some, List, [], ◌∷◌, ◌==◌, if◌then◌else◌, ltb,
  leb, eqb, get_elem?,
}
use Prim.Native.Nat.{max}
use lotr_kafka_strategy_game.Config.{UnitConfig}
use lotr_kafka_strategy_game.Game.State.{destroyed, respawning, UnitState}

pub record Combatant : Type 0 where
  pub cfg : UnitConfig
  pub strength : ℕ

pub record CombatResult : Type 0 where
  pub attacker_won : Bool
  pub damage : ℕ
  pub attacker_power : ℕ
  pub defender_power : ℕ

-- The loop of `effectiveStrength`: `j` is the index of the next combatant.
unfoldable pub add_bonuses : ℕ → ℕ → List Combatant → ℕ → ℕ
add_bonuses i j [] s = s
add_bonuses i j (c ∷ cs) s =
    add_bonuses i (suc j) cs
      (if eqb j i then s else if c.cfg.leadership then s + c.cfg.leadership_bonus else s)

abbrev pub strength_at : List Combatant → ℕ → ℕ
strength_at side i = elim (get_elem? side i) [ none ↦ 0 | some c ↦ c.strength ]

unfoldable pub effective_strength : List Combatant → ℕ → ℕ
unfolding add_bonuses
effective_strength side i = add_bonuses i 0 side (strength_at side i)

-- The loop of `sidePower`: `rest` are the combatants from the index `i` on.
unfoldable pub sum_powers : List Combatant → ℕ → List Combatant → ℕ → ℕ
sum_powers side i [] total = total
sum_powers side i (c ∷ rest) total =
    sum_powers side (suc i) rest (total + effective_strength side i)

unfoldable pub side_power : List Combatant → ℕ
unfolding sum_powers effective_strength
side_power side = sum_powers side 0 side 0

unfoldable pub terrain_bonus : String → ℕ
terrain_bonus terrain = if terrain == "FORTRESS" then 2 else if terrain == "MOUNTAINS" then 1 else 0

unfoldable pub attack_ignores_fortress : List Combatant → Bool
attack_ignores_fortress [] = false
attack_ignores_fortress (a ∷ rest) =
    if a.cfg.ignores_fortress then true else attack_ignores_fortress rest

-- The defenders' power with terrain and fortification.
unfoldable pub defender_total : List Combatant → List Combatant → String → Bool → ℕ
unfolding attack_ignores_fortress terrain_bonus
defender_total attackers defenders terrain fortified =
    let dp = side_power defenders in
    let dp' = if attack_ignores_fortress attackers then dp else dp + terrain_bonus terrain in
    if fortified then dp' + 2 else dp'

unfoldable pub resolve_combat : List Combatant → List Combatant → String → Bool → CombatResult
unfolding defender_total
resolve_combat attackers defenders terrain fortified =
    let ap = side_power attackers in
    let dp = defender_total attackers defenders terrain fortified in
    if ltb dp ap
    then record { attacker_won = true; damage = ap - dp; attacker_power = ap; defender_power = dp }
    else record { attacker_won = false; damage = 0; attacker_power = ap; defender_power = dp }

-- `raw := u.Strength - damage` is at most 0 where `-` on the naturals gives 0, and both
-- `max(1, raw)` and the test `raw <= 0` read the two alike.
unfoldable pub apply_damage : UnitState → UnitConfig → ℕ → UnitState
apply_damage u cfg damage =
    let raw = u.strength - damage in
    if cfg.indestructible
    then record u { strength = max 1 raw }
    else if leb raw 0
    then (if cfg.respawns
        then record u {
          strength = 0;
          region = "";
          status = respawning;
          respawn_turns = cfg.respawn_turns;
        }
        else record u { strength = 0; region = ""; status = destroyed })
    else record u { strength = raw }
