-- ===== src/Game/Turn/Battle.antt =====
-- Step 8 of `ProcessTurn` in option-b/internal/game/turn.go: `resolveAttacks`.
use lotr_kafka_strategy_game.Prelude.{
  String, Bool, true, false, not, Option, none, some, List, [], ◌∷◌, ◌&&◌, ◌==◌, if◌then◌else◌,
  contains, select, ℕ,
}
use lotr_kafka_strategy_game.Prelude.Steps.{Step, each, ◌>>◌}
use lotr_kafka_strategy_game.Config.{unit_at, region_at}
use lotr_kafka_strategy_game.Config.MapGraph.{adjacent}
use lotr_kafka_strategy_game.Game.State.{
  RegionState, World, side_free, side_neutral, is_active, put_unit, put_region,
}
use lotr_kafka_strategy_game.Game.Order.{
  OrderType, attack_region, Order, Event, event, battle_resolved, region_control, aud_all,
}
use lotr_kafka_strategy_game.Game.Units.{remove_str}
use lotr_kafka_strategy_game.Game.Combat.{Combatant, CombatResult, resolve_combat, apply_damage}

abbrev pub is_attack : OrderType → Bool
is_attack attack_region = true
is_attack _ = false

-- `byRegion`: its keys, and the group of one key in the order of the orders.
unfoldable pub attacked_regions : List Order → List String
attacked_regions [] = []
attacked_regions (o ∷ os) =
    let rest = attacked_regions os in
    if is_attack o.order_type && not (contains rest o.target_region)
    then o.target_region ∷ rest
    else rest

unfoldable pub attack_group : String → List Order → List Order
attack_group region orders =
    select (λ o. is_attack o.order_type && o.target_region == region) orders

-- Whether the unit of an order takes part in the attack on `region`.
unfoldable pub attacks : World → String → Order → Bool
attacks w region o = elim (w.units o.unit_id) [
  | none ↦ false
  | some u ↦ is_active u.status && adjacent w.cfg.graph u.region region
]

abbrev pub strength_of : World → String → ℕ
strength_of w id = elim (w.units id) [ none ↦ 0 | some u ↦ u.strength ]

abbrev pub combatant : World → String → Combatant
combatant w id = record { cfg = unit_at w.cfg id; strength = strength_of w id }

unfoldable pub gather_attackers : World → String → List Order → List Combatant
unfolding attacks
gather_attackers w region [] = []
gather_attackers w region (o ∷ os) =
    let rest = gather_attackers w region os in
    if attacks w region o then combatant w o.unit_id ∷ rest else rest

-- `attackerSide` is that of the last attacker; `side` is the one before.
unfoldable pub attacker_side : World → String → List Order → String → String
attacker_side w region [] side = side
attacker_side w region (o ∷ os) side =
    attacker_side w region os (if attacks w region o then (unit_at w.cfg o.unit_id).side else side)

unfoldable pub defends : World → String → String → Bool
defends w side id =
    not ((unit_at w.cfg id).side == side) && not ((unit_at w.cfg id).side == side_neutral)

-- The combatants for `defenderIDs`; `none` is the nil dereference of an id with no unit.
unfoldable pub gather_defenders : World → List String → Option (List Combatant)
gather_defenders w [] = some []
gather_defenders w (id ∷ ids) = elim (w.units id) [
  | none ↦ none
  | some _ ↦ elim (gather_defenders w ids) [ none ↦ none | some cs ↦ some (combatant w id ∷ cs) ]
]

-- The body of the loop over the beaten defenders.
unfoldable pub damage_defender : String → ℕ → String → Step World Event
unfolding apply_damage remove_str
damage_defender region damage id w = elim (w.units id) [
  | none ↦ none
  | some u ↦
      let u' = apply_damage u (unit_at w.cfg id) damage in
      let w' = put_unit w id u' in
      if is_active u'.status then some (w', []) else elim (w'.regions region) [
        | none ↦ none
        | some reg ↦
            some (put_region w' region (record reg { units = remove_str reg.units id }), [])
      ]
]

-- What a won battle writes after the damage.
unfoldable pub capture : String → String → Step World Event
capture region side w = elim (w.regions region) [
  | none ↦ none
  | some reg ↦
      let w' = put_region w region (record reg { controlled_by = side }) in
      some (
        (if region == w.saruman_home_id && side == side_free
            then record w' { saruman_disabled = true }
            else w'),
        record (event region_control w.turn aud_all) { region_id = region; new_controller = side }
            ∷ [],
      )
]

-- The body of the loop over the group of a repelled attack.
unfoldable pub repel : Order → Step World Event
unfolding apply_damage
repel o w = elim (w.units o.unit_id) [
  | none ↦ some (w, [])
  | some u ↦
      if is_active u.status
      then some (put_unit w o.unit_id (apply_damage u (unit_at w.cfg o.unit_id) 1), [])
      else some (w, [])
]

-- The two outcomes of a battle.
unfoldable pub settle : String → String → List Order → List String → CombatResult → Step World Event
unfolding damage_defender capture repel each ◌>>◌
settle region side group defenders res =
    if res.attacker_won
    then each (damage_defender region res.damage) defenders >> capture region side
    else each repel group

unfoldable pub announce : String → CombatResult → Step World Event
announce region res w = some (
  w,
  record (event battle_resolved w.turn aud_all) {
    region_id = region;
    attacker_won = res.attacker_won;
  }
      ∷ [],
)

-- The battle for a region that has attackers.
unfoldable pub fight : String → List Order → List Combatant → RegionState → Step World Event
unfolding gather_defenders attacker_side defends resolve_combat settle announce ◌>>◌
fight region group attackers reg w =
    let side = attacker_side w region group "" in
    let ids = select (defends w side) reg.units in
    elim (gather_defenders w ids) [
      | none ↦ none
      | some defenders ↦
          let res =
            resolve_combat attackers defenders (region_at w.cfg region).terrain reg.fortified in
          (announce region res >> settle region side group ids res) w
    ]

-- The body of the loop over `byRegion`.
unfoldable pub battle : List Order → String → Step World Event
unfolding gather_attackers attack_group fight
battle orders region w =
    let group = attack_group region orders in
    elim (w.regions region) [
      | none ↦ some (w, [])
      | some reg ↦ elim (gather_attackers w region group) [
        | [] ↦ some (w, [])
        | c ∷ cs ↦ fight region group (c ∷ cs) reg w
      ]
    ]
