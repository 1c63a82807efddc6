-- ===== src/Game/Turn/Helpers.antt =====
-- The small helpers of option-b/internal/game/turn.go. A loop over the units goes over `ids`, the
-- keys of the map in the order of the range.
use lotr_kafka_strategy_game.Prelude.{
  String, Bool, true, false, none, some, List, [], ◌∷◌, ◌&&◌, ◌||◌, ◌==◌, if◌then◌else◌,
}
use lotr_kafka_strategy_game.Config.{unit_at}
use lotr_kafka_strategy_game.Game.State.{
  PathState, World, side_free, side_shadow, is_active, is_ring,
}

unfoldable pub unit_region : World → String → String
unfolding is_ring
unit_region w id =
    if is_ring w id then w.ring.true_region else elim (w.units id) [ none ↦ "" | some u ↦ u.region ]

unfoldable pub at_endpoint : World → String → String → Bool
unfolding unit_region
at_endpoint w unit path = elim (w.cfg.path_by_id path) [
  | none ↦ false
  | some p ↦ let r = unit_region w unit in r == p.from || r == p.to
]

unfoldable pub opposed : String → String → Bool
opposed a b = (a == side_free && b == side_shadow) || (a == side_shadow && b == side_free)

unfoldable pub any_enemy : World → String → List String → Bool
unfolding opposed
any_enemy w side [] = false
any_enemy w side (id ∷ ids) = elim (w.units id) [
  | none ↦ any_enemy w side ids
  | some u ↦
      if is_active u.status && opposed (unit_at w.cfg id).side side
      then true
      else any_enemy w side ids
]

unfoldable pub enemy_at : World → String → String → Bool
unfolding any_enemy
enemy_at w side region = elim (w.regions region) [
  | none ↦ false
  | some reg ↦ any_enemy w side reg.units
]

unfoldable pub enemy_holds_endpoint : World → String → String → Bool
unfolding enemy_at
enemy_holds_endpoint w blocker path = elim (w.cfg.path_by_id path) [
  | none ↦ false
  | some p ↦
      let side = (unit_at w.cfg blocker).side in enemy_at w side p.from || enemy_at w side p.to
]

unfoldable pub blocker_still_holds : World → PathState → Bool
unfolding at_endpoint
blocker_still_holds w p = if p.blocked_by == "" then false else elim (w.units p.blocked_by) [
  | none ↦ false
  | some u ↦ is_active u.status && at_endpoint w p.blocked_by p.id
]

unfoldable pub shadow_present : List String → World → String → Bool
shadow_present [] w region = false
shadow_present (id ∷ ids) w region = elim (w.units id) [
  | none ↦ shadow_present ids w region
  | some u ↦
      if is_active u.status && (u.region == region && (unit_at w.cfg id).side == side_shadow)
      then true
      else shadow_present ids w region
]

unfoldable pub nazgul_present : List String → World → String → Bool
nazgul_present [] w region = false
nazgul_present (id ∷ ids) w region = elim (w.units id) [
  | none ↦ nazgul_present ids w region
  | some u ↦
      if is_active u.status && (u.region == region && (unit_at w.cfg id).class == "Nazgul")
      then true
      else nazgul_present ids w region
]
