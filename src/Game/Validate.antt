-- ===== src/Game/Validate.antt =====
-- option-b/internal/game/validate.go: the eight rules on a submitted order, over a snapshot.
pub mod Walk
pub mod Rules
pub mod Errors
use lotr_kafka_strategy_game.Prelude.{
  ℕ, String, Bool, false, not, Option, none, some, List, [], ◌∷◌, ◌&&◌, ◌||◌, ◌==◌, if◌then◌else◌,
  ltb, eqb, contains, Dict, get_or,
}
use lotr_kafka_strategy_game.Config.{Config}
use lotr_kafka_strategy_game.Config.MapGraph.{adjacent}
use lotr_kafka_strategy_game.Game.State.{Status, PathStatus, side_free, side_shadow, is_blocked}
use lotr_kafka_strategy_game.Game.Order.{
  OrderType, assign_route, redirect_unit, maia_ability, block_path, search_path, attack_region,
  Order,
}

pub data Rejection : Type 0 where
  wrong_turn not_your_unit invalid_path path_blocked unit_not_adjacent invalid_target : Rejection
  on_cooldown duplicate_order : Rejection

-- `status` is `none` for the empty text.
pub record UnitView : Type 0 where
  pub side : String
  pub region : String
  pub status : Option Status
  pub cooldown : ℕ

-- `paths` holds `PathView.Status`, `regions` holds `RegionView.ControlledBy`.
pub record ValidationState : Type 0 where
  pub turn : ℕ
  pub units : Dict UnitView
  pub paths : Dict PathStatus
  pub regions : Dict String
  pub seen_units : List String

-- The interface that `Validate` takes; `none` is a false second result.
pub record Lookups : Type 0 where
  pub unit_side : String → Option String
  pub path_endpoints : String → Option (String × String)
  pub adjacent : String → String → Bool

-- The accessors of `Config` that implement it.
unfoldable pub lookups : Config → Lookups
lookups c = record {
  unit_side = λ id. elim (c.unit_by_id id) [ none ↦ none | some u ↦ some u.side ];
  path_endpoints = λ id. elim (c.path_by_id id) [ none ↦ none | some p ↦ some (p.from, p.to) ];
  adjacent = adjacent c.graph;
}

unfoldable pub player_side : String → String
player_side player = if player == "dark" then side_shadow else side_free

abbrev pub unit_view : ValidationState → String → UnitView
unit_view st id =
    get_or st.units id (record { side = ""; region = ""; status = none; cooldown = 0 })

-- One step of the loop of rule 4, over a path between `a` and `b`.
unfoldable pub walk_step : String → String → String → Option String
walk_step cur a b =
    if not (cur == a) && not (cur == b) then none else some (if cur == a then b else a)

-- The loop of rule 4: the region where the route ends, `none` where it is no walk.
unfoldable pub walk_end : Lookups → String → List String → Option String
unfolding walk_step
walk_end cfg cur [] = some cur
walk_end cfg cur (pid ∷ pids) = elim (cfg.path_endpoints pid) [
  | none ↦ none
  | some (a, b) ↦ elim (walk_step cur a b) [ none ↦ none | some next ↦ walk_end cfg next pids ]
]

unfoldable pub first_blocked : ValidationState → List String → Bool
first_blocked st [] = false
first_blocked st (pid ∷ pids) = elim (st.paths pid) [ none ↦ false | some s ↦ is_blocked s ]

unfoldable pub check_route : Lookups → ValidationState → String → List String → Option Rejection
unfolding walk_end first_blocked
check_route cfg st unit paths = elim (walk_end cfg (unit_view st unit).region paths) [
  | none ↦ some invalid_path
  | some _ ↦ if first_blocked st paths then some path_blocked else none
]

unfoldable pub check_endpoint : Lookups → ValidationState → String → String → Option Rejection
check_endpoint cfg st unit pid = elim (cfg.path_endpoints pid) [
  | none ↦ some invalid_path
  | some (a, b) ↦
      let r = (unit_view st unit).region in
      if r == a || r == b then none else some unit_not_adjacent
]

unfoldable pub check_attack :
    Lookups → ValidationState → String → String → String → Option Rejection
check_attack cfg st unit target side =
    if cfg.adjacent (unit_view st unit).region target
    then elim (st.regions target) [
      | none ↦ some invalid_target
      | some controlled_by ↦ if controlled_by == side then some invalid_target else none
    ]
    else some invalid_target

-- The `switch` on the order's type.
unfoldable pub check_by_type :
    OrderType → Lookups → ValidationState → Order → String → Option Rejection
unfolding check_route check_endpoint check_attack
check_by_type assign_route cfg st o side = check_route cfg st o.unit_id o.path_ids
check_by_type redirect_unit cfg st o side = check_route cfg st o.unit_id o.new_path_ids
check_by_type block_path cfg st o side = check_endpoint cfg st o.unit_id o.path_id
check_by_type search_path cfg st o side = check_endpoint cfg st o.unit_id o.path_id
check_by_type attack_region cfg st o side = check_attack cfg st o.unit_id o.target_region side
check_by_type maia_ability cfg st o side =
    if ltb 0 (unit_view st o.unit_id).cooldown then some on_cooldown else none
check_by_type _ cfg st o side = none

unfoldable pub validate : Order → ValidationState → Lookups → Option Rejection
unfolding player_side
validate o st cfg =
    if not (eqb o.turn st.turn)
    then some wrong_turn
    else if contains st.seen_units o.unit_id
    then some duplicate_order
    else elim (cfg.unit_side o.unit_id) [
      | none ↦ some not_your_unit
      | some side ↦
          if side == player_side o.player_id
          then check_by_type o.order_type cfg st o side
          else some not_your_unit
    ]
