-- ===== src/Engine/Risk.antt =====
-- `computeRisk` of option-b/internal/engine/engine.go: the risk of the route that an order gives.
use lotr_kafka_strategy_game.Prelude.{ℕ, String, Bool, true, false, none, some, List, if◌then◌else◌}
use lotr_kafka_strategy_game.Config.{Config, unit_at}
use lotr_kafka_strategy_game.Game.State.{World, is_ring_bearer}
use lotr_kafka_strategy_game.Game.Order.{
  OrderType, assign_route, redirect_unit, destroy_ring, maia_ability, block_path, search_path,
  attack_region, reinforce_region, fortify_region, deploy_nazgul, other, Order,
}
use lotr_kafka_strategy_game.Analysis.{score_route}

unfoldable pub order_type_text : OrderType → String
order_type_text assign_route = "ASSIGN_ROUTE"
order_type_text redirect_unit = "REDIRECT_UNIT"
order_type_text destroy_ring = "DESTROY_RING"
order_type_text maia_ability = "MAIA_ABILITY"
order_type_text block_path = "BLOCK_PATH"
order_type_text search_path = "SEARCH_PATH"
order_type_text attack_region = "ATTACK_REGION"
order_type_text reinforce_region = "REINFORCE_REGION"
order_type_text fortify_region = "FORTIFY_REGION"
order_type_text deploy_nazgul = "DEPLOY_NAZGUL"
order_type_text (other s) = s

abbrev pub is_redirect : OrderType → Bool
is_redirect redirect_unit = true
is_redirect _ = false

abbrev pub route_start : Config → World → String → String
route_start cfg w id =
    if is_ring_bearer (unit_at cfg id)
    then w.ring.true_region
    else elim (w.units id) [ none ↦ "" | some u ↦ u.region ]

-- `ids` gives the order of the range over the units in `ScoreRoute`.
unfoldable pub compute_risk : List String → Config → World → Order → ℕ
unfolding score_route is_ring_bearer order_type_text
compute_risk ids cfg w o =
    (score_route ids w (order_type_text o.order_type) (route_start cfg w o.unit_id)
      (if is_redirect o.order_type then o.new_path_ids else o.path_ids)).score
