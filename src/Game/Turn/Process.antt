-- ===== src/Game/Turn/Process.antt =====
-- `ProcessTurn` of option-b/internal/game/turn.go: the steps in their order.
use lotr_kafka_strategy_game.Prelude.{String, false, none, some, List, [], if◌then◌else◌}
use lotr_kafka_strategy_game.Prelude.Steps.{Step, done, each, ◌>>◌}
use lotr_kafka_strategy_game.Game.State.{World}
use lotr_kafka_strategy_game.Game.Order.{Order, Event}
use lotr_kafka_strategy_game.Game.Turn.Blocks.{
  Compromised, route_order, drop_stale, path_order, flag_paths,
}
use lotr_kafka_strategy_game.Game.Turn.Moves.{
  reposition_order, fortify_order, maia_order, advance_one, advance_ring,
}
use lotr_kafka_strategy_game.Game.Turn.Battle.{attacked_regions, battle}
use lotr_kafka_strategy_game.Game.Turn.Close.{
  tick_path, tick_region, count_unit, detect, evaluate_win, close_turn,
}

-- The orders in which one run ranges over the maps: for each `range` over a map its keys, and for
-- the two maps that a turn builds a way to list their keys.
pub record Schedule : Type 0 where
  pub stale_paths : List String
  pub newly_blocked : List String → List String
  pub compromised_units : String → List String
  pub advancing_units : List String
  pub battles : List String → List String
  pub timed_paths : List String
  pub timed_regions : List String
  pub counted_units : List String
  pub eye_units : List String
  pub detecting_units : List String
  pub shadow_units : List String
  pub nazgul_units : List String

-- A step that reports the events of a loop that changes local variables only.
unfoldable pub emit : List Event → Step World Event
emit ev w = some (w, ev)

-- Step 7, after the routes that were compromised are known.
unfoldable pub advance_all : Schedule → Compromised → Step World Event
unfolding each ◌>>◌ advance_one advance_ring
advance_all sch c =
    each (advance_one c.units) sch.advancing_units >> (if c.ring then done else advance_ring)

-- Steps 4 to 6.
unfoldable pub act : List Order → Step World Event
unfolding each ◌>>◌ reposition_order fortify_order maia_order
act orders = each reposition_order orders >> each fortify_order orders >> each maia_order orders

-- Steps 8 to 13.
unfoldable pub close : Schedule → List Order → Step World Event
unfolding each ◌>>◌ attacked_regions battle tick_path tick_region count_unit detect evaluate_win
    close_turn
close sch orders =
    each (battle orders) (sch.battles (attacked_regions orders))
    >> each tick_path sch.timed_paths
    >> each tick_region sch.timed_regions
    >> each count_unit sch.counted_units
    >> detect sch.eye_units sch.detecting_units
    >> evaluate_win sch.shadow_units sch.nazgul_units orders
    >> close_turn

-- Steps 3c to 13: `blocked` are the keys of `newlyBlocked`.
unfoldable pub after_blocks : Schedule → List Order → List String → Step World Event
unfolding flag_paths emit advance_all act close ◌>>◌
after_blocks sch orders blocked w =
    let c =
      flag_paths w sch.compromised_units (sch.newly_blocked blocked)
        (record { units = []; ring = false; events = [] }) in
    (emit c.events >> act orders >> advance_all sch c >> close sch orders) w

-- Steps 3b to 13.
unfoldable pub with_blocks : Schedule → List Order → Step World Event
unfolding path_order after_blocks each
with_blocks sch orders w =
    elim (each path_order orders (record { world = w; newly_blocked = [] })) [
      | none ↦ none
      | some (b, ev) ↦ (emit ev >> after_blocks sch orders b.newly_blocked) b.world
    ]

unfoldable pub process_turn : Schedule → List Order → Step World Event
unfolding route_order drop_stale with_blocks each ◌>>◌
process_turn sch orders =
    each route_order orders >> each drop_stale sch.stale_paths >> with_blocks sch orders
