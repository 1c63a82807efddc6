-- ===== src/Game/Turn/Invariant.antt =====
-- What the steps of a turn (option-b/internal/game/turn.go) keep and report, from what each of its
-- smallest steps keeps and reports.
pub mod Battles
pub mod Reports
pub mod Whole
use lotr_kafka_strategy_game.Prelude.{ℕ, String, List}
use lotr_kafka_strategy_game.Prelude.Steps.Rules.{Safe}
use lotr_kafka_strategy_game.Game.State.{World}
use lotr_kafka_strategy_game.Game.Order.{
  Order, OrderType, Event, event, route_compromised, aud_all, aud_light,
}
use lotr_kafka_strategy_game.Game.Combat.{CombatResult}
use lotr_kafka_strategy_game.Game.Detection.{Detection, expose}
use lotr_kafka_strategy_game.Game.Turn.Blocks.{Blocking, route_as, drop_stale, path_as}
use lotr_kafka_strategy_game.Game.Turn.Moves.{
  reposition_as, fortify_as, maia_as, advance_one, advance_ring,
}
use lotr_kafka_strategy_game.Game.Turn.Battle.{damage_defender, capture, repel, announce}
use lotr_kafka_strategy_game.Game.Turn.Close.{
  tick_path, tick_region, count_unit, detection_event, evaluate_win, close_turn,
}

-- Every smallest step keeps `P`, and reports only events with `Q`.
pub record IsKept (P : World → Type 0) (Q : Event → Type 0) : Type 0 where
  pub routes : (t : OrderType) (o : Order) → Safe P Q (route_as t o)
  pub stale : (pid : String) → Safe P Q (drop_stale pid)
  pub paths : (t : OrderType) (o : Order) → Safe (λ (b : Blocking). P b.world) Q (path_as t o)
  pub repositions : (t : OrderType) (o : Order) → Safe P Q (reposition_as t o)
  pub fortifies : (t : OrderType) (o : Order) → Safe P Q (fortify_as t o)
  pub abilities : (t : OrderType) (o : Order) → Safe P Q (maia_as t o)
  pub advances : (compromised : List String) (id : String) → Safe P Q (advance_one compromised id)
  pub ring_advances : Safe P Q advance_ring
  pub announces : (region : String) (res : CombatResult) → Safe P Q (announce region res)
  pub damages :
      (region : String) (damage : ℕ) (id : String) → Safe P Q (damage_defender region damage id)
  pub captures : (region side : String) → Safe P Q (capture region side)
  pub repels : (o : Order) → Safe P Q (repel o)
  pub path_ticks : (pid : String) → Safe P Q (tick_path pid)
  pub region_ticks : (rid : String) → Safe P Q (tick_region rid)
  pub counts : (id : String) → Safe P Q (count_unit id)
  pub exposes : (rb : String) (w : World) → P w → P (expose w rb)
  pub wins :
      (shadow_ids nazgul_ids : List String) (orders : List Order)
      → Safe P Q (evaluate_win shadow_ids nazgul_ids orders)
  pub closes : Safe P Q close_turn
  pub detections : (turn : ℕ) (d : Detection) → Q (detection_event turn d)
  pub unit_flags :
      (turn : ℕ) (pid id : String)
      → Q (record (event route_compromised turn aud_all) { unit_id = id; path_id = pid })
  pub ring_flags :
      (turn : ℕ) (pid id : String)
      → Q (record (event route_compromised turn aud_light) { unit_id = id; path_id = pid })
