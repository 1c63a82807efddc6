-- ===== src/Game/Turn/Secrecy/Whole.antt =====
-- What a whole turn (option-b/internal/game/turn.go) tells the dark side.
use lotr_kafka_strategy_game.Prelude.{String, ◌≡◌, refl, List, some, arith, All}
use lotr_kafka_strategy_game.Prelude.Steps.Rules.{Safe}
use lotr_kafka_strategy_game.Game.State.{World}
use lotr_kafka_strategy_game.Game.Order.{Order, Event}
use lotr_kafka_strategy_game.Game.Combat.{CombatResult}
use lotr_kafka_strategy_game.Game.Detection.{expose}
use lotr_kafka_strategy_game.Game.Turn.Battle.{announce}
use lotr_kafka_strategy_game.Game.Turn.Process.{Schedule, process_turn}
use lotr_kafka_strategy_game.Game.Turn.Invariant.{IsKept}
use lotr_kafka_strategy_game.Game.Turn.Invariant.Whole.{process_turn-Safe}
use lotr_kafka_strategy_game.Game.Turn.Secrecy.{
  IsDiscreet, Carries, route_as-Safe, drop_stale-Safe, path_as-Safe, reposition_as-Safe,
  fortify_as-Safe, maia_as-Safe, advance_one-Safe, advance_ring-Safe, tick_path-Safe,
  tick_region-Safe, count_unit-Safe, evaluate_win-Safe, close_turn-Safe, damage_defender-Safe,
  capture-Safe, repel-Safe,
}

announce-Safe :
    (ring region : String) (res : CombatResult)
    → Safe (Carries ring) (IsDiscreet ring) (announce region res)
unfolding announce
announce-Safe ring region res = record { at = λ w r e h. ground arith }

steps-IsDiscreet : (ring : String) → IsKept (Carries ring) (IsDiscreet ring)
unfolding expose
steps-IsDiscreet ring = record {
  routes = route_as-Safe ring;
  stale = drop_stale-Safe ring;
  paths = path_as-Safe ring;
  repositions = reposition_as-Safe ring;
  fortifies = fortify_as-Safe ring;
  abilities = maia_as-Safe ring;
  advances = advance_one-Safe ring;
  ring_advances = advance_ring-Safe ring;
  announces = announce-Safe ring;
  damages = damage_defender-Safe ring;
  captures = capture-Safe ring;
  repels = repel-Safe ring;
  path_ticks = tick_path-Safe ring;
  region_ticks = tick_region-Safe ring;
  counts = count_unit-Safe ring;
  exposes = λ rb w h. h;
  wins = evaluate_win-Safe ring;
  closes = close_turn-Safe ring;
  detections = λ turn d. ground arith;
  unit_flags = λ turn pid id. ground arith;
  ring_flags = λ turn pid id. ground arith;
}

-- Of all the events that a turn reports, those for the light side alone report a move of the ring
-- bearer or a compromised route. No other event fills in the field of the ring bearer's true region,
-- reports its move, or moves the unit that bears the ring.
-- (A detection, which is for the dark side, has the region where the ring bearer was found as its
-- region id.)
pub process_turn-IsDiscreet :
    (sch : Schedule) (orders : List Order) (w : World) (r : World × List Event)
    → process_turn sch orders w ≡ some r
    → All (IsDiscreet w.ring_id) r.1
process_turn-IsDiscreet sch orders w r e =
    ((process_turn-Safe (steps-IsDiscreet w.ring_id) sch orders).at w r e refl).1
