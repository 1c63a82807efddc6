-- ===== src/Game/Turn/Sound/Whole.antt =====
-- `ProcessTurn` (option-b/internal/game/turn.go) in a well-formed world: all thirteen steps.
use lotr_kafka_strategy_game.Prelude.{String, ◌≡◌, some, List, []}
use lotr_kafka_strategy_game.Prelude.Steps.{each}
use lotr_kafka_strategy_game.Prelude.Steps.Rules.{
  Gives-elim, Total, Total-done, Total->>, Total-if, Total-each,
}
use lotr_kafka_strategy_game.Game.State.{World}
use lotr_kafka_strategy_game.Game.Order.{Order, Event}
use lotr_kafka_strategy_game.Game.WellFormed.{IsWellFormed}
use lotr_kafka_strategy_game.Game.Turn.Blocks.{Blocking, Compromised, path_order}
use lotr_kafka_strategy_game.Game.Turn.Process.{
  Schedule, emit, advance_all, act, close, after_blocks, with_blocks, process_turn,
}
use lotr_kafka_strategy_game.Game.Turn.Sound.Routes.{
  IsBlockingSound, route_order-Total, drop_stale-Total, path_order-Total,
}
use lotr_kafka_strategy_game.Game.Turn.Sound.Actions.{
  reposition_order-Total, fortify_order-Total, maia_order-Total,
}
use lotr_kafka_strategy_game.Game.Turn.Sound.Advances.{advance_one-Total, advance_ring-Total}
use lotr_kafka_strategy_game.Game.Turn.Sound.Battles.{battle-Total}
use lotr_kafka_strategy_game.Game.Turn.Sound.Counters.{
  tick_path-Total, tick_region-Total, count_unit-Total, detect-Total, evaluate_win-Total,
  close_turn-Total,
}

emit-Total : (ev : List Event) → Total IsWellFormed (emit ev)
unfolding emit
emit-Total ev = record { at = λ w h. h }

ruleset step_rules = (
  emit-Total, Total-done, Total->>, Total-if, Total-each, route_order-Total, drop_stale-Total,
  reposition_order-Total, fortify_order-Total, maia_order-Total, advance_one-Total,
  advance_ring-Total, battle-Total, tick_path-Total, tick_region-Total, count_unit-Total,
  detect-Total, evaluate_win-Total, close_turn-Total,
)

act-Total : (orders : List Order) → Total IsWellFormed (act orders)
unfolding act
act-Total orders = search step_rules

advance_all-Total : (sch : Schedule) (c : Compromised) → Total IsWellFormed (advance_all sch c)
unfolding advance_all
advance_all-Total sch c = search step_rules

close-Total : (sch : Schedule) (orders : List Order) → Total IsWellFormed (close sch orders)
unfolding close
close-Total sch orders = search step_rules depth 12

after_blocks-Total :
    (sch : Schedule) (orders : List Order) (blocked : List String)
    → Total IsWellFormed (after_blocks sch orders blocked)
unfolding after_blocks
after_blocks-Total sch orders blocked = record {
  at = λ w h.
      let rest = λ (c : Compromised).
        Total->> _ (close sch orders)
          (Total->> _ (advance_all sch c)
            (Total->> (emit c.events) (act orders) (emit-Total c.events) (act-Total orders))
            (advance_all-Total sch c))
          (close-Total sch orders) in
      (rest _).at w h;
}

with_blocks-Total :
    (sch : Schedule) (orders : List Order) → Total IsWellFormed (with_blocks sch orders)
unfolding with_blocks
with_blocks-Total sch orders = record {
  at = λ w h.
      let start : Blocking = record { world = w; newly_blocked = [] } in
      let ((b, ev), e, hb) =
        Gives-elim (λ r. IsBlockingSound r.0) (each path_order orders start)
          ((Total-each {P = IsBlockingSound} path_order orders path_order-Total).at start h) in
      rw (e, with_blocks)
        ((Total->> (emit ev) (after_blocks sch orders b.newly_blocked) (emit-Total ev)
            (after_blocks-Total sch orders b.newly_blocked)).at
          b.world hb);
}

process_turn-Total :
    (sch : Schedule) (orders : List Order) → Total IsWellFormed (process_turn sch orders)
unfolding process_turn
process_turn-Total sch orders = search (step_rules, with_blocks-Total) depth 8

-- In a well-formed world, whatever the orders and in whatever order the maps are ranged over,
-- `ProcessTurn` returns (no nil is dereferenced), and the world that it leaves is well formed.
pub process_turn_returns :
    (sch : Schedule) (orders : List Order) (w : World)
    → IsWellFormed w
    → (r : World × List Event) × (process_turn sch orders w ≡ some r) × IsWellFormed r.0
process_turn_returns sch orders w h =
    Gives-elim (λ r. IsWellFormed r.0) (process_turn sch orders w)
      ((process_turn-Total sch orders).at w h)
