-- ===== src/Game/Turn/Surveillance.antt =====
-- The surveillance of a path over a turn (option-b/internal/game/turn.go).
use lotr_kafka_strategy_game.Prelude.{ℕ, String, ◌≡◌, ◌≤◌, List, none, some, arith, eq_iff}
use lotr_kafka_strategy_game.Prelude.Steps.Rules.{Safe, Safe-done}
use lotr_kafka_strategy_game.Game.State.{World}
use lotr_kafka_strategy_game.Game.Order.{
  Order, OrderType, Event, block_path, reinforce_region, deploy_nazgul, fortify_region,
}
use lotr_kafka_strategy_game.Game.Order
use lotr_kafka_strategy_game.Game.Combat.{CombatResult}
use lotr_kafka_strategy_game.Game.Detection.{expose}
use lotr_kafka_strategy_game.Game.Turn.Blocks.{Blocking, route_as, drop_stale, path_as}
use lotr_kafka_strategy_game.Game.Turn.Moves.{
  reposition, reposition_as, fortify_as, maia_as, advance_one, advance_ring,
}
use lotr_kafka_strategy_game.Game.Turn.Battle.{damage_defender, capture, repel, announce}
use lotr_kafka_strategy_game.Game.Turn.Close.{
  tick_path, tick_region, count_unit, finish_game, evaluate_win, close_turn,
}
use lotr_kafka_strategy_game.Game.Turn.Process.{Schedule, process_turn}
use lotr_kafka_strategy_game.Game.Turn.Invariant.{IsKept}
use lotr_kafka_strategy_game.Game.Turn.Invariant.Whole.{process_turn-Safe}

-- The surveillance level of a path, 0 for a path that is not there.
abbrev pub surveillance_of : World → String → ℕ
surveillance_of w path = elim (w.paths path) [ none ↦ 0 | some p ↦ p.surveillance_level ]

abbrev Watched : String → ℕ → World → Type 0
Watched path n w = n ≤ surveillance_of w path

abbrev AnyEvent : Event → Type 0
AnyEvent ev = Unit

module _ (path : String) (n : ℕ) (low : n ≤ 3) where
  route_as-Safe : (t : OrderType) (o : Order) → Safe (Watched path n) (AnyEvent) (route_as t o)
  unfolding route_as
  route_as-Safe Order.assign_route o = record { at = λ w r e h. ground arith }
  route_as-Safe _ o = record { at = λ w r e h. ground arith }

  drop_stale-Safe : (pid : String) → Safe (Watched path n) (AnyEvent) (drop_stale pid)
  unfolding drop_stale
  drop_stale-Safe pid = record { at = λ w r e h. ground (arith, eq_iff pid path) }

  path_as-Safe :
      (t : OrderType) (o : Order)
      → Safe (λ (b : Blocking). Watched path n b.world) (AnyEvent) (path_as t o)
  unfolding path_as
  path_as-Safe block_path o = record { at = λ b r e h. ground (arith, eq_iff o.path_id path) }
  path_as-Safe _ o = record { at = λ b r e h. ground (arith, eq_iff o.path_id path) }

  reposition-Safe : (id target : String) → Safe (Watched path n) (AnyEvent) (reposition id target)
  unfolding reposition
  reposition-Safe id target = record { at = λ w r e h. ground arith }

  reposition_as-Safe :
      (t : OrderType) (o : Order) → Safe (Watched path n) (AnyEvent) (reposition_as t o)
  unfolding reposition_as
  reposition_as-Safe reinforce_region o = reposition-Safe o.unit_id o.target_region
  reposition_as-Safe deploy_nazgul o = reposition-Safe o.unit_id o.target_region
  reposition_as-Safe _ o = Safe-done

  fortify_as-Safe : (t : OrderType) (o : Order) → Safe (Watched path n) (AnyEvent) (fortify_as t o)
  unfolding fortify_as
  fortify_as-Safe fortify_region o = record { at = λ w r e h. ground arith }
  fortify_as-Safe _ o = Safe-done

  maia_as-Safe : (t : OrderType) (o : Order) → Safe (Watched path n) (AnyEvent) (maia_as t o)
  unfolding maia_as
  maia_as-Safe Order.maia_ability o = record {
    at = λ w r e h. ground (arith, eq_iff o.target_path_id path);
  }
  maia_as-Safe _ o = Safe-done

  advance_one-Safe :
      (compromised : List String) (id : String)
      → Safe (Watched path n) (AnyEvent) (advance_one compromised id)
  unfolding advance_one
  advance_one-Safe compromised id = record { at = λ w r e h. ground arith }

  advance_ring-Safe : Safe (Watched path n) (AnyEvent) (advance_ring)
  unfolding advance_ring
  advance_ring-Safe = record { at = λ w r e h. ground arith }

  announce-Safe :
      (rid : String) (res : CombatResult) → Safe (Watched path n) (AnyEvent) (announce rid res)
  unfolding announce
  announce-Safe rid res = record { at = λ w r e h. ground arith }

  damage_defender-Safe :
      (rid : String) (damage : ℕ) (id : String)
      → Safe (Watched path n) (AnyEvent) (damage_defender rid damage id)
  unfolding damage_defender
  damage_defender-Safe rid damage id = record { at = λ w r e h. ground arith }

  capture-Safe : (rid side : String) → Safe (Watched path n) (AnyEvent) (capture rid side)
  unfolding capture
  capture-Safe rid side = record { at = λ w r e h. ground arith }

  repel-Safe : (o : Order) → Safe (Watched path n) (AnyEvent) (repel o)
  unfolding repel
  repel-Safe o = record { at = λ w r e h. ground arith }

  tick_path-Safe : (pid : String) → Safe (Watched path n) (AnyEvent) (tick_path pid)
  unfolding tick_path
  tick_path-Safe pid = record { at = λ w r e h. ground (arith, eq_iff pid path) }

  tick_region-Safe : (rid : String) → Safe (Watched path n) (AnyEvent) (tick_region rid)
  unfolding tick_region
  tick_region-Safe rid = record { at = λ w r e h. ground arith }

  count_unit-Safe : (id : String) → Safe (Watched path n) (AnyEvent) (count_unit id)
  unfolding count_unit
  count_unit-Safe id = record { at = λ w r e h. ground arith }

  evaluate_win-Safe :
      (shadow_ids nazgul_ids : List String) (orders : List Order)
      → Safe (Watched path n) (AnyEvent) (evaluate_win shadow_ids nazgul_ids orders)
  unfolding evaluate_win finish_game
  evaluate_win-Safe shadow_ids nazgul_ids orders = record { at = λ w r e h. ground arith }

  close_turn-Safe : Safe (Watched path n) (AnyEvent) (close_turn)
  unfolding close_turn
  close_turn-Safe = record { at = λ w r e h. ground arith }

  pub watching_steps : IsKept (Watched path n) (AnyEvent)
  unfolding expose
  watching_steps = record {
    routes = route_as-Safe;
    stale = drop_stale-Safe;
    paths = path_as-Safe;
    repositions = reposition_as-Safe;
    fortifies = fortify_as-Safe;
    abilities = maia_as-Safe;
    advances = advance_one-Safe;
    ring_advances = advance_ring-Safe;
    announces = announce-Safe;
    damages = damage_defender-Safe;
    captures = capture-Safe;
    repels = repel-Safe;
    path_ticks = tick_path-Safe;
    region_ticks = tick_region-Safe;
    counts = count_unit-Safe;
    wins = evaluate_win-Safe;
    closes = close_turn-Safe;
    exposes = λ rb w h. h;
    detections = λ t d. tt;
    unit_flags = λ t p id. tt;
    ring_flags = λ t p id. tt;
  }

-- A turn never lowers the surveillance level of a path, up to the maximum of 3.
pub surveillance_monotone :
    (sch : Schedule) (orders : List Order) (w : World) (r : World × List Event) (path : String)
    → surveillance_of w path ≤ 3
    → process_turn sch orders w ≡ some r
    → surveillance_of w path ≤ surveillance_of r.0 path
surveillance_monotone sch orders w r path low e =
    ((process_turn-Safe (watching_steps path (surveillance_of w path) low) sch orders).at w r e
      (omega arith)).0
