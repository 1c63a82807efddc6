-- ===== src/Game/Turn/Invariant/Whole.antt =====
-- A whole turn (option-b/internal/game/turn.go) from its smallest steps.
use lotr_kafka_strategy_game.Prelude.{String, inl, inr, false, Option-cases, List, []}
use lotr_kafka_strategy_game.Prelude.Steps.{each}
use lotr_kafka_strategy_game.Prelude.Steps.Rules.{Safe, Safe-done, Safe->>, Safe-if, Safe-each}
use lotr_kafka_strategy_game.Game.State.{World}
use lotr_kafka_strategy_game.Game.Order.{Order, Event}
use lotr_kafka_strategy_game.Game.Turn.Blocks.{
  Blocking, Compromised, route_order, path_order, flag_paths,
}
use lotr_kafka_strategy_game.Game.Turn.Moves.{reposition_order, fortify_order, maia_order}
use lotr_kafka_strategy_game.Game.Turn.Process.{
  Schedule, emit, advance_all, act, close, after_blocks, with_blocks, process_turn,
}
use lotr_kafka_strategy_game.Game.Turn.Invariant.{IsKept}
use lotr_kafka_strategy_game.Game.Turn.Blocks.{drop_stale}
use lotr_kafka_strategy_game.Game.Turn.Moves.{advance_one, advance_ring}
use lotr_kafka_strategy_game.Game.Turn.Close.{
  tick_path, tick_region, count_unit, evaluate_win, close_turn,
}
use lotr_kafka_strategy_game.Game.Turn.Invariant.Battles.{battle-Safe}
use lotr_kafka_strategy_game.Game.Turn.Invariant.Reports.{
  detect-Safe, flag_paths-reported, emit-Safe,
}

module _ {P : World → Type 0} {Q : Event → Type 0} (leaf : IsKept P Q) where
  route_order-Safe : (o : Order) → Safe P Q (route_order o)
  unfolding route_order
  route_order-Safe o = leaf.routes o.order_type o

  path_order-Safe : (o : Order) → Safe (λ b. P b.world) Q (path_order o)
  unfolding path_order
  path_order-Safe o = leaf.paths o.order_type o

  reposition_order-Safe : (o : Order) → Safe P Q (reposition_order o)
  unfolding reposition_order
  reposition_order-Safe o = leaf.repositions o.order_type o

  fortify_order-Safe : (o : Order) → Safe P Q (fortify_order o)
  unfolding fortify_order
  fortify_order-Safe o = leaf.fortifies o.order_type o

  maia_order-Safe : (o : Order) → Safe P Q (maia_order o)
  unfolding maia_order
  maia_order-Safe o = leaf.abilities o.order_type o

  drop_stale-Safe : (pid : String) → Safe P Q (drop_stale pid)
  drop_stale-Safe pid = leaf.stale pid

  advance_one-Safe :
      (compromised : List String) (id : String) → Safe P Q (advance_one compromised id)
  advance_one-Safe compromised id = leaf.advances compromised id

  advance_ring-Safe : Safe P Q advance_ring
  advance_ring-Safe = leaf.ring_advances

  tick_path-Safe : (pid : String) → Safe P Q (tick_path pid)
  tick_path-Safe pid = leaf.path_ticks pid

  tick_region-Safe : (rid : String) → Safe P Q (tick_region rid)
  tick_region-Safe rid = leaf.region_ticks rid

  count_unit-Safe : (id : String) → Safe P Q (count_unit id)
  count_unit-Safe id = leaf.counts id

  evaluate_win-Safe :
      (shadow_ids nazgul_ids : List String) (orders : List Order)
      → Safe P Q (evaluate_win shadow_ids nazgul_ids orders)
  evaluate_win-Safe shadow_ids nazgul_ids orders = leaf.wins shadow_ids nazgul_ids orders

  close_turn-Safe : Safe P Q close_turn
  close_turn-Safe = leaf.closes

ruleset turn_rules = (
  Safe-done, Safe->>, Safe-if, Safe-each, route_order-Safe, drop_stale-Safe, reposition_order-Safe,
  fortify_order-Safe, maia_order-Safe, advance_one-Safe, advance_ring-Safe, battle-Safe,
  tick_path-Safe, tick_region-Safe, count_unit-Safe, detect-Safe, evaluate_win-Safe,
  close_turn-Safe,
)

module _ {P : World → Type 0} {Q : Event → Type 0} (leaf : IsKept P Q) where
  act-Safe : (orders : List Order) → Safe P Q (act orders)
  unfolding act
  act-Safe orders = search turn_rules

  advance_all-Safe : (sch : Schedule) (c : Compromised) → Safe P Q (advance_all sch c)
  unfolding advance_all
  advance_all-Safe sch c = search turn_rules

  close-Safe : (sch : Schedule) (orders : List Order) → Safe P Q (close sch orders)
  unfolding close
  close-Safe sch orders = search turn_rules depth 12

  after_blocks-Safe :
      (sch : Schedule) (orders : List Order) (blocked : List String)
      → Safe P Q (after_blocks sch orders blocked)
  unfolding after_blocks
  after_blocks-Safe sch orders blocked = record {
    at = λ w r e h.
        let c =
          flag_paths w sch.compromised_units (sch.newly_blocked blocked)
            (record { units = []; ring = false; events = [] }) in
        let quiet =
          emit-Safe leaf c.events
            (flag_paths-reported leaf w sch.compromised_units (sch.newly_blocked blocked) _ tt) in
        (Safe->> _ (close sch orders)
            (Safe->> _ (advance_all sch c)
              (Safe->> (emit c.events) (act orders) quiet (act-Safe orders))
              (advance_all-Safe sch c))
            (close-Safe sch orders)).at
          w r e h;
  }

  with_blocks-Safe : (sch : Schedule) (orders : List Order) → Safe P Q (with_blocks sch orders)
  unfolding with_blocks
  with_blocks-Safe sch orders = record {
    at = λ w r e h.
        let start : Blocking = record { world = w; newly_blocked = [] } in
        elim (Option-cases (each path_order orders start)) [
          | inl n ↦ absurd (cc (rw (n, with_blocks) at e))
          | inr ((b, ev), q) ↦
              let (hb, quiet) =
                (Safe-each path_order orders (path_order-Safe leaf)).at start (b, ev) q h in
              (Safe->> (emit ev) (after_blocks sch orders b.newly_blocked) (emit-Safe leaf ev quiet)
                  (after_blocks-Safe sch orders b.newly_blocked)).at
                b.world r (rw (q, with_blocks) at e) hb
        ];
  }

  -- A whole turn keeps what its smallest steps keep, and reports what they report.
  pub process_turn-Safe :
      (sch : Schedule) (orders : List Order) → Safe P Q (process_turn sch orders)
  unfolding process_turn
  process_turn-Safe sch orders = search (turn_rules, with_blocks-Safe) depth 8
