-- ===== src/Game/Turn/Keys.antt =====
-- What a turn (option-b/internal/game/turn.go) leaves as it is: the configuration, the number of the
-- turn, the keys of the maps.
use lotr_kafka_strategy_game.Prelude.{
  ℕ, String, ◌≡◌, refl, Bool, true, false, List, some, arith, Has,
}
use lotr_kafka_strategy_game.Prelude.Steps.Rules.{Safe, Safe-done}
use lotr_kafka_strategy_game.Config.{Config}
use lotr_kafka_strategy_game.Game.State.{World}
use lotr_kafka_strategy_game.Game.Order.{
  Order, OrderType, Event, block_path, reinforce_region, deploy_nazgul, fortify_region,
}
use lotr_kafka_strategy_game.Game.Order
use lotr_kafka_strategy_game.Game.Combat.{CombatResult}
use lotr_kafka_strategy_game.Game.Detection.{expose}
use lotr_kafka_strategy_game.Game.Turn.Blocks.{Blocking, route_as, drop_stale, path_as}
use lotr_kafka_strategy_game.Game.Turn.Moves.{
  reposition, reposition_as, fortify_as, maia_as, advance_one, advance_ring,
}
use lotr_kafka_strategy_game.Game.Turn.Battle.{damage_defender, capture, repel, announce}
use lotr_kafka_strategy_game.Game.Turn.Close.{
  tick_path, tick_region, count_unit, finish_game, evaluate_win, close_turn,
}
use lotr_kafka_strategy_game.Game.Turn.Process.{Schedule, process_turn}
use lotr_kafka_strategy_game.Game.Turn.Invariant.{IsKept}
use lotr_kafka_strategy_game.Game.Turn.Invariant.Whole.{process_turn-Safe}

-- The world has the configuration and the turn number; it has the unit and the region where the flags
-- say so.
abbrev pub Stands : Config → ℕ → Bool → Bool → String → String → World → Type 0
Stands cfg turn has_unit has_region unit region w =
    (w.cfg ≡ cfg)
    × (w.turn ≡ turn)
    × (has_unit ≡ true → Has w.units unit)
    × (has_region ≡ true → Has w.regions region)

abbrev AnyEvent : Event → Type 0
AnyEvent ev = Unit

module _ (cfg : Config) (turn : ℕ) (has_unit has_region : Bool) (unit region : String) where
  route_as-Safe :
      (t : OrderType) (o : Order)
      → Safe (Stands cfg turn has_unit has_region unit region) (AnyEvent) (route_as t o)
  unfolding route_as
  route_as-Safe Order.assign_route o = record { at = λ w r e h. ground arith }
  route_as-Safe _ o = record { at = λ w r e h. ground arith }

  drop_stale-Safe :
      (pid : String)
      → Safe (Stands cfg turn has_unit has_region unit region) (AnyEvent) (drop_stale pid)
  unfolding drop_stale
  drop_stale-Safe pid = record { at = λ w r e h. ground arith }

  path_as-Safe :
      (t : OrderType) (o : Order)
      → Safe
          (λ (b : Blocking). Stands cfg turn has_unit has_region unit region b.world)
          (AnyEvent)
          (path_as t o)
  unfolding path_as
  path_as-Safe block_path o = record { at = λ b r e h. ground arith }
  path_as-Safe _ o = record { at = λ b r e h. ground arith }

  reposition-Safe :
      (id target : String)
      → Safe (Stands cfg turn has_unit has_region unit region) (AnyEvent) (reposition id target)
  unfolding reposition
  reposition-Safe id target = record { at = λ w r e h. ground arith }

  reposition_as-Safe :
      (t : OrderType) (o : Order)
      → Safe (Stands cfg turn has_unit has_region unit region) (AnyEvent) (reposition_as t o)
  unfolding reposition_as
  reposition_as-Safe reinforce_region o = reposition-Safe o.unit_id o.target_region
  reposition_as-Safe deploy_nazgul o = reposition-Safe o.unit_id o.target_region
  reposition_as-Safe _ o = Safe-done

  fortify_as-Safe :
      (t : OrderType) (o : Order)
      → Safe (Stands cfg turn has_unit has_region unit region) (AnyEvent) (fortify_as t o)
  unfolding fortify_as
  fortify_as-Safe fortify_region o = record { at = λ w r e h. ground arith }
  fortify_as-Safe _ o = Safe-done

  maia_as-Safe :
      (t : OrderType) (o : Order)
      → Safe (Stands cfg turn has_unit has_region unit region) (AnyEvent) (maia_as t o)
  unfolding maia_as
  maia_as-Safe Order.maia_ability o = record { at = λ w r e h. ground arith }
  maia_as-Safe _ o = Safe-done

  advance_one-cfg :
      (compromised : List String) (id : String)
      → Safe (λ w. (w.cfg ≡ cfg) × (w.turn ≡ turn)) AnyEvent (advance_one compromised id)
  unfolding advance_one
  advance_one-cfg compromised id = record { at = λ w r e h. ground arith }

  advance_one-units :
      (compromised : List String) (id : String)
      → Safe (λ w. has_unit ≡ true → Has w.units unit) AnyEvent (advance_one compromised id)
  unfolding advance_one
  advance_one-units compromised id = record { at = λ w r e h. ground arith }

  advance_one-regions :
      (compromised : List String) (id : String)
      → Safe (λ w. has_region ≡ true → Has w.regions region) AnyEvent (advance_one compromised id)
  unfolding advance_one
  advance_one-regions compromised id = record { at = λ w r e h. ground arith }

  advance_one-Safe :
      (compromised : List String) (id : String)
      → Safe (Stands cfg turn has_unit has_region unit region) AnyEvent (advance_one compromised id)
  advance_one-Safe compromised id = record {
    at = λ w r e (c, t, u, g).
        let ((c', t'), quiet) = (advance_one-cfg compromised id).at w r e (c, t) in
        (
          (
            c',
            t',
            ((advance_one-units compromised id).at w r e u).0,
            ((advance_one-regions compromised id).at w r e g).0,
          ),
          quiet,
        );
  }

  advance_ring-Safe :
      Safe (Stands cfg turn has_unit has_region unit region) (AnyEvent) (advance_ring)
  unfolding advance_ring
  advance_ring-Safe = record { at = λ w r e h. ground arith }

  announce-Safe :
      (rid : String) (res : CombatResult)
      → Safe (Stands cfg turn has_unit has_region unit region) (AnyEvent) (announce rid res)
  unfolding announce
  announce-Safe rid res = record { at = λ w r e h. ground arith }

  damage_defender-Safe :
      (rid : String) (damage : ℕ) (id : String)
      → Safe
          (Stands cfg turn has_unit has_region unit region)
          (AnyEvent)
          (damage_defender rid damage id)
  unfolding damage_defender
  damage_defender-Safe rid damage id = record { at = λ w r e h. ground arith }

  capture-Safe :
      (rid side : String)
      → Safe (Stands cfg turn has_unit has_region unit region) (AnyEvent) (capture rid side)
  unfolding capture
  capture-Safe rid side = record { at = λ w r e h. ground arith }

  repel-Safe :
      (o : Order) → Safe (Stands cfg turn has_unit has_region unit region) (AnyEvent) (repel o)
  unfolding repel
  repel-Safe o = record { at = λ w r e h. ground arith }

  tick_path-Safe :
      (pid : String)
      → Safe (Stands cfg turn has_unit has_region unit region) (AnyEvent) (tick_path pid)
  unfolding tick_path
  tick_path-Safe pid = record { at = λ w r e h. ground arith }

  tick_region-Safe :
      (rid : String)
      → Safe (Stands cfg turn has_unit has_region unit region) (AnyEvent) (tick_region rid)
  unfolding tick_region
  tick_region-Safe rid = record { at = λ w r e h. ground arith }

  count_unit-Safe :
      (id : String)
      → Safe (Stands cfg turn has_unit has_region unit region) (AnyEvent) (count_unit id)
  unfolding count_unit
  count_unit-Safe id = record { at = λ w r e h. ground arith }

  evaluate_win-Safe :
      (shadow_ids nazgul_ids : List String) (orders : List Order)
      → Safe
          (Stands cfg turn has_unit has_region unit region)
          (AnyEvent)
          (evaluate_win shadow_ids nazgul_ids orders)
  unfolding evaluate_win finish_game
  evaluate_win-Safe shadow_ids nazgul_ids orders = record { at = λ w r e h. ground arith }

  close_turn-Safe : Safe (Stands cfg turn has_unit has_region unit region) (AnyEvent) (close_turn)
  unfolding close_turn
  close_turn-Safe = record { at = λ w r e h. ground arith }

  pub standing_steps : IsKept (Stands cfg turn has_unit has_region unit region) (AnyEvent)
  unfolding expose
  standing_steps = record {
    routes = route_as-Safe;
    stale = drop_stale-Safe;
    paths = path_as-Safe;
    repositions = reposition_as-Safe;
    fortifies = fortify_as-Safe;
    abilities = maia_as-Safe;
    advances = advance_one-Safe;
    ring_advances = advance_ring-Safe;
    announces = announce-Safe;
    damages = damage_defender-Safe;
    captures = capture-Safe;
    repels = repel-Safe;
    path_ticks = tick_path-Safe;
    region_ticks = tick_region-Safe;
    counts = count_unit-Safe;
    wins = evaluate_win-Safe;
    closes = close_turn-Safe;
    exposes = λ rb w h. h;
    detections = λ t d. tt;
    unit_flags = λ t p id. tt;
    ring_flags = λ t p id. tt;
  }

-- What a turn keeps: the configuration, the number, and every unit and region under its key.
pub process_turn-cfg :
    (sch : Schedule) (orders : List Order) (w : World) (r : World × List Event)
    → process_turn sch orders w ≡ some r
    → (r.0.cfg ≡ w.cfg) × (r.0.turn ≡ w.turn)
process_turn-cfg sch orders w r e =
    let (c, t, _, _) =
      ((process_turn-Safe (standing_steps w.cfg w.turn false false "" "") sch orders).at w r e
        (refl, refl, λ n. absurd (cc n), λ n. absurd (cc n))).0 in
    (c, t)

pub process_turn-units :
    (sch : Schedule) (orders : List Order) (w : World) (r : World × List Event) (unit : String)
    → process_turn sch orders w ≡ some r
    → Has w.units unit
    → Has r.0.units unit
process_turn-units sch orders w r unit e h =
    let (_, _, u, _) =
      ((process_turn-Safe (standing_steps w.cfg w.turn true false unit "") sch orders).at w r e
        (refl, refl, λ _. h, λ n. absurd (cc n))).0 in
    u refl

pub process_turn-regions :
    (sch : Schedule) (orders : List Order) (w : World) (r : World × List Event) (region : String)
    → process_turn sch orders w ≡ some r
    → Has w.regions region
    → Has r.0.regions region
process_turn-regions sch orders w r region e h =
    let (_, _, _, g) =
      ((process_turn-Safe (standing_steps w.cfg w.turn false true "" region) sch orders).at w r e
        (refl, refl, λ n. absurd (cc n), λ _. h)).0 in
    g refl
