-- ===== src/Game/Turn/Secrecy.antt =====
-- What the events of a turn (option-b/internal/game/turn.go) tell the dark side.
pub mod Whole
use lotr_kafka_strategy_game.Prelude.{
  ℕ, String, ◌≡◌, ◌≢◌, refl, ◌⊎◌, inl, inr, Bool, true, false, List, [], ◌∷◌, some, arith, eq_iff,
  All, map,
}
use lotr_kafka_strategy_game.Prelude.Steps.{Step, done, each, ◌>>◌}
use lotr_kafka_strategy_game.Prelude.Steps.Rules.{Safe, Safe-done, Safe->>, Safe-if, Safe-each}
use lotr_kafka_strategy_game.Game.State.{World}
use lotr_kafka_strategy_game.Game.Order.{
  Order, OrderType, Event, ring_bearer_moved, unit_moved, route_compromised, aud_light, block_path,
  reinforce_region, deploy_nazgul, fortify_region,
}
use lotr_kafka_strategy_game.Game.Order
use lotr_kafka_strategy_game.Game.Turn.Blocks.{Blocking, route_as, drop_stale, path_as}
use lotr_kafka_strategy_game.Game.Turn.Moves.{
  reposition, reposition_as, fortify_as, maia_as, advance_one, advance_ring,
}
use lotr_kafka_strategy_game.Game.Turn.Battle.{damage_defender, capture, repel}
use lotr_kafka_strategy_game.Game.Turn.Close.{
  tick_path, tick_region, count_unit, finish_game, evaluate_win, close_turn,
}

-- An event is for the light side alone and reports a move of the ring bearer or a compromised route,
-- or it has no true region, is no move of the ring bearer,
-- and is no move of the unit `ring`.
abbrev pub IsDiscreet : String → Event → Type 0
IsDiscreet ring ev =
    (ev.audience ≡ aud_light) × ((ev.type ≡ ring_bearer_moved) ⊎ (ev.type ≡ route_compromised))
    ⊎ (ev.true_region ≡ "")
      × (ev.type ≢ ring_bearer_moved)
      × ((ev.type ≢ unit_moved) ⊎ (ev.unit_id ≢ ring))

abbrev pub Carries : String → World → Type 0
Carries ring w = w.ring_id ≡ ring

abbrev pub CarriesBlocking : String → Blocking → Type 0
CarriesBlocking ring b = Carries ring b.world

module _ (ring : String) where
  pub route_as-Safe :
      (t : OrderType) (o : Order) → Safe (Carries ring) (IsDiscreet ring) (route_as t o)
  unfolding route_as
  route_as-Safe Order.assign_route o = record { at = λ w r e h. ground arith }
  route_as-Safe _ o = record { at = λ w r e h. ground arith }

  pub drop_stale-Safe : (pid : String) → Safe (Carries ring) (IsDiscreet ring) (drop_stale pid)
  unfolding drop_stale
  drop_stale-Safe pid = record { at = λ w r e h. ground arith }

  pub path_as-Safe :
      (t : OrderType) (o : Order) → Safe (CarriesBlocking ring) (IsDiscreet ring) (path_as t o)
  unfolding path_as
  path_as-Safe block_path o = record { at = λ b r e h. ground arith }
  path_as-Safe _ o = record { at = λ b r e h. ground arith }

  pub reposition-Safe :
      (id target : String) → Safe (Carries ring) (IsDiscreet ring) (reposition id target)
  unfolding reposition
  reposition-Safe id target = record { at = λ w r e h. ground arith }

  pub reposition_as-Safe :
      (t : OrderType) (o : Order) → Safe (Carries ring) (IsDiscreet ring) (reposition_as t o)
  unfolding reposition_as
  reposition_as-Safe reinforce_region o = reposition-Safe o.unit_id o.target_region
  reposition_as-Safe deploy_nazgul o = reposition-Safe o.unit_id o.target_region
  reposition_as-Safe _ o = Safe-done

  pub fortify_as-Safe :
      (t : OrderType) (o : Order) → Safe (Carries ring) (IsDiscreet ring) (fortify_as t o)
  unfolding fortify_as
  fortify_as-Safe fortify_region o = record { at = λ w r e h. ground arith }
  fortify_as-Safe _ o = Safe-done

  pub maia_as-Safe :
      (t : OrderType) (o : Order) → Safe (Carries ring) (IsDiscreet ring) (maia_as t o)
  unfolding maia_as
  maia_as-Safe Order.maia_ability o = record { at = λ w r e h. ground arith }
  maia_as-Safe _ o = Safe-done

  pub advance_one-Safe :
      (compromised : List String) (id : String)
      → Safe (Carries ring) (IsDiscreet ring) (advance_one compromised id)
  unfolding advance_one
  advance_one-Safe compromised id = record { at = λ w r e h. ground (arith, eq_iff id ring) }

  pub advance_ring-Safe : Safe (Carries ring) (IsDiscreet ring) advance_ring
  unfolding advance_ring
  advance_ring-Safe = record { at = λ w r e h. ground arith }

  pub tick_path-Safe : (pid : String) → Safe (Carries ring) (IsDiscreet ring) (tick_path pid)
  unfolding tick_path
  tick_path-Safe pid = record { at = λ w r e h. ground arith }

  pub tick_region-Safe : (rid : String) → Safe (Carries ring) (IsDiscreet ring) (tick_region rid)
  unfolding tick_region
  tick_region-Safe rid = record { at = λ w r e h. ground arith }

  pub count_unit-Safe : (id : String) → Safe (Carries ring) (IsDiscreet ring) (count_unit id)
  unfolding count_unit
  count_unit-Safe id = record { at = λ w r e h. ground arith }

  pub evaluate_win-Safe :
      (shadow_ids nazgul_ids : List String) (orders : List Order)
      → Safe (Carries ring) (IsDiscreet ring) (evaluate_win shadow_ids nazgul_ids orders)
  unfolding evaluate_win finish_game
  evaluate_win-Safe shadow_ids nazgul_ids orders = record { at = λ w r e h. ground arith }

  pub close_turn-Safe : Safe (Carries ring) (IsDiscreet ring) close_turn
  unfolding close_turn
  close_turn-Safe = record { at = λ w r e h. ground arith }

  pub damage_defender-Safe :
      (region : String) (damage : ℕ) (id : String)
      → Safe (Carries ring) (IsDiscreet ring) (damage_defender region damage id)
  unfolding damage_defender
  damage_defender-Safe region damage id = record { at = λ w r e h. ground arith }

  pub capture-Safe :
      (region side : String) → Safe (Carries ring) (IsDiscreet ring) (capture region side)
  unfolding capture
  capture-Safe region side = record { at = λ w r e h. ground arith }

  pub repel-Safe : (o : Order) → Safe (Carries ring) (IsDiscreet ring) (repel o)
  unfolding repel
  repel-Safe o = record { at = λ w r e h. ground arith }
