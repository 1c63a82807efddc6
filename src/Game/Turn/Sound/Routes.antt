-- ===== src/Game/Turn/Sound/Routes.antt =====
-- Steps 2 and 3 of the turn (option-b/internal/game/turn.go) in a well-formed world.
use lotr_kafka_strategy_game.Prelude.{
  String, refl, inl, inr, Bool-cases, Option-cases, not, List, ◌&&◌, Has_of_some,
}
use lotr_kafka_strategy_game.Prelude.Steps.Rules.{Total}
use lotr_kafka_strategy_game.Game.State.{World, is_active, is_blocked, is_ring}
use lotr_kafka_strategy_game.Game.Order.{
  OrderType, Order, Event, redirect_unit, block_path, search_path, reinforce_region, deploy_nazgul,
  fortify_region,
}
use lotr_kafka_strategy_game.Game.Order
use lotr_kafka_strategy_game.Game.PathMachine.{clear}
use lotr_kafka_strategy_game.Game.Units.{assign_route}
use lotr_kafka_strategy_game.Game.WellFormed.{IsWellFormed, insert_path-IsSound, Stays-IsWellFormed}
use lotr_kafka_strategy_game.Game.Turn.Helpers.{
  blocker_still_holds, at_endpoint, enemy_holds_endpoint,
}
use lotr_kafka_strategy_game.Game.Turn.Blocks.{
  Blocking, route_as, route_order, drop_stale, block_order, path_as, path_order,
}

assign_route-IsWellFormed :
    (w : World) (id : String) (route : List String)
    → IsWellFormed w
    → IsWellFormed (assign_route w id route).0
unfolding assign_route
assign_route-IsWellFormed w id route h = elim (Bool-cases (is_ring w id)) [
  | inl r ↦ rw (r, assign_route) h
  | inr r ↦ elim (Option-cases (w.units id)) [
    | inl n ↦ rw (r, n, assign_route) h
    | inr (u, e) ↦ elim (Bool-cases (is_active u.status)) [
      | inr b ↦ rw (r, e, b, assign_route) h
      | inl b ↦
          rw (r, e, b, assign_route)
            (Stays-IsWellFormed w id u (record u { route = route; route_idx = 0 }) h e
              (refl, inl (refl, refl)))
    ]
  ]
]

route_as-Total : (t : OrderType) (o : Order) → Total IsWellFormed (route_as t o)
unfolding route_as
route_as-Total Order.assign_route o = record {
  at = λ w h. assign_route-IsWellFormed w o.unit_id o.path_ids h;
}
route_as-Total redirect_unit o = record {
  at = λ w h. assign_route-IsWellFormed w o.unit_id o.new_path_ids h;
}
route_as-Total _ o = record { at = λ w h. h }

pub route_order-Total : (o : Order) → Total IsWellFormed (route_order o)
unfolding route_order
route_order-Total o = route_as-Total o.order_type o

pub drop_stale-Total : (pid : String) → Total IsWellFormed (drop_stale pid)
unfolding drop_stale
drop_stale-Total pid = record {
  at = λ w h. elim (Option-cases (w.paths pid)) [
    | inl n ↦ rw (n, drop_stale) h
    | inr (p, e) ↦ elim (Bool-cases (is_blocked p.status && not (blocker_still_holds w p))) [
      | inl b ↦ rw (e, b, drop_stale) (insert_path-IsSound h pid (clear p) (Has_of_some _ e))
      | inr b ↦ rw (e, b, drop_stale) h
    ]
  ];
}

-- The world among the local variables of step 3.
abbrev pub IsBlockingSound : Blocking → Type 0
IsBlockingSound b = IsWellFormed b.world

path_as-Total : (t : OrderType) (o : Order) → Total IsBlockingSound (path_as t o)
unfolding path_as
path_as-Total block_path o = record {
  at = λ b h. elim (Option-cases (b.world.paths o.path_id)) [
    | inl n ↦ rw (n, path_as) h
    | inr (p, e) ↦
        rw (e, path_as)
          (elim (Bool-cases (
            at_endpoint b.world o.unit_id o.path_id
            && not (enemy_holds_endpoint b.world o.unit_id o.path_id))) [
              | inl t ↦ rw (t, block_order) (insert_path-IsSound h o.path_id _ (Has_of_some _ e))
              | inr t ↦ rw (t, block_order) h
            ])
  ];
}
path_as-Total search_path o = record {
  at = λ b h. elim (Option-cases (b.world.paths o.path_id)) [
    | inl n ↦ rw (n, path_as) h
    | inr (p, e) ↦ rw (e, path_as) (insert_path-IsSound h o.path_id _ (Has_of_some _ e))
  ];
}
path_as-Total _ o = record { at = λ b h. h }

pub path_order-Total : (o : Order) → Total IsBlockingSound (path_order o)
unfolding path_order
path_order-Total o = path_as-Total o.order_type o
