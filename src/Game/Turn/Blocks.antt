-- ===== src/Game/Turn/Blocks.antt =====
-- Steps 2 and 3 of `ProcessTurn` in option-b/internal/game/turn.go: routes, blocks and searches, and
-- the routes that a new block compromises.
use lotr_kafka_strategy_game.Prelude.{
  ℕ, String, Bool, true, false, not, none, some, List, [], ◌∷◌, ◌++◌, ◌&&◌, ◌==◌, if◌then◌else◌,
  get_elem?,
}
use lotr_kafka_strategy_game.Prelude.Steps.{Step}
use lotr_kafka_strategy_game.Game.State.{PathState, World, is_active, is_blocked, put_path}
use lotr_kafka_strategy_game.Game.Order.{
  OrderType, Order, Event, event, path_event, route_compromised, aud_all, aud_light, redirect_unit,
  block_path, search_path,
}
use lotr_kafka_strategy_game.Game.Order
use lotr_kafka_strategy_game.Game.PathMachine.{block, clear, search_once}
use lotr_kafka_strategy_game.Game.Units.{assign_route}
use lotr_kafka_strategy_game.Game.Turn.Helpers.{
  at_endpoint, enemy_holds_endpoint, blocker_still_holds,
}

-- A `switch` on the type of an order passes it to a helper by clauses. Step 2, for one order:
unfoldable pub route_as : OrderType → Order → Step World Event
unfolding assign_route
route_as Order.assign_route o w = some ((assign_route w o.unit_id o.path_ids).0, [])
route_as redirect_unit o w = some ((assign_route w o.unit_id o.new_path_ids).0, [])
route_as _ o w = some (w, [])

unfoldable pub route_order : Order → Step World Event
unfolding route_as
route_order o = route_as o.order_type o

-- Step 3, first loop: a block whose holder has left is dropped.
unfoldable pub drop_stale : String → Step World Event
unfolding blocker_still_holds clear path_event
drop_stale pid w = elim (w.paths pid) [
  | none ↦ some (w, [])
  | some p ↦
      if is_blocked p.status && not (blocker_still_holds w p)
      then some (put_path w pid (clear p), path_event w.turn (clear p) ∷ [])
      else some (w, [])
]

-- The world with the local variable `newlyBlocked`.
pub record Blocking : Type 0 where
  pub world : World
  pub newly_blocked : List String

unfoldable pub block_order : Order → PathState → Step Blocking Event
unfolding at_endpoint enemy_holds_endpoint block path_event
block_order o p b =
    if at_endpoint b.world o.unit_id o.path_id
      && not (enemy_holds_endpoint b.world o.unit_id o.path_id)
    then (let p' = block p o.unit_id in
        some (
          record {
            world = put_path b.world o.path_id p';
            newly_blocked =
                if is_blocked p'.status then o.path_id ∷ b.newly_blocked else b.newly_blocked;
          },
          path_event b.world.turn p' ∷ [],
        ))
    else some (b, [])

unfoldable pub search_order : Order → PathState → Step Blocking Event
unfolding search_once path_event
search_order o p b = some (
  record b { world = put_path b.world o.path_id (search_once p) },
  path_event b.world.turn (search_once p) ∷ [],
)

-- Step 3, second loop, for one order.
unfoldable pub path_as : OrderType → Order → Step Blocking Event
unfolding block_order search_order
path_as block_path o b = elim (b.world.paths o.path_id) [
  | none ↦ some (b, [])
  | some p ↦ block_order o p b
]
path_as search_path o b = elim (b.world.paths o.path_id) [
  | none ↦ some (b, [])
  | some p ↦ search_order o p b
]
path_as _ o b = some (b, [])

unfoldable pub path_order : Order → Step Blocking Event
unfolding path_as
path_order o = path_as o.order_type o

-- `idx < len(route) && route[idx] == pid`
unfoldable pub next_is : String → List String → ℕ → Bool
next_is pid route idx = elim (get_elem? route idx) [ none ↦ false | some q ↦ q == pid ]

unfoldable pub compromises : World → String → String → Bool
unfolding next_is
compromises w pid id = elim (w.units id) [
  | none ↦ false
  | some u ↦ is_active u.status && next_is pid u.route u.route_idx
]

-- The local variables `compromised` and `ringCompromised`, and the events of the third loop.
pub record Compromised : Type 0 where
  pub units : List String
  pub ring : Bool
  pub events : List Event

unfoldable pub flag_units : World → String → List String → Compromised → Compromised
unfolding compromises
flag_units w pid [] c = c
flag_units w pid (id ∷ ids) c = flag_units w pid ids (
    if compromises w pid id
    then record c {
      units = id ∷ c.units;
      events =
          c.events
          ++ record (event route_compromised w.turn aud_all) { unit_id = id; path_id = pid } ∷ [];
    }
    else c)

unfoldable pub flag_ring : World → String → Compromised → Compromised
unfolding next_is
flag_ring w pid c =
    if next_is pid w.ring.route w.ring.route_idx
    then record c {
      ring = true;
      events =
          c.events
          ++ record (event route_compromised w.turn aud_light) {
            unit_id = w.ring_id;
            path_id = pid;
          }
            ∷ [];
    }
    else c

-- `ids` gives the order of the range over the units for each path.
unfoldable pub flag_paths : World → (String → List String) → List String → Compromised → Compromised
unfolding flag_units flag_ring
flag_paths w ids [] c = c
flag_paths w ids (pid ∷ pids) c =
    flag_paths w ids pids (flag_ring w pid (flag_units w pid (ids pid) c))
