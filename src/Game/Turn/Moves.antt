-- ===== src/Game/Turn/Moves.antt =====
-- Steps 4 to 7 of `ProcessTurn` in option-b/internal/game/turn.go: reinforcement, fortification, Maia
-- abilities, and the advance of every unit and of the ring bearer along their routes.
use lotr_kafka_strategy_game.Prelude.{
  ◌+◌, String, true, not, none, some, List, [], ◌∷◌, ◌&&◌, ◌||◌, ◌==◌, if◌then◌else◌, ltb, leb,
  get_elem?, contains,
}
use lotr_kafka_strategy_game.Prelude.Steps.{Step, done}
use lotr_kafka_strategy_game.Config.{unit_at, path_at}
use lotr_kafka_strategy_game.Game.State.{
  UnitState, PathState, World, is_active, is_blocked, is_ring, nonempty, put_unit, put_region,
  put_path,
}
use lotr_kafka_strategy_game.Game.Order.{
  OrderType, Order, Event, event, path_event, unit_moved, path_corrupted, ring_bearer_moved,
  ring_bearer_spotted, aud_all, aud_light, aud_dark, reinforce_region, deploy_nazgul,
  fortify_region,
}
use lotr_kafka_strategy_game.Game.Order
use lotr_kafka_strategy_game.Game.PathMachine.{corrupt, open_temporarily}
use lotr_kafka_strategy_game.Game.Units.{
  Advance, moved, route_complete, other_end, place_unit, advance_unit,
}
use lotr_kafka_strategy_game.Game.Turn.Helpers.{at_endpoint}

-- Step 4, for the unit and the target of one order.
unfoldable pub reposition : String → String → Step World Event
unfolding place_unit
reposition id target w = elim (w.units id) [
  | none ↦ some (w, [])
  | some u ↦
      if is_active u.status
      then elim (w.regions target) [
        | none ↦ some (w, [])
        | some _ ↦ elim (place_unit w id u target) [ none ↦ none | some w' ↦ some (w', []) ]
      ]
      else some (w, [])
]

unfoldable pub reposition_as : OrderType → Order → Step World Event
unfolding reposition
reposition_as reinforce_region o = reposition o.unit_id o.target_region
reposition_as deploy_nazgul o = reposition o.unit_id o.target_region
reposition_as _ o = done

unfoldable pub reposition_order : Order → Step World Event
unfolding reposition_as
reposition_order o = reposition_as o.order_type o

-- Step 5, for the unit of one order; `none` is the nil dereference of a unit with no region.
unfoldable pub fortify : String → Step World Event
fortify id w = elim (w.units id) [
  | none ↦ some (w, [])
  | some u ↦
      if (unit_at w.cfg id).can_fortify && is_active u.status
      then elim (w.regions u.region) [
        | none ↦ none
        | some r ↦
            some (put_region w u.region (record r { fortified = true; fortify_turns = 2 }), [])
      ]
      else some (w, [])
]

unfoldable pub fortify_as : OrderType → Order → Step World Event
unfolding fortify
fortify_as fortify_region o = fortify o.unit_id
fortify_as _ o = done

unfoldable pub fortify_order : Order → Step World Event
unfolding fortify_as
fortify_order o = fortify_as o.order_type o

-- The ability of a maia that lists paths: it corrupts one of them.
unfoldable pub corrupt_path : Order → UnitState → PathState → Step World Event
unfolding corrupt path_event
corrupt_path o u p w =
    let cfg = unit_at w.cfg o.unit_id in
    if w.saruman_disabled || not (contains cfg.maia_ability_paths o.target_path_id)
    then some (w, [])
    else some (
      put_unit (put_path w o.target_path_id (corrupt p)) o.unit_id
          (record u { cooldown = cfg.cooldown }),
      record (event path_corrupted w.turn aud_all) { path_id = p.id }
          ∷ path_event w.turn (corrupt p)
          ∷ [],
    )

-- The ability of a maia that lists none: it opens a blocked path.
unfoldable pub open_path_by : Order → UnitState → PathState → Step World Event
unfolding open_temporarily path_event
open_path_by o u p w =
    let (p', opened) = open_temporarily p in
    if opened
    then some (
      put_unit (put_path w o.target_path_id p') o.unit_id
          (record u { cooldown = (unit_at w.cfg o.unit_id).cooldown }),
      path_event w.turn p' ∷ [],
    )
    else some (w, [])

-- `maiaAbility`
unfoldable pub maia_ability : Order → Step World Event
unfolding at_endpoint corrupt_path open_path_by
maia_ability o w = elim (w.units o.unit_id) [
  | none ↦ some (w, [])
  | some u ↦ elim (w.paths o.target_path_id) [
    | none ↦ some (w, [])
    | some p ↦
        if is_active u.status && at_endpoint w o.unit_id o.target_path_id
        then (if nonempty (unit_at w.cfg o.unit_id).maia_ability_paths
            then corrupt_path o u p w
            else open_path_by o u p w)
        else some (w, [])
  ]
]

unfoldable pub maia_as : OrderType → Order → Step World Event
unfolding maia_ability
maia_as Order.maia_ability o = maia_ability o
maia_as _ o = done

unfoldable pub maia_order : Order → Step World Event
unfolding maia_as
maia_order o = maia_as o.order_type o

-- The event of one advance, if there is one.
unfoldable pub advance_events : World → String → Advance → List Event
advance_events w id a =
    let report = record (event unit_moved w.turn aud_all) {
      unit_id = id;
      from = a.from;
      to = a.to;
      path_id = a.path_id;
    } in
    let arrived : List Event = if a.to == "" then [] else report ∷ [] in
    elim a.outcome [ moved ↦ arrived | route_complete ↦ arrived | _ ↦ [] ]

-- Step 7, for one unit.
unfoldable pub advance_one : List String → String → Step World Event
unfolding advance_unit is_ring advance_events
advance_one compromised id w = elim (w.units id) [
  | none ↦ some (w, [])
  | some u ↦
      if is_ring w id
        || (contains compromised id || (not (is_active u.status) || not (nonempty u.route)))
      then some (w, [])
      else elim (advance_unit w id) [
        | none ↦ none
        | some (a, w') ↦ some (w', advance_events w id a)
      ]
]

-- The ring bearer's step across the path `pid`, which is there and not blocked.
unfoldable pub cross_ring : String → PathState → Step World Event
unfolding other_end
cross_ring pid ps w = elim (other_end (path_at w.cfg pid) w.ring.true_region) [
  | none ↦ some (w, [])
  | some to ↦
      let ring' = record w.ring { true_region = to; route_idx = w.ring.route_idx + 1 } in
      let moved_event = record (event ring_bearer_moved w.turn aud_light) { true_region = to } in
      if leb 1 ps.surveillance_level && ltb w.cfg.hidden_until_turn w.turn
      then some (
        record w { ring = record ring' { exposed = true } },
        moved_event ∷ record (event ring_bearer_spotted w.turn aud_dark) { path_id = pid } ∷ [],
      )
      else some (record w { ring = ring' }, moved_event ∷ [])
]

-- `advanceRing`
unfoldable pub advance_ring : Step World Event
unfolding cross_ring
advance_ring w = elim (get_elem? w.ring.route w.ring.route_idx) [
  | none ↦ some (w, [])
  | some pid ↦ elim (w.paths pid) [
    | none ↦ some (w, [])
    | some ps ↦ if is_blocked ps.status then some (w, []) else cross_ring pid ps w
  ]
]
