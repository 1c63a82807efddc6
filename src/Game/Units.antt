-- ===== src/Game/Units.antt =====
-- option-b/internal/game/unit.go: routes, and one step of a unit along its route.
pub mod Placing
use lotr_kafka_strategy_game.Prelude.{
  ◌+◌, String, Bool, true, false, Option, none, some, List, [], ◌∷◌, ◌++◌, ◌==◌, if◌then◌else◌, leb,
  length, get_elem?,
}
use lotr_kafka_strategy_game.Config.{MapPath, path_at}
use lotr_kafka_strategy_game.Game.State.{
  UnitState, World, is_active, is_blocked, is_ring, put_unit, put_region, nonempty,
}

pub data Outcome : Type 0 where
  moved route_blocked route_complete route_rejected : Outcome

pub record Advance : Type 0 where
  pub outcome : Outcome
  pub path_id : String
  pub from : String
  pub to : String

unfoldable pub assign_route : World → String → List String → World × Bool
unfolding is_ring
assign_route w id path_ids =
    if is_ring w id
    then (record w { ring = record w.ring { route = path_ids; route_idx = 0 } }, true)
    else elim (w.units id) [
      | none ↦ (w, false)
      | some u ↦
          if is_active u.status
          then (put_unit w id (record u { route = path_ids; route_idx = 0 }), true)
          else (w, false)
    ]

unfoldable pub other_end : MapPath → String → Option String
other_end p current =
    if current == p.from then some p.to else if current == p.to then some p.from else none

unfoldable pub remove_str : List String → String → List String
remove_str [] v = []
remove_str (x ∷ xs) v = if x == v then xs else x ∷ remove_str xs v

-- The first half of `placeUnit`: `none` is the nil dereference of the unit's old region.
unfoldable pub leave_region : World → UnitState → Option World
unfolding remove_str
leave_region w u = if u.region == "" then some w else elim (w.regions u.region) [
  | none ↦ none
  | some rs ↦ some (put_region w u.region (record rs { units = remove_str rs.units u.id }))
]

-- The second half, for the unit `u` that stands under the key `id`.
unfoldable pub enter_region : World → String → UnitState → String → Option World
enter_region w id u to = elim (w.regions to) [
  | none ↦ none
  | some rs ↦ some (
      put_unit (put_region w to (record rs { units = rs.units ++ u.id ∷ [] })) id
        (record u { region = to }))
]

unfoldable pub place_unit : World → String → UnitState → String → Option World
unfolding leave_region enter_region
place_unit w id u to = elim (leave_region w u) [ none ↦ none | some w' ↦ enter_region w' id u to ]

abbrev pub rejected : String → Advance
rejected pid = record { outcome = route_rejected; path_id = pid; from = ""; to = "" }

-- The step across the path `pid`, once it is known to be there and not blocked.
unfoldable pub cross : World → String → UnitState → String → Option (Advance × World)
unfolding other_end place_unit
cross w id u pid = elim (other_end (path_at w.cfg pid) u.region) [
  | none ↦ some (rejected pid, w)
  | some to ↦ elim (place_unit w id u to) [
    | none ↦ none
    | some w' ↦ some (
      record {
        outcome = if leb (length u.route) (u.route_idx + 1) then route_complete else moved;
        path_id = pid;
        from = u.region;
        to = to;
      },
      put_unit w' id (record u { region = to; route_idx = u.route_idx + 1 }),
    )
  ]
]

-- The tests of `advanceUnit` on the route of an active unit, in their order.
unfoldable pub advance_along : World → String → UnitState → Option (Advance × World)
unfolding cross
advance_along w id u =
    if nonempty u.route
    then elim (get_elem? u.route u.route_idx) [
      | none ↦ some (record (rejected "") { outcome = route_complete }, w)
      | some pid ↦ elim (w.paths pid) [
        | none ↦ some (rejected pid, w)
        | some ps ↦
            if is_blocked ps.status
            then some (record (rejected pid) { outcome = route_blocked; from = u.region }, w)
            else cross w id u pid
      ]
    ]
    else some (rejected "", w)

unfoldable pub advance_unit : World → String → Option (Advance × World)
unfolding advance_along
advance_unit w id = elim (w.units id) [
  | none ↦ some (rejected "", w)
  | some u ↦ if is_active u.status then advance_along w id u else some (rejected "", w)
]
