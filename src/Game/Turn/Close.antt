-- ===== src/Game/Turn/Close.antt =====
-- Steps 9 to 13 of `ProcessTurn` in option-b/internal/game/turn.go: timers, respawns, detection and
-- the end of the game.
use lotr_kafka_strategy_game.Prelude.{
  ◌-◌, String, Bool, true, false, not, Option, none, some, List, [], ◌∷◌, ◌&&◌, ◌==◌, if◌then◌else◌,
  ltb, leb, map, ℕ,
}
use lotr_kafka_strategy_game.Prelude.Steps.{Step}
use lotr_kafka_strategy_game.Config.{unit_at}
use lotr_kafka_strategy_game.Game.State.{
  active, respawning, Status, open_path, threatened, blocked, temp_open, PathStatus, UnitState,
  World, put_unit, put_region, put_path, side_free, side_shadow,
}
use lotr_kafka_strategy_game.Game.Order.{
  OrderType, destroy_ring, Order, Event, event, path_event, game_over_event, ring_bearer_detected,
  world_state_snapshot, aud_all, aud_dark,
}
use lotr_kafka_strategy_game.Game.PathMachine.{tick_temp_open}
use lotr_kafka_strategy_game.Game.Units.{place_unit}
use lotr_kafka_strategy_game.Game.Detection.{Detection, run_detection}
use lotr_kafka_strategy_game.Game.Turn.Helpers.{shadow_present, nazgul_present}

abbrev pub same_status : PathStatus → PathStatus → Bool
same_status open_path open_path = true
same_status threatened threatened = true
same_status blocked blocked = true
same_status temp_open temp_open = true
same_status _ _ = false

-- Step 9, for one path.
unfoldable pub tick_path : String → Step World Event
unfolding tick_temp_open path_event
tick_path pid w = elim (w.paths pid) [
  | none ↦ some (w, [])
  | some p ↦
      let p' = tick_temp_open p in
      some (
        put_path w pid p',
        if same_status p'.status p.status then [] else path_event w.turn p' ∷ [],
      )
]

-- Step 10, for one region. The decremented counter is only tested for `<= 0`, where it is then reset
-- to 0: a result below 0 and 0 are alike.
unfoldable pub tick_region : String → Step World Event
tick_region rid w = elim (w.regions rid) [
  | none ↦ some (w, [])
  | some r ↦
      if r.fortified
      then some (
        put_region w rid (
            if leb (r.fortify_turns - 1) 0
            then record r { fortified = false; fortify_turns = 0 }
            else record r { fortify_turns = r.fortify_turns - 1 }),
        [],
      )
      else some (w, [])
]

-- The unit that comes back to the map.
abbrev pub revived : World → String → UnitState → UnitState
revived w id u = record u {
  status = active;
  strength = (unit_at w.cfg id).strength;
  respawn_turns = 0;
}

-- Step 11, first half: the respawn counter of one unit, and its return; a counter below 0 and one at
-- 0 are alike here too.
unfoldable pub respawn_as : Status → String → UnitState → World → Option World
unfolding place_unit
respawn_as respawning id u w =
    if leb (u.respawn_turns - 1) 0
    then place_unit w id (revived w id u) (unit_at w.cfg id).start_region
    else some (put_unit w id (record u { respawn_turns = u.respawn_turns - 1 }))
respawn_as _ id u w = some w

unfoldable pub count_respawn : String → UnitState → World → Option World
unfolding respawn_as
count_respawn id u w = respawn_as u.status id u w

-- Step 11, second half.
unfoldable pub count_cooldown : String → World → World
count_cooldown id w = elim (w.units id) [
  | none ↦ w
  | some u ↦ if ltb 0 u.cooldown then put_unit w id (record u { cooldown = u.cooldown - 1 }) else w
]

unfoldable pub count_unit : String → Step World Event
unfolding count_respawn count_cooldown
count_unit id w = elim (w.units id) [
  | none ↦ some (w, [])
  | some u ↦ elim (count_respawn id u w) [ none ↦ none | some w' ↦ some (count_cooldown id w', []) ]
]

abbrev pub detection_event : ℕ → Detection → Event
detection_event turn d = record (event ring_bearer_detected turn aud_dark) {
  unit_id = d.unit_id;
  region_id = d.region;
}

-- Step 12.
unfoldable pub detect : List String → List String → Step World Event
unfolding run_detection
detect eye_ids ids w =
    let (w', found) = run_detection eye_ids ids w in some (w', map (detection_event w.turn) found)

unfoldable pub finish_game : String → String → Step World Event
finish_game winner cause w = some (
  record w { game_over = true; winner = winner },
  record (event game_over_event w.turn aud_all) { winner = winner; cause = cause } ∷ [],
)

abbrev pub is_destroy : OrderType → Bool
is_destroy destroy_ring = true
is_destroy _ = false

unfoldable pub any_destroy : List Order → Bool
any_destroy [] = false
any_destroy (o ∷ os) = if is_destroy o.order_type then true else any_destroy os

-- `evaluateWin`; the two lists give the orders of the ranges over the units.
unfoldable pub evaluate_win : List String → List String → List Order → Step World Event
unfolding any_destroy finish_game shadow_present nazgul_present
evaluate_win shadow_ids nazgul_ids orders w =
    if w.ring.true_region == w.mount_doom_id
      && (any_destroy orders && not (shadow_present shadow_ids w w.mount_doom_id))
    then finish_game side_free "RING_DESTROYED" w
    else if nazgul_present nazgul_ids w w.ring.true_region && w.ring.exposed
    then finish_game side_shadow "RING_CAPTURED" w
    else if leb w.cfg.max_turns w.turn
    then finish_game "DRAW" "TURN_LIMIT" w
    else some (w, [])

-- The snapshot marker and the reset of the flag.
unfoldable pub close_turn : Step World Event
close_turn w = some (
  record w { ring = record w.ring { exposed = false } },
  event world_state_snapshot w.turn aud_all ∷ [],
)
