-- ===== src/Game/Tests.antt =====
-- Concrete runs of the rules of option-b/internal/game.
use lotr_kafka_strategy_game.Prelude.{
  false, subst, contains, ℕ, ◌<◌, ◌≤◌, String, ◌≡◌, ◌≢◌, refl, ◌↔◌, ◌⊎◌, true, some, none, List, [],
  ◌∷◌, ◌-◌, ◌+◌, ◌*◌, ◌==◌, eq_iff, if◌then◌else◌, arith, All,
}
use lotr_kafka_strategy_game.Prelude.Steps.Rules.{some_eq}
use lotr_kafka_strategy_game.Config.MapGraph.{
  adjacent, build_graph, hop_distance, hops, unreachable,
}
use lotr_kafka_strategy_game.Config.MapGraph.Shortest.{Walk, IsShortest, hop_distance_lem}
use lotr_kafka_strategy_game.Config.MapGraph.Adjacency.{AreJoined, adjacent_iff}
use lotr_kafka_strategy_game.Config.Load.{load, ok}
use lotr_kafka_strategy_game.Config.Integrity.{IsAcceptable, load_iff}
use lotr_kafka_strategy_game.Game.State.{
  World, PathState, UnitState, blocked, active, open_path, new_world,
}
use lotr_kafka_strategy_game.Game.Order.{Event}
use lotr_kafka_strategy_game.Game.PathMachine.{corrupt, passable}
use lotr_kafka_strategy_game.Game.PathMachine.Laws.{
  Op, do_block, do_threat, do_open, do_search, do_corrupt, do_tick, apply, apply_all, IsValid, Edge,
  apply_all-IsValid, corrupt_permanent, apply-Edge, open-tick-tick,
}
use lotr_kafka_strategy_game.Game.Combat.{
  Combatant, attack_ignores_fortress, side_power, resolve_combat, apply_damage,
}
use lotr_kafka_strategy_game.Game.Combat.Formula.{side_power_lem, resolve_combat_lem}
use lotr_kafka_strategy_game.Game.Combat.Damage.{Endures, Falls, apply_damage_lem}
use lotr_kafka_strategy_game.Game.Validate.{ValidationState, lookups, walk_end, validate}
use lotr_kafka_strategy_game.Game.Validate.Walk.{IsWalk, walk_end_iff}
use lotr_kafka_strategy_game.Game.Validate.{wrong_turn, duplicate_order, not_your_unit, player_side}
use lotr_kafka_strategy_game.Game.Validate.Errors.{validate-first}
use lotr_kafka_strategy_game.Game.Validate.Rules.{Accepts, validate_iff}
use lotr_kafka_strategy_game.Game.Detection.{run_detection}
use lotr_kafka_strategy_game.Game.Detection.Hunters.{Reported, Spots, exposed_by, run_detection_lem}
use lotr_kafka_strategy_game.Game.WellFormed.{IsWellFormed}
use lotr_kafka_strategy_game.Game.WellFormed.Start.{load-new_world}
use lotr_kafka_strategy_game.Game.Turn.Process.{process_turn}
use lotr_kafka_strategy_game.Game.Turn.Sound.Whole.{process_turn_returns}
use lotr_kafka_strategy_game.Game.Turn.Secrecy.{IsDiscreet}
use lotr_kafka_strategy_game.Game.Turn.Secrecy.Whole.{process_turn-IsDiscreet}
use lotr_kafka_strategy_game.Game.Turn.Surveillance.{surveillance_of, surveillance_monotone}
use lotr_kafka_strategy_game.Game.Samples.{
  witch_king, elrond, units_file, map_file, config, loaded, plain, start, schedule, order, attack,
}

map-IsAcceptable : IsAcceptable units_file map_file
map-IsAcceptable = ground arith

load_example : load (some units_file) (some map_file) ≡ ok config
load_example =
    (load_iff (some units_file) (some map_file) config).1
      (units_file, map_file, refl, refl, map-IsAcceptable, refl)

load-new_world_example : (w : World) × (new_world config ≡ some w) × IsWellFormed w
load-new_world_example = load-new_world units_file map_file config loaded plain

process_turn_returns_example :
    (r : World × List Event) × (process_turn schedule (order ∷ attack ∷ []) start ≡ some r)
    × IsWellFormed r.0
process_turn_returns_example =
    process_turn_returns schedule (order ∷ attack ∷ []) start
      (load-new_world units_file map_file config loaded plain).2

process_turn-IsDiscreet_example :
    All
      (IsDiscreet start.ring_id)
      (process_turn_returns schedule
        (order ∷ attack ∷ [])
        start
        (load-new_world units_file map_file config loaded plain).2).0.1
process_turn-IsDiscreet_example =
    process_turn-IsDiscreet schedule (order ∷ attack ∷ []) start _
      (process_turn_returns schedule (order ∷ attack ∷ []) start
        (load-new_world units_file map_file config loaded plain).2).1

ford-low : (w : World) → new_world config ≡ some w → surveillance_of w "ford" ≤ 3
unfolding new_world
ford-low w e = subst (λ x. surveillance_of x "ford" ≤ 3) (some_eq e) (omega arith)

surveillance_monotone_example :
    surveillance_of start "ford"
    ≤ surveillance_of
        (process_turn_returns schedule
          (order ∷ attack ∷ [])
          start
          (load-new_world units_file map_file config loaded plain).2).0.0
        "ford"
surveillance_monotone_example =
    surveillance_monotone schedule (order ∷ attack ∷ []) start _ "ford"
      (ford-low start (load-new_world units_file map_file config loaded plain).1)
      (process_turn_returns schedule (order ∷ attack ∷ []) start
        (load-new_world units_file map_file config loaded plain).2).1

abbrev east_road : PathState
east_road = record {
  id = "east-road";
  status = open_path;
  surveillance_level = 0;
  temp_open_turns = 0;
  blocked_by = "";
}

east_road-IsValid : IsValid east_road
east_road-IsValid = ground arith

abbrev king : String
king = "witch-king"

king-named : king ≢ ""
king-named e = absurd (cc ((eq_iff king "").1 e))

abbrev history : List Op
history =
    do_search ∷ do_threat ∷ do_block "witch-king" ∷ do_open ∷ do_tick ∷ do_tick ∷ do_corrupt ∷ []

apply_all-IsValid_example : IsValid (apply_all history east_road)
apply_all-IsValid_example =
    apply_all-IsValid history east_road (tt, (tt, (king-named, (tt, (tt, (tt, (tt, tt)))))))
      east_road-IsValid

corrupt_permanent_example : (apply_all history (corrupt east_road)).surveillance_level ≡ 3
corrupt_permanent_example = corrupt_permanent history east_road

apply-Edge_example : Edge open_path (apply (do_block "witch-king") east_road).status
apply-Edge_example = apply-Edge (do_block "witch-king") east_road east_road-IsValid

abbrev held_road : PathState
held_road = record east_road { status = blocked; blocked_by = "witch-king" }

open-tick-tick_example :
    (passable (apply do_open held_road) ≡ true)
    × (passable (apply do_tick (apply do_open held_road)) ≡ true)
    × (apply do_tick (apply do_tick (apply do_open held_road)) ≡ held_road)
open-tick-tick_example = open-tick-tick held_road refl king-named refl

abbrev raiders : List Combatant
raiders = record { cfg = witch_king; strength = 5 } ∷ record { cfg = elrond; strength = 4 } ∷ []

side_power_lem_example : side_power raiders + 1 ≡ 9 + 2 * 1
side_power_lem_example = side_power_lem raiders

abbrev elves : List Combatant
elves = record { cfg = elrond; strength = 4 } ∷ []

resolve_combat_lem_example :
    let r = resolve_combat raiders elves "FORTRESS" true in
    ((r.attacker_won ≡ true) ↔ (side_power elves + 4 < side_power raiders))
    × (r.damage ≡ side_power raiders - (side_power elves + 4))
unfolding attack_ignores_fortress
resolve_combat_lem_example = resolve_combat_lem raiders elves "FORTRESS" true

abbrev king_state : UnitState
king_state = record {
  id = "witch-king";
  region = "bree";
  strength = 5;
  status = active;
  respawn_turns = 0;
  route = [];
  route_idx = 0;
  cooldown = 0;
}

apply_damage_lem_example :
    let v = apply_damage king_state witch_king 7 in
    Endures king_state witch_king 7 v ⊎ Falls king_state witch_king 7 v
apply_damage_lem_example = apply_damage_lem king_state witch_king 7

abbrev view : ValidationState
view = record {
  turn = 1;
  units = λ id.
      if id == "ring-bearer"
      then some
          (record { side = "FREE_PEOPLES"; region = "shire"; status = some active; cooldown = 0 })
      else none;
  paths = λ pid. some open_path;
  regions = λ r. some "SHADOW";
  seen_units = [];
}

walk_end_iff_example :
    (walk_end (lookups config) "shire" ("east-road" ∷ "ford" ∷ []) ≡ some "rivendell")
    ↔ IsWalk (lookups config) "shire" ("east-road" ∷ "ford" ∷ []) "rivendell"
walk_end_iff_example = walk_end_iff (lookups config) "shire" "rivendell" ("east-road" ∷ "ford" ∷ [])

validate_iff_example :
    (validate order view (lookups config) ≡ none) ↔ Accepts order view (lookups config)
validate_iff_example = validate_iff order view (lookups config)

adjacent_iff_example :
    (adjacent (build_graph map_file.regions map_file.paths) "bree" "shire" ≡ true)
    ↔ AreJoined "bree" "shire" map_file.paths
adjacent_iff_example = adjacent_iff map_file.regions map_file.paths "bree" "shire"

hop_distance_lem_example :
    let g = build_graph map_file.regions map_file.paths in
    ((m : ℕ) × (hop_distance g "shire" "rivendell" ≡ hops m) × IsShortest g "shire" "rivendell" m)
    ⊎ (hop_distance g "shire" "rivendell" ≡ unreachable)
      × ((k : ℕ) → Walk g "shire" k "rivendell" → ⊥)
hop_distance_lem_example = hop_distance_lem map_file.regions map_file.paths "shire" "rivendell"

run_detection_lem_example :
    let late = record start { turn = 5 } in
    let (w', found) = run_detection [] ("witch-king" ∷ []) late in
    Reported (Spots [] late) late ("witch-king" ∷ []) found × (w' ≡ exposed_by found late)
run_detection_lem_example = run_detection_lem [] ("witch-king" ∷ []) (record start { turn = 5 })

validate-first_example :
    ((validate order view (lookups config) ≡ some wrong_turn) ↔ (order.turn ≢ view.turn))
    × ((validate order view (lookups config) ≡ some duplicate_order)
        ↔ ((order.turn ≡ view.turn) × (contains view.seen_units order.unit_id ≡ true)))
    × ((validate order view (lookups config) ≡ some not_your_unit) ↔ (
        (order.turn ≡ view.turn)
        × (contains view.seen_units order.unit_id ≡ false)
        × ((lookups config).unit_side order.unit_id ≢ some (player_side order.player_id))))
validate-first_example = validate-first order view (lookups config)
