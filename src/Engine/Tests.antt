-- ===== src/Engine/Tests.antt =====
-- Concrete runs of option-b/internal/engine.
use lotr_kafka_strategy_game.Prelude.{
  ℕ, String, ◌≡◌, refl, sym, ap, subst, none, some, List, [], ◌∷◌, ◌==◌, true, false, All, Dict,
  if◌then◌else◌,
}
use lotr_kafka_strategy_game.Prelude.Results.{ok, err}
use lotr_kafka_strategy_game.Prelude.Steps.Rules.{Gives, some_eq}
use lotr_kafka_strategy_game.Kafka.Serde.{Avro}
use lotr_kafka_strategy_game.Kafka.Registry.{Latest, Loading, load_schemas}
use lotr_kafka_strategy_game.Game.State.{
  World, new_world, UnitState, RegionState, PathState, active, open_path, side_free,
}
use lotr_kafka_strategy_game.Game.Order.{
  Event, event, unit_moved, ring_bearer_moved, route_compromised, aud_all, aud_light,
}
use lotr_kafka_strategy_game.Game.WellFormed.{IsWellFormed}
use lotr_kafka_strategy_game.Game.WellFormed.Start.{load-new_world}
use lotr_kafka_strategy_game.Game.WellFormed.Complete.{new_world-IsComplete}
use lotr_kafka_strategy_game.Game.Turn.Sound.Whole.{process_turn_returns}
use lotr_kafka_strategy_game.Game.Samples.{
  units_file, map_file, config, loaded, plain, schedule, order, attack, start,
}
use lotr_kafka_strategy_game.Engine.Messages.{schema_subjects, WorldSnapshotMsg, ApiState}
use lotr_kafka_strategy_game.Engine.Publish.{Json, Publication, build_snapshot}
use lotr_kafka_strategy_game.Engine.Publish.Events.{publish_events}
use lotr_kafka_strategy_game.Engine.Publish.Topics.{AllPublished, loaded-publish_events}
use lotr_kafka_strategy_game.Engine.Validation.{Reading, run_validation, first_worker}
use lotr_kafka_strategy_game.Engine.Validation.Duplicates.{
  IsDistinct, validated_units, IsDuring, run_validation-IsDistinct,
}
use lotr_kafka_strategy_game.Engine.Loop.{
  Engine, new_engine, view_of, LeaderMsg, started, validated, advanced, ticked, Ranges, run_leader,
}
use lotr_kafka_strategy_game.Engine.Submit.{submit_raw}
use lotr_kafka_strategy_game.Engine.Loop.Running.{IsFit, IsRunning, IsStartable, run_leader_returns}
use lotr_kafka_strategy_game.Engine.Loop.Pipeline.{submitted_of}
use lotr_kafka_strategy_game.Engine.Recover.{build_recover_state}
use lotr_kafka_strategy_game.Engine.Recover.RoundTrip.{Alike-same, Matches, IsRecovered}
use lotr_kafka_strategy_game.Engine.Hub.Cache.{apply_session, apply_snapshot}
use lotr_kafka_strategy_game.Engine.Hub.Views.{build_state_view, clone_world}
use lotr_kafka_strategy_game.Engine.Hub.Agreement.Snapshot.{apply_snapshot-view}
use lotr_kafka_strategy_game.Engine.Loop.Failover.{failover_returns}
use lotr_kafka_strategy_game.Engine.Leader.{
  GroupMsg, assigns, revokes, returns, coordinate, new_coordinator,
}
use lotr_kafka_strategy_game.Engine.Leader.Sole.{IsSole, coordinate-leads}
use lotr_kafka_strategy_game.Engine.Hub.{SseClient, Hub, Delivery}
use lotr_kafka_strategy_game.Engine.Hub.Messages.{
  HubMsg, registers, unregisters, keeps_alive, asks_state, asks_world, run_hub, consume_all,
}
use lotr_kafka_strategy_game.Engine.Hub.Orderly.{IsOrderly}
use lotr_kafka_strategy_game.Engine.Hub.Secrecy.Streams.{IsUnseen}
use lotr_kafka_strategy_game.Engine.Hub.Delivered.{turn-IsUnseen}

-- Reads every payload as the same order.
abbrev json : Json
json = record {
  marshal_order = λ o. [];
  unmarshal_order = λ payload. some order;
  marshal_recover = λ rs. "";
  unmarshal_recover = λ text. none;
}

abbrev ids : Dict ℕ
ids name = some 7

start-made : new_world config ≡ some start
start-made = (load-new_world units_file map_file config loaded plain).1

start-IsWellFormed : IsWellFormed start
start-IsWellFormed = (load-new_world units_file map_file config loaded plain).2

config-IsStartable : IsStartable config
config-IsStartable = subst (Gives IsWellFormed) (sym start-made) start-IsWellFormed

start-IsFit : IsFit config start
start-IsFit = (start-IsWellFormed, new_world-IsComplete config start start-made)

abbrev ranges : Ranges
ranges = record { buffer_ids = "ring-bearer" ∷ "witch-king" ∷ []; schedule = schedule }

abbrev traffic : List LeaderMsg
traffic =
    validated 5 ("witch-king" ∷ []) (record { order = order; risk = none })
    ∷ ticked 6 ranges
    ∷ started 7
    ∷ advanced 8 ranges
    ∷ []

run_leader_returns_example :
    (r : Engine × List Publication) × (run_leader json (some start) traffic (new_engine config ids)
      ≡ some r)
    × IsRunning config r.0
run_leader_returns_example =
    run_leader_returns config json (some start) traffic (new_engine config ids) refl
      config-IsStartable start-IsFit

abbrev reading : Reading
reading = record {
  now = 5;
  val_state = some (view_of config start);
  message = submitted_of (submit_raw json ids 4 order).value;
}

reading-IsDuring : IsDuring start.turn reading
unfolding view_of
reading-IsDuring st e = ap (λ x. x.turn) (sym (some_eq e))

run_validation-IsDistinct_example :
    IsDistinct
      (validated_units (run_validation config json ids (reading ∷ reading ∷ []) first_worker).1)
run_validation-IsDistinct_example =
    run_validation-IsDistinct config json ids start.turn (reading ∷ reading ∷ [])
      (reading-IsDuring, (reading-IsDuring, tt))

abbrev avro : Avro String ℕ
avro = record {
  parse = λ text. some text;
  marshal = λ sc v. some (v ∷ []);
  unmarshal = λ sc payload. none;
}

abbrev latest : Latest
latest subject = ok (7, subject)

abbrev loading : Loading String
loading = elim (load_schemas avro latest schema_subjects (λ id. none)) [
  | ok l ↦ l
  | err e ↦ record { schemas = λ id. none; ids = λ name. none }
]

loading-loaded : load_schemas avro latest schema_subjects (λ id. none) ≡ ok loading
unfolding load_schemas
loading-loaded = refl

abbrev events : List Event
events =
    event unit_moved 4 aud_all
    ∷ event route_compromised 4 aud_light
    ∷ event ring_bearer_moved 4 aud_light
    ∷ []

loaded-publish_events_example :
    AllPublished loading.ids events (publish_events loading.ids 5 events)
loaded-publish_events_example =
    loaded-publish_events avro latest (λ id. none) loading 5 events loading-loaded

abbrev rebalances : List GroupMsg
rebalances = assigns (0 ∷ []) ∷ revokes (0 ∷ []) ∷ assigns (1 ∷ 0 ∷ []) ∷ returns 0 ∷ []

coordinate-leads_example : IsSole true (0 ∷ []) (coordinate rebalances new_coordinator)
coordinate-leads_example = coordinate-leads rebalances

abbrev browser : SseClient
browser = record { address = "b1"; side = "dark" }

abbrev other_browser : SseClient
other_browser = record { address = "b2"; side = "light" }

abbrev sides : String → String
sides a = if a == "b1" then "dark" else "light"

abbrev hub : Hub
hub = record {
  cfg = config;
  light = other_browser ∷ [];
  dark = browser ∷ [];
  closed = [];
  cache = start;
  last_recover = none;
  started = true;
  game_over = false;
  winner = "";
  light_ring_region = "shire";
  last_detected_region = "";
  canonical = λ name. none;
}

hub-IsOrderly : IsOrderly sides [] hub
hub-IsOrderly = record {
  lights = ((refl, refl, refl), tt);
  darks = ((refl, refl, refl), tt);
  closes = λ a e. e;
  starts = (start, start-made);
}

start-Matches : Matches start (record start { turn = 7 })
start-Matches = record {
  units = Alike-same _ start.units;
  regions = Alike-same _ start.regions;
  paths = Alike-same _ start.paths;
}

failover_returns_example :
    (back : World) × IsRecovered (record start { turn = 7 }) back
    × ((h' : Hub) × (apply_session [] (build_recover_state (record start { turn = 7 })) hub
          ≡ some h')
        × (clone_world [] h' ≡ some (some back)))
    × ((r : Engine × List Publication) × (run_leader json
            (some back)
            traffic
            (new_engine config ids)
          ≡ some r)
        × IsRunning config r.0)
failover_returns_example =
    failover_returns json [] config start (record start { turn = 7 }) hub (new_engine config ids)
      traffic start-made start-IsWellFormed start-Matches start-IsFit refl refl

abbrev visits : List HubMsg
visits =
    unregisters browser
    ∷ keeps_alive
    ∷ asks_state "dark"
    ∷ asks_world []
    ∷ registers (record { address = "b3"; side = "light" })
    ∷ unregisters browser
    ∷ []

turn-IsUnseen_example :
    (t : Hub × List Delivery) × (run_hub
        (consume_all json [] (
          publish_events ids 5
            (process_turn_returns schedule (order ∷ attack ∷ []) start start-IsWellFormed).0.1))
        hub
      ≡ some t)
    × All (IsUnseen start.ring_id) t.1
turn-IsUnseen_example =
    turn-IsUnseen schedule (order ∷ attack ∷ []) start _ json ids 5 [] sides [] hub
      (process_turn_returns schedule (order ∷ attack ∷ []) start start-IsWellFormed).1 hub-IsOrderly

abbrev unit_shown : String → UnitState
unit_shown k = record {
  id = k;
  region = "shire";
  strength = 2;
  status = active;
  respawn_turns = 0;
  route = [];
  route_idx = 0;
  cooldown = 0;
}

abbrev region_shown : String → ℕ → RegionState
region_shown k n = record {
  id = k;
  controlled_by = side_free;
  threat_level = n;
  fortified = false;
  fortify_turns = 0;
  units = [];
}

abbrev path_shown : String → PathState
path_shown k = record {
  id = k;
  status = open_path;
  surveillance_level = 0;
  temp_open_turns = 0;
  blocked_by = "";
}

-- A world whose regions all have threat `n`.
abbrev world_shown : ℕ → ℕ → World
world_shown turn n = record {
  cfg = config;
  turn = turn;
  units = λ k. some (unit_shown k);
  regions = λ k. some (region_shown k n);
  paths = λ k. some (path_shown k);
  ring = record {
    true_region = "bree";
    exposed = false;
    route = [];
    route_idx = 0;
    last_detected_turn = none;
    last_detected_region = "";
  };
  saruman_disabled = false;
  game_over = false;
  winner = "";
  ring_id = "ring-bearer";
  mount_doom_id = "rivendell";
  saruman_home_id = "";
}

abbrev idle_hub : Hub
idle_hub = record hub { cache = world_shown 3 0 }

before-shown : (v : ApiState) × (build_state_view "light" idle_hub ≡ some v)
unfolding build_state_view
before-shown = (_, refl)

taken-built :
    (snap : WorldSnapshotMsg) × (build_snapshot config 5 (some (world_shown 4 2)) ≡ some snap)
unfolding build_snapshot
taken-built = (_, refl)

apply_snapshot-view_example :
    build_state_view "light" (apply_snapshot taken-built.0 idle_hub)
    ≡ some (record before-shown.0 {
      turn = 4;
      regions = taken-built.0.regions;
      units = taken-built.0.units;
      started = true;
    })
apply_snapshot-view_example =
    apply_snapshot-view "light" idle_hub 5 (world_shown 4 2) taken-built.0 before-shown.0
      taken-built.1 before-shown.1
