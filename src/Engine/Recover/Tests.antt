-- ===== src/Engine/Recover/Tests.antt =====
-- A concrete failover (option-b/internal/engine/recover.go).
use lotr_kafka_strategy_game.Prelude.{
  arith, Has, empty, if◌then◌else◌, ◌==◌, ◌↔◌, contains, true, false, none, Dict, ◌≡◌, some, [],
  ◌∷◌,
}
use lotr_kafka_strategy_game.Game.State.{World, new_regions}
use lotr_kafka_strategy_game.Game.WellFormed.Start.{load-new_world}
use lotr_kafka_strategy_game.Game.Samples.{units_file, map_file, config, loaded, plain, start}
use lotr_kafka_strategy_game.Engine.Recover.{
  RecoverRegion, RecoverState, restore, build_recover_state, build_world_from_recover,
}
use lotr_kafka_strategy_game.Engine.Recover.Residents.{listed, stands_in, restore-residents}
use lotr_kafka_strategy_game.Engine.Recover.RoundTrip.{
  Alike-same, Matches, IsRecovered, recover-round_trip,
}

start-Matches : Matches start (record start { turn = 7 })
start-Matches = record {
  units = Alike-same _ start.units;
  regions = Alike-same _ start.regions;
  paths = Alike-same _ start.paths;
}

recover-round_trip_example :
    (back : World) × (build_world_from_recover
        ("witch-king" ∷ "elrond" ∷ [])
        config
        (build_recover_state (record start { turn = 7 }))
      ≡ some back)
    × IsRecovered (record start { turn = 7 }) back
recover-round_trip_example =
    recover-round_trip ("witch-king" ∷ "elrond" ∷ []) config start (record start { turn = 7 })
      (load-new_world units_file map_file config loaded plain).1 start-Matches

abbrev one_region : Dict RecoverRegion
one_region k =
    if k == "bree"
    then some (record {
      controlled_by = "SHADOW";
      threat_level = 2;
      fortified = false;
      fortify_turns = 0;
    })
    else none

abbrev saved : RecoverState
saved = record (build_recover_state start) { regions = one_region }

bree-on_map : Has (new_regions map_file.regions empty) "bree"
unfolding new_regions
bree-on_map = ground arith

abbrev blank : World
blank = record start { regions = new_regions map_file.regions empty }

restore-residents_example :
    (listed (restore ("witch-king" ∷ []) config saved blank).regions "bree" "witch-king" ≡ true) ↔ (
      (contains ("witch-king" ∷ []) "witch-king" ≡ true)
      × (stands_in config (restore ("witch-king" ∷ []) config saved blank).units "bree" "witch-king"
          ≡ true))
restore-residents_example =
    restore-residents ("witch-king" ∷ []) config saved blank "bree" "witch-king" bree-on_map
      (λ e. cc e)
