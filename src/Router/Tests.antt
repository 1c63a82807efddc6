-- ===== src/Router/Tests.antt =====
-- Concrete runs of option-b/internal/router/router.go.
use lotr_kafka_strategy_game.Prelude.{◌≡◌, List, [], ◌∷◌, ◌++◌, empty, All}
use lotr_kafka_strategy_game.Game.WellFormed.Start.{load-new_world}
use lotr_kafka_strategy_game.Game.Order.{event, ring_bearer_moved, unit_moved, aud_all, aud_light}
use lotr_kafka_strategy_game.Game.Turn.Sound.Whole.{process_turn_returns}
use lotr_kafka_strategy_game.Game.Samples.{
  units_file, map_file, config, loaded, plain, schedule, order, attack, start,
}
use lotr_kafka_strategy_game.Router.{Snapshot, new_router, zero_cache, broadcast, dark_ring_region}
use lotr_kafka_strategy_game.Router.Channels.{
  Message, an_event, a_snapshot, deliver_all, light_sees, dark_sees, messages, IsSecret,
  deliver_all_lem, turn-AllSecret,
}
use lotr_kafka_strategy_game.Router.Views.{an_update, a_detection, write_all, write_all_lem}

abbrev snapshot : Snapshot
snapshot = record {
  turn = 4;
  ring_bearer_region = "bree";
  units = empty;
  regions = empty;
  paths = empty;
}

abbrev traffic : List Message
traffic =
    an_event (event ring_bearer_moved 4 aud_light)
    ∷ an_event (event unit_moved 4 aud_all)
    ∷ a_snapshot snapshot
    ∷ []

deliver_all_lem_example :
    ((deliver_all traffic new_router).light ≡ new_router.light ++ light_sees traffic)
    × ((deliver_all traffic new_router).dark ≡ new_router.dark ++ dark_sees traffic)
deliver_all_lem_example = deliver_all_lem traffic new_router

turn-AllSecret_example :
    All
      (IsSecret start.ring_id)
      (broadcast snapshot (
        deliver_all
          (messages
            (process_turn_returns schedule
              (order ∷ attack ∷ [])
              start
              (load-new_world units_file map_file config loaded plain).2).0.1)
          new_router)).dark
turn-AllSecret_example =
    turn-AllSecret schedule (order ∷ attack ∷ []) start _ snapshot
      (process_turn_returns schedule (order ∷ attack ∷ []) start
        (load-new_world units_file map_file config loaded plain).2).1

write_all_lem_example :
    (dark_ring_region (write_all (an_update 4 "bree" [] 1 ∷ a_detection 4 "bree" ∷ []) zero_cache)
      ≡ "")
    × ((write_all
          (an_update 4 "bree" [] 1 ∷ a_detection 4 "bree" ∷ [])
          zero_cache).dark.last_detected_region
        ≡ "bree")
write_all_lem_example = write_all_lem (an_update 4 "bree" [] 1 ∷ a_detection 4 "bree" ∷ [])
