-- ===== src/Engine/Publish/Events.antt =====
-- `publishEvents` of option-b/internal/engine/publish.go: what a turn's events are published as.
use lotr_kafka_strategy_game.Prelude.{
  ℕ, String, true, none, some, List, [], ◌∷◌, ◌++◌, Dict, get_or,
}
use lotr_kafka_strategy_game.Game.Order.{
  EventType, Event, unit_moved, path_status_changed, path_corrupted, region_control,
  battle_resolved, ring_bearer_moved, ring_bearer_detected, ring_bearer_spotted, game_over_event,
  world_state_snapshot,
}
use lotr_kafka_strategy_game.Engine.Messages.{
  Message, moved_unit, changed_path, corrupted_path, changed_control, resolved_battle, moved_ring,
  detected_ring, spotted_ring, ended_game, nil_message, route_topic, topic_broadcast,
}
use lotr_kafka_strategy_game.Engine.Publish.{Publication, game_id, publish}

-- A `switch` on the type of an event passes it to a helper by clauses.
key_as : EventType → Event → String
key_as unit_moved ev = ev.unit_id
key_as path_status_changed ev = ev.path_id
key_as path_corrupted ev = ev.path_id
key_as region_control ev = ev.region_id
key_as battle_resolved ev = ev.region_id
key_as ring_bearer_moved ev = "light"
key_as ring_bearer_detected ev = "dark"
key_as ring_bearer_spotted ev = "dark"
key_as _ ev = ""

unfoldable pub event_key : Event → String
unfolding key_as
event_key ev = key_as ev.type ev

dto_as : EventType → ℕ → Event → Message
dto_as unit_moved ts ev =
    moved_unit
      (record { unit_id = ev.unit_id; from = ev.from; to = ev.to; turn = ev.turn; timestamp = ts })
dto_as path_status_changed ts ev = changed_path (record {
  path_id = ev.path_id;
  new_status = ev.status;
  surveillance_level = ev.surveillance_level;
  temp_open_turns = ev.temp_open_turns;
  turn = ev.turn;
  timestamp = ts;
})
dto_as path_corrupted ts ev =
    corrupted_path (record { path_id = ev.path_id; turn = ev.turn; timestamp = ts })
dto_as region_control ts ev = changed_control (record {
  region_id = ev.region_id;
  new_controller = ev.new_controller;
  turn = ev.turn;
  timestamp = ts;
})
dto_as battle_resolved ts ev = resolved_battle (record {
  region_id = ev.region_id;
  attacker_won = ev.attacker_won;
  turn = ev.turn;
  timestamp = ts;
})
dto_as ring_bearer_moved ts ev =
    moved_ring (record { true_region = ev.true_region; turn = ev.turn; timestamp = ts })
dto_as ring_bearer_detected ts ev =
    detected_ring (record { region_id = ev.region_id; turn = ev.turn; timestamp = ts })
dto_as ring_bearer_spotted ts ev =
    spotted_ring (record { path_id = ev.path_id; turn = ev.turn; timestamp = ts })
dto_as _ ts ev = nil_message

unfoldable pub event_to_dto : ℕ → Event → Message
unfolding dto_as
event_to_dto now ev = dto_as ev.type now ev

-- The `default` branch of the loop of `publishEvents`.
unfoldable pub publish_routed : Dict ℕ → ℕ → Event → List Publication
unfolding route_topic publish event_key event_to_dto
publish_routed ids now ev = elim (route_topic ev.type) [
  | none ↦ []
  | some (topic, schema) ↦ publish ids topic schema (event_key ev) (event_to_dto now ev)
]

publish_as : EventType → Dict ℕ → ℕ → Event → List Publication
publish_as game_over_event ids now ev =
    record {
      topic = topic_broadcast;
      key = game_id;
      schema_id = get_or ids "GameOver" 0;
      value =
          ended_game
            (record { winner = ev.winner; cause = ev.cause; turn = ev.turn; timestamp = now });
      transactional = true;
    }
    ∷ []
publish_as world_state_snapshot ids now ev = []
publish_as _ ids now ev = publish_routed ids now ev

-- The body of the loop.
unfoldable pub publish_event : Dict ℕ → ℕ → Event → List Publication
unfolding publish_as publish_routed
publish_event ids now ev = publish_as ev.type ids now ev

unfoldable pub publish_events : Dict ℕ → ℕ → List Event → List Publication
unfolding publish_event
publish_events ids now [] = []
publish_events ids now (ev ∷ evs) = publish_event ids now ev ++ publish_events ids now evs
