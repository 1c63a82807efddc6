-- ===== src/Engine/Submit.antt =====
-- `SubmitRaw` and `SubmitControl` of option-b/internal/engine/engine.go: how an order enters Kafka.
use lotr_kafka_strategy_game.Prelude.{ℕ, String, false, [], ◌==◌, if◌then◌else◌, Dict, get_or}
use lotr_kafka_strategy_game.Game.Order.{other, Order}
use lotr_kafka_strategy_game.Engine.Messages.{order_submitted, topic_orders_raw}
use lotr_kafka_strategy_game.Engine.Publish.{Json, Publication}

-- `SubmitRaw`: the call of `Produce`.
unfoldable pub submit_raw : Json → Dict ℕ → ℕ → Order → Publication
submit_raw json ids now o = record {
  topic = topic_orders_raw;
  key = if o.player_id == "" then "system" else o.player_id;
  schema_id = get_or ids "OrderSubmitted" 0;
  value = order_submitted (record {
    player_id = o.player_id;
    unit_id = o.unit_id;
    order_type = o.order_type;
    payload = json.marshal_order o;
    turn = o.turn;
    timestamp = now;
  });
  transactional = false;
}

abbrev pub control_order : String → Order
control_order kind = record {
  order_type = other kind;
  player_id = "system";
  unit_id = "system";
  turn = 0;
  path_ids = [];
  new_path_ids = [];
  target_path_id = "";
  path_id = "";
  target_region = "";
}

-- `SubmitControl`
unfoldable pub submit_control : Json → Dict ℕ → ℕ → String → Publication
unfolding submit_raw
submit_control json ids now kind = submit_raw json ids now (control_order kind)
