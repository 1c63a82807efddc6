-- ===== src/Engine/Publish.antt =====
-- option-b/internal/engine/publish.go: what the leader hands to the Kafka producer. A publication is one
-- call of `Produce` or `ProduceInTxn`; an error of the call is only logged. Encoding as JSON is a
-- parameter, `now` is a reading of the clock, and all the readings of one call are taken to be alike.
pub mod Snapshots
pub mod Topics
pub mod Events
use lotr_kafka_strategy_game.Prelude.{
  ℕ, String, Bool, true, false, Option, none, some, List, [], ◌∷◌, ◌++◌, if◌then◌else◌, Dict,
  get_or,
}
use lotr_kafka_strategy_game.Config.{UnitConfig, Region, Config}
use lotr_kafka_strategy_game.Game.State.{UnitState, RegionState, World}
use lotr_kafka_strategy_game.Game.Order.{
  OrderType, other, Order, EventType, Event, unit_moved, path_status_changed, path_corrupted,
  region_control, battle_resolved, ring_bearer_moved, ring_bearer_detected, ring_bearer_spotted,
  game_over_event, world_state_snapshot,
}
use lotr_kafka_strategy_game.Engine.Recover.{RecoverState, build_recover_state}
use lotr_kafka_strategy_game.Engine.Messages.{
  Message, order_validated, moved_unit, changed_path, corrupted_path, changed_control,
  resolved_battle, moved_ring, detected_ring, spotted_ring, ended_game, world_snapshot,
  game_session, dead_letter, nil_message, RegionSnap, UnitSnap, WorldSnapshotMsg, route_topic,
  topic_orders_raw, topic_orders_validated, topic_session, topic_broadcast, topic_dlq,
}

-- `json.Marshal` and `json.Unmarshal` of orders and recovery records; `none` is an error.
pub record Json : Type 0 where
  pub marshal_order : Order → List ℕ
  pub unmarshal_order : List ℕ → Option Order
  pub marshal_recover : RecoverState → String
  pub unmarshal_recover : String → Option RecoverState

pub record Publication : Type 0 where
  pub topic : String
  pub key : String
  pub schema_id : ℕ
  pub value : Message
  pub transactional : Bool

abbrev pub game_id : String
game_id = "rotme"

unfoldable pub publish : Dict ℕ → String → String → String → Message → List Publication
publish ids topic schema key value = elim (ids schema) [
  | none ↦ []
  | some id ↦
      record { topic = topic; key = key; schema_id = id; value = value; transactional = false } ∷ []
]

unfoldable pub publish_validated : Json → Dict ℕ → ℕ → Order → Option ℕ → List Publication
unfolding publish
publish_validated json ids now o risk =
    publish ids topic_orders_validated "OrderValidated" o.unit_id (
      order_validated (record {
        player_id = o.player_id;
        unit_id = o.unit_id;
        order_type = o.order_type;
        payload = json.marshal_order o;
        turn = o.turn;
        timestamp = now;
        route_risk_score = risk;
      }))

unfoldable pub publish_dlq : Dict ℕ → ℕ → String → List ℕ → List Publication
unfolding publish
publish_dlq ids now code raw = publish ids topic_dlq "DLQEntry" code (
    dead_letter (record {
      original_topic = topic_orders_raw;
      partition = 0;
      offset = 0;
      error_code = code;
      error_message = "order rejected by validation";
      raw_payload = raw;
      timestamp = now;
    }))

-- The loops of `buildSnapshot`; `none` is the nil dereference of a region or a unit of the
-- configuration that the world does not have.
unfoldable pub snap_regions : Dict RegionState → List Region → Option (List RegionSnap)
snap_regions m [] = some []
snap_regions m (r ∷ rs) = elim (m r.id) [
  | none ↦ none
  | some reg ↦ elim (snap_regions m rs) [
    | none ↦ none
    | some rest ↦ some (
        record {
          region_id = r.id;
          controlled_by = reg.controlled_by;
          threat_level = reg.threat_level;
          fortified = reg.fortified;
        }
        ∷ rest)
  ]
]

unfoldable pub snap_units : Dict UnitState → List UnitConfig → Option (List UnitSnap)
snap_units m [] = some []
snap_units m (u ∷ us) = elim (m u.id) [
  | none ↦ none
  | some unit ↦ elim (snap_units m us) [
    | none ↦ none
    | some rest ↦ some (
        record {
          unit_id = u.id;
          region = unit.region;
          strength = unit.strength;
          status = unit.status;
        }
        ∷ rest)
  ]
]

-- `buildSnapshot`, where there is a world.
unfoldable pub snapshot_of : Config → ℕ → World → Option WorldSnapshotMsg
unfolding snap_regions snap_units
snapshot_of cfg now w = elim (snap_regions w.regions cfg.regions) [
  | none ↦ none
  | some regions ↦ elim (snap_units w.units cfg.units) [
    | none ↦ none
    | some units ↦
        some (record { turn = w.turn; regions = regions; units = units; timestamp = now })
  ]
]

unfoldable pub build_snapshot : Config → ℕ → Option World → Option WorldSnapshotMsg
unfolding snapshot_of
build_snapshot cfg now none = some (record { turn = 0; regions = []; units = []; timestamp = now })
build_snapshot cfg now (some w) = snapshot_of cfg now w

unfoldable pub publish_snapshot : Config → Dict ℕ → ℕ → Option World → Option (List Publication)
unfolding build_snapshot publish
publish_snapshot cfg ids now w = elim (build_snapshot cfg now w) [
  | none ↦ none
  | some snap ↦
      some (publish ids topic_broadcast "WorldStateSnapshot" game_id (world_snapshot snap))
]

-- `publishSession`, of a world that is there.
unfoldable pub publish_session : Json → Dict ℕ → ℕ → World → List Publication
unfolding publish build_recover_state
publish_session json ids now w = publish ids topic_session "GameSession" game_id (
    game_session (record {
      game_id = game_id;
      turn = w.turn;
      phase = if w.game_over then "OVER" else "IN_PROGRESS";
      winner = if w.game_over then some w.winner else none;
      world_json = some (json.marshal_recover (build_recover_state w));
      timestamp = now;
    }))
