-- ===== src/Engine/Messages.antt =====
-- option-b/internal/engine/messages.go: the records that Kafka carries, the topics, and where an event
-- goes. Of the types and statuses, texts on the wire, each constant is a constructor.
use lotr_kafka_strategy_game.Prelude.{ℕ, String, Bool, Option, none, some, List, [], ◌∷◌}
use lotr_kafka_strategy_game.Game.State.{Status, PathStatus}
use lotr_kafka_strategy_game.Game.Order.{
  OrderType, EventType, unit_moved, path_status_changed, path_corrupted, region_control,
  battle_resolved, ring_bearer_moved, ring_bearer_detected, ring_bearer_spotted,
}

pub record OrderSubmittedMsg : Type 0 where
  pub player_id : String
  pub unit_id : String
  pub order_type : OrderType
  pub payload : List ℕ
  pub turn : ℕ
  pub timestamp : ℕ

-- `route_risk_score` is `none` for nil.
pub record OrderValidatedMsg : Type 0 where
  pub player_id : String
  pub unit_id : String
  pub order_type : OrderType
  pub payload : List ℕ
  pub turn : ℕ
  pub timestamp : ℕ
  pub route_risk_score : Option ℕ

pub record UnitMovedMsg : Type 0 where
  pub unit_id : String
  pub from : String
  pub to : String
  pub turn : ℕ
  pub timestamp : ℕ

pub record PathStatusChangedMsg : Type 0 where
  pub path_id : String
  pub new_status : Option PathStatus
  pub surveillance_level : ℕ
  pub temp_open_turns : ℕ
  pub turn : ℕ
  pub timestamp : ℕ

pub record PathCorruptedMsg : Type 0 where
  pub path_id : String
  pub turn : ℕ
  pub timestamp : ℕ

pub record RegionControlMsg : Type 0 where
  pub region_id : String
  pub new_controller : String
  pub turn : ℕ
  pub timestamp : ℕ

pub record BattleResolvedMsg : Type 0 where
  pub region_id : String
  pub attacker_won : Bool
  pub turn : ℕ
  pub timestamp : ℕ

pub record RingMovedMsg : Type 0 where
  pub true_region : String
  pub turn : ℕ
  pub timestamp : ℕ

pub record RingDetectedMsg : Type 0 where
  pub region_id : String
  pub turn : ℕ
  pub timestamp : ℕ

pub record RingSpottedMsg : Type 0 where
  pub path_id : String
  pub turn : ℕ
  pub timestamp : ℕ

pub record GameOverMsg : Type 0 where
  pub winner : String
  pub cause : String
  pub turn : ℕ
  pub timestamp : ℕ

pub record RegionSnap : Type 0 where
  pub region_id : String
  pub controlled_by : String
  pub threat_level : ℕ
  pub fortified : Bool

pub record UnitSnap : Type 0 where
  pub unit_id : String
  pub region : String
  pub strength : ℕ
  pub status : Status

pub record PathSnap : Type 0 where
  pub path_id : String
  pub status : PathStatus
  pub surveillance_level : ℕ
  pub temp_open_turns : ℕ

-- `APIState`: what `GET /game/state` answers.
pub record ApiState : Type 0 where
  pub turn : ℕ
  pub ring_bearer_region : String
  pub units : List UnitSnap
  pub regions : List RegionSnap
  pub paths : List PathSnap
  pub winner : String
  pub game_over : Bool
  pub started : Bool

pub record WorldSnapshotMsg : Type 0 where
  pub turn : ℕ
  pub regions : List RegionSnap
  pub units : List UnitSnap
  pub timestamp : ℕ

-- `winner` and `world_json` are `none` for nil.
pub record GameSessionMsg : Type 0 where
  pub game_id : String
  pub turn : ℕ
  pub phase : String
  pub winner : Option String
  pub world_json : Option String
  pub timestamp : ℕ

pub record DlqMsg : Type 0 where
  pub original_topic : String
  pub partition : ℕ
  pub offset : ℕ
  pub error_code : String
  pub error_message : String
  pub raw_payload : List ℕ
  pub timestamp : ℕ

-- The values of type `any` that the engine hands to the producer.
pub data Message : Type 0 where
  order_submitted : OrderSubmittedMsg → Message
  order_validated : OrderValidatedMsg → Message
  moved_unit : UnitMovedMsg → Message
  changed_path : PathStatusChangedMsg → Message
  corrupted_path : PathCorruptedMsg → Message
  changed_control : RegionControlMsg → Message
  resolved_battle : BattleResolvedMsg → Message
  moved_ring : RingMovedMsg → Message
  detected_ring : RingDetectedMsg → Message
  spotted_ring : RingSpottedMsg → Message
  ended_game : GameOverMsg → Message
  world_snapshot : WorldSnapshotMsg → Message
  game_session : GameSessionMsg → Message
  dead_letter : DlqMsg → Message
  nil_message : Message

abbrev pub topic_orders_raw : String
topic_orders_raw = "game.orders.raw"

abbrev pub topic_orders_validated : String
topic_orders_validated = "game.orders.validated"

abbrev pub topic_events_unit : String
topic_events_unit = "game.events.unit"

abbrev pub topic_events_region : String
topic_events_region = "game.events.region"

abbrev pub topic_events_path : String
topic_events_path = "game.events.path"

abbrev pub topic_session : String
topic_session = "game.session"

abbrev pub topic_broadcast : String
topic_broadcast = "game.broadcast"

abbrev pub topic_ring_position : String
topic_ring_position = "game.ring.position"

abbrev pub topic_ring_detection : String
topic_ring_detection = "game.ring.detection"

abbrev pub topic_dlq : String
topic_dlq = "game.dlq"

-- The entries of the map, in the order of the source.
abbrev pub schema_subjects : List (String × String)
schema_subjects =
    ("OrderSubmitted", "game.orders.raw-value")
    ∷ ("OrderValidated", "game.orders.validated-value")
    ∷ ("UnitMoved", "UnitMoved-value")
    ∷ ("PathStatusChanged", "PathStatusChanged-value")
    ∷ ("PathCorrupted", "PathCorrupted-value")
    ∷ ("RegionControlChanged", "RegionControlChanged-value")
    ∷ ("BattleResolved", "BattleResolved-value")
    ∷ ("RingBearerMoved", "game.ring.position-value")
    ∷ ("RingBearerDetected", "RingBearerDetected-value")
    ∷ ("RingBearerSpotted", "RingBearerSpotted-value")
    ∷ ("WorldStateSnapshot", "game.broadcast-value")
    ∷ ("GameOver", "game.broadcast-GameOver")
    ∷ ("GameSession", "game.session-value")
    ∷ ("DLQEntry", "game.dlq-value")
    ∷ []

-- The topic and the schema name; `none` for a false third result.
unfoldable pub route_topic : EventType → Option (String × String)
route_topic unit_moved = some (topic_events_unit, "UnitMoved")
route_topic path_status_changed = some (topic_events_path, "PathStatusChanged")
route_topic path_corrupted = some (topic_events_path, "PathCorrupted")
route_topic region_control = some (topic_events_region, "RegionControlChanged")
route_topic battle_resolved = some (topic_events_region, "BattleResolved")
route_topic ring_bearer_moved = some (topic_ring_position, "RingBearerMoved")
route_topic ring_bearer_detected = some (topic_ring_detection, "RingBearerDetected")
route_topic ring_bearer_spotted = some (topic_ring_detection, "RingBearerSpotted")
route_topic _ = none
