-- ===== src/Game/Order.antt =====
-- option-b/internal/game/order.go: what players order and what a turn reports. Of the order types
-- and the event types, texts in the source, each constant is a constructor.
use lotr_kafka_strategy_game.Prelude.{ℕ, String, Bool, false, Option, none, some, List}
use lotr_kafka_strategy_game.Game.State.{PathStatus, PathState}

-- `other` is any text that is none of the constants.
pub data OrderType : Type 0 where
  assign_route redirect_unit destroy_ring maia_ability block_path search_path : OrderType
  attack_region reinforce_region fortify_region deploy_nazgul : OrderType
  other : String → OrderType

pub record Order : Type 0 where
  pub order_type : OrderType
  pub player_id : String
  pub unit_id : String
  pub turn : ℕ
  pub path_ids : List String
  pub new_path_ids : List String
  pub target_path_id : String
  pub path_id : String
  pub target_region : String

pub data EventType : Type 0 where
  unit_moved path_status_changed path_corrupted region_control battle_resolved : EventType
  ring_bearer_moved ring_bearer_detected ring_bearer_spotted route_compromised : EventType
  game_over_event world_state_snapshot : EventType

pub data Audience : Type 0 where
  aud_all aud_light aud_dark : Audience

-- `status` is `none` for the empty text.
pub record Event : Type 0 where
  pub type : EventType
  pub turn : ℕ
  pub unit_id : String
  pub from : String
  pub to : String
  pub path_id : String
  pub status : Option PathStatus
  pub surveillance_level : ℕ
  pub temp_open_turns : ℕ
  pub region_id : String
  pub new_controller : String
  pub attacker_won : Bool
  pub true_region : String
  pub winner : String
  pub cause : String
  pub audience : Audience

-- `Event{Type: …, Turn: …, Audience: …}`; the other fields are zero.
abbrev pub event : EventType → ℕ → Audience → Event
event t turn a = record {
  type = t;
  turn = turn;
  unit_id = "";
  from = "";
  to = "";
  path_id = "";
  status = none;
  surveillance_level = 0;
  temp_open_turns = 0;
  region_id = "";
  new_controller = "";
  attacker_won = false;
  true_region = "";
  winner = "";
  cause = "";
  audience = a;
}

-- `pathEvent` of turn.go.
unfoldable pub path_event : ℕ → PathState → Event
path_event turn p = record (event path_status_changed turn aud_all) {
  path_id = p.id;
  status = some p.status;
  surveillance_level = p.surveillance_level;
  temp_open_turns = p.temp_open_turns;
}
