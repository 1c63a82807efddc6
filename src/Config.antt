-- ===== src/Config.antt =====
-- option-b/internal/config/config.go: what the configuration files hold, and what is built from them.
-- Numbers are naturals: no field of the shipped files is negative.
pub mod Load
pub mod MapGraph
pub mod Integrity
use lotr_kafka_strategy_game.Prelude.{ℕ, String, Bool, false, List, [], Dict, get_or}

pub record UnitConfig : Type 0 where
  pub id : String
  pub name : String
  pub class : String
  pub side : String
  pub start_region : String
  pub strength : ℕ
  pub leadership : Bool
  pub leadership_bonus : ℕ
  pub indestructible : Bool
  pub detection_range : ℕ
  pub respawns : Bool
  pub respawn_turns : ℕ
  pub maia : Bool
  pub maia_ability_paths : List String
  pub ignores_fortress : Bool
  pub can_fortify : Bool
  pub cooldown : ℕ

pub record Region : Type 0 where
  pub id : String
  pub name : String
  pub terrain : String
  pub special_role : String
  pub start_control : String
  pub start_threat : ℕ

-- `Path` in the source.
pub record MapPath : Type 0 where
  pub id : String
  pub from : String
  pub to : String
  pub cost : ℕ

pub record UnitsFile : Type 0 where
  pub hidden_until_turn : ℕ
  pub max_turns : ℕ
  pub turn_duration_seconds : ℕ
  pub units : List UnitConfig

pub record MapFile : Type 0 where
  pub regions : List Region
  pub paths : List MapPath

pub record Edge : Type 0 where
  pub to : String
  pub path_id : String
  pub cost : ℕ

-- The map `adj`: the keys written to it, and its look-ups (an edge list is nil for a missing key).
pub record Graph : Type 0 where
  pub keys : List String
  pub adj : String → List Edge

pub record Config : Type 0 where
  pub hidden_until_turn : ℕ
  pub max_turns : ℕ
  pub turn_duration_seconds : ℕ
  pub units : List UnitConfig
  pub regions : List Region
  pub paths : List MapPath
  pub unit_by_id : Dict UnitConfig
  pub region_by_id : Dict Region
  pub path_by_id : Dict MapPath
  pub graph : Graph

abbrev pub zero_unit : UnitConfig
zero_unit = record {
  id = "";
  name = "";
  class = "";
  side = "";
  start_region = "";
  strength = 0;
  leadership = false;
  leadership_bonus = 0;
  indestructible = false;
  detection_range = 0;
  respawns = false;
  respawn_turns = 0;
  maia = false;
  maia_ability_paths = [];
  ignores_fortress = false;
  can_fortify = false;
  cooldown = 0;
}

abbrev pub zero_region : Region
zero_region = record {
  id = "";
  name = "";
  terrain = "";
  special_role = "";
  start_control = "";
  start_threat = 0;
}

abbrev pub zero_path : MapPath
zero_path = record { id = ""; from = ""; to = ""; cost = 0 }

-- `cfg.UnitByID[id]`, `cfg.RegionByID[id]` and `cfg.PathByID[id]`.
abbrev pub unit_at : Config → String → UnitConfig
unit_at c id = get_or c.unit_by_id id zero_unit

abbrev pub region_at : Config → String → Region
region_at c id = get_or c.region_by_id id zero_region

abbrev pub path_at : Config → String → MapPath
path_at c id = get_or c.path_by_id id zero_path
