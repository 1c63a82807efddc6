-- ===== src/Game/Samples.antt =====
-- A small map for concrete runs: the Shire, Bree and Rivendell on one road, the ring bearer, a
-- Nazgul and an elf.
use lotr_kafka_strategy_game.Prelude.{String, ◌≡◌, refl, true, some, [], ◌∷◌, arith, All}
use lotr_kafka_strategy_game.Config.{UnitConfig, Region, UnitsFile, MapFile, Config, zero_unit}
use lotr_kafka_strategy_game.Config.Load.{
  load, ok, load_regions, load_paths, check_path, load_units, check_unit, check_abilities,
}
use lotr_kafka_strategy_game.Config.Integrity.{configuration}
use lotr_kafka_strategy_game.Game.State.{World, is_ring_bearer}
use lotr_kafka_strategy_game.Game.Order.{Order, assign_route, attack_region}
use lotr_kafka_strategy_game.Game.WellFormed.Start.{IsPlain, load-new_world}
use lotr_kafka_strategy_game.Game.Turn.Process.{Schedule}

abbrev pub region : String → String → Region
region id terrain = record {
  id = id;
  name = id;
  terrain = terrain;
  special_role = "";
  start_control = "FREE_PEOPLES";
  start_threat = 0;
}

abbrev pub frodo : UnitConfig
frodo = record zero_unit {
  id = "ring-bearer";
  class = "RingBearer";
  side = "FREE_PEOPLES";
  start_region = "shire";
  strength = 1;
}

abbrev pub witch_king : UnitConfig
witch_king = record zero_unit {
  id = "witch-king";
  class = "Nazgul";
  side = "SHADOW";
  start_region = "bree";
  strength = 5;
  leadership = true;
  leadership_bonus = 1;
  detection_range = 2;
  respawns = true;
  respawn_turns = 3;
}

abbrev pub elrond : UnitConfig
elrond = record zero_unit {
  id = "elrond";
  class = "Elf";
  side = "FREE_PEOPLES";
  start_region = "rivendell";
  strength = 4;
  can_fortify = true;
}

abbrev pub units_file : UnitsFile
units_file = record {
  hidden_until_turn = 3;
  max_turns = 40;
  turn_duration_seconds = 60;
  units = frodo ∷ witch_king ∷ elrond ∷ [];
}

abbrev pub map_file : MapFile
map_file = record {
  regions = region "shire" "PLAINS" ∷ region "bree" "PLAINS" ∷ region "rivendell" "FORTRESS" ∷ [];
  paths =
      record { id = "east-road"; from = "shire"; to = "bree"; cost = 1 }
      ∷ record { id = "ford"; from = "bree"; to = "rivendell"; cost = 2 }
      ∷ [];
}

abbrev pub config : Config
config = configuration units_file map_file

pub loaded : load (some units_file) (some map_file) ≡ ok config
unfolding load load_regions load_paths check_path load_units check_unit check_abilities
loaded = refl

pub plain : All IsPlain units_file.units
unfolding is_ring_bearer
plain = ground arith

-- The world at the start, and an order that sends the ring bearer along the road.
abbrev pub start : World
start = (load-new_world units_file map_file config loaded plain).0

abbrev pub schedule : Schedule
schedule = record {
  stale_paths = "east-road" ∷ "ford" ∷ [];
  newly_blocked = λ pids. pids;
  compromised_units = λ pid. "witch-king" ∷ [];
  advancing_units = "witch-king" ∷ "elrond" ∷ [];
  battles = λ rs. rs;
  timed_paths = "east-road" ∷ "ford" ∷ [];
  timed_regions = "shire" ∷ "bree" ∷ "rivendell" ∷ [];
  counted_units = "witch-king" ∷ "elrond" ∷ [];
  eye_units = [];
  detecting_units = "witch-king" ∷ [];
  shadow_units = "witch-king" ∷ [];
  nazgul_units = "witch-king" ∷ [];
}

abbrev pub order : Order
order = record {
  order_type = assign_route;
  player_id = "light";
  unit_id = "ring-bearer";
  turn = 1;
  path_ids = "east-road" ∷ "ford" ∷ [];
  new_path_ids = [];
  target_path_id = "";
  path_id = "";
  target_region = "";
}

abbrev pub attack : Order
attack = record order {
  order_type = attack_region;
  player_id = "dark";
  unit_id = "witch-king";
  target_region = "shire";
}
