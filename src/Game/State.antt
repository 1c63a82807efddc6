-- ===== src/Game/State.antt =====
-- option-b/internal/game/state.go: the world that a turn changes. Pointers into the world's maps are
-- the maps' entries; a nil pointer is a missing key.
use lotr_kafka_strategy_game.Prelude.{
  ℕ, String, Bool, true, false, Option, none, some, List, [], ◌∷◌, ◌++◌, ◌&&◌, ◌==◌, if◌then◌else◌,
  Dict, empty, insert,
}
use lotr_kafka_strategy_game.Config.{UnitConfig, Region, MapPath, Config}

pub data Status : Type 0 where
  active destroyed respawning : Status

pub data PathStatus : Type 0 where
  open_path threatened blocked temp_open : PathStatus

abbrev pub side_free : String
side_free = "FREE_PEOPLES"

abbrev pub side_shadow : String
side_shadow = "SHADOW"

abbrev pub side_neutral : String
side_neutral = "NEUTRAL"

pub record UnitState : Type 0 where
  pub id : String
  pub region : String
  pub strength : ℕ
  pub status : Status
  pub respawn_turns : ℕ
  pub route : List String
  pub route_idx : ℕ
  pub cooldown : ℕ

pub record RegionState : Type 0 where
  pub id : String
  pub controlled_by : String
  pub threat_level : ℕ
  pub fortified : Bool
  pub fortify_turns : ℕ
  pub units : List String

pub record PathState : Type 0 where
  pub id : String
  pub status : PathStatus
  pub surveillance_level : ℕ
  pub temp_open_turns : ℕ
  pub blocked_by : String

-- `last_detected_turn` is `none` for the source's -1.
pub record RingBearerState : Type 0 where
  pub true_region : String
  pub exposed : Bool
  pub route : List String
  pub route_idx : ℕ
  pub last_detected_turn : Option ℕ
  pub last_detected_region : String

pub record World : Type 0 where
  pub cfg : Config
  pub turn : ℕ
  pub units : Dict UnitState
  pub regions : Dict RegionState
  pub paths : Dict PathState
  pub ring : RingBearerState
  pub saruman_disabled : Bool
  pub game_over : Bool
  pub winner : String
  pub ring_id : String
  pub mount_doom_id : String
  pub saruman_home_id : String

abbrev pub is_active : Status → Bool
is_active active = true
is_active _ = false

abbrev pub is_blocked : PathStatus → Bool
is_blocked blocked = true
is_blocked _ = false

unfoldable pub is_ring_bearer : UnitConfig → Bool
is_ring_bearer u = u.class == "RingBearer"

unfoldable pub is_ring : World → String → Bool
is_ring w id = id == w.ring_id

abbrev pub put_unit : World → String → UnitState → World
put_unit w id u = record w { units = insert w.units id u }

abbrev pub put_region : World → String → RegionState → World
put_region w id r = record w { regions = insert w.regions id r }

abbrev pub put_path : World → String → PathState → World
put_path w id p = record w { paths = insert w.paths id p }

-- The loops of `NewWorld`, and what one round writes.
unfoldable pub new_regions : List Region → Dict RegionState → Dict RegionState
new_regions [] m = m
new_regions (r ∷ rs) m = new_regions rs (
    insert m r.id (record {
      id = r.id;
      controlled_by = r.start_control;
      threat_level = r.start_threat;
      fortified = false;
      fortify_turns = 0;
      units = [];
    }))

unfoldable pub new_paths : List MapPath → Dict PathState → Dict PathState
new_paths [] m = m
new_paths (p ∷ ps) m = new_paths ps (
    insert m p.id (record {
      id = p.id;
      status = open_path;
      surveillance_level = 0;
      temp_open_turns = 0;
      blocked_by = "";
    }))

abbrev pub new_unit : UnitConfig → String → UnitState
new_unit u region = record {
  id = u.id;
  region = region;
  strength = u.strength;
  status = active;
  respawn_turns = 0;
  route = [];
  route_idx = 0;
  cooldown = 0;
}

-- `none` is the nil dereference of a start region that is not on the map.
unfoldable pub add_unit : World → UnitConfig → Option World
unfolding is_ring_bearer
add_unit w u =
    if is_ring_bearer u
    then some (
        put_unit (record w { ring = record w.ring { true_region = u.start_region } }) u.id
          (new_unit u ""))
    else elim (w.regions u.start_region) [
      | none ↦ none
      | some reg ↦ some (
          put_unit (put_region w u.start_region (record reg { units = reg.units ++ u.id ∷ [] }))
            u.id (new_unit u u.start_region))
    ]

unfoldable pub add_units : List UnitConfig → World → Option World
add_units [] w = some w
add_units (u ∷ us) w = elim (add_unit w u) [ none ↦ none | some w' ↦ add_units us w' ]

abbrev pub nonempty : List String → Bool
nonempty [] = false
nonempty (x ∷ xs) = true

-- `deriveIDs`
unfoldable pub derive_unit_ids : List UnitConfig → World → World
unfolding is_ring_bearer
derive_unit_ids [] w = w
derive_unit_ids (u ∷ us) w = derive_unit_ids us (
    if is_ring_bearer u
    then record w { ring_id = u.id }
    else if u.side == side_shadow && (u.maia && nonempty u.maia_ability_paths)
    then record w { saruman_home_id = u.start_region }
    else w)

unfoldable pub derive_region_ids : List Region → World → World
derive_region_ids [] w = w
derive_region_ids (r ∷ rs) w =
    derive_region_ids rs
      (if r.special_role == "RING_DESTRUCTION_SITE" then record w { mount_doom_id = r.id } else w)

unfoldable pub derive_ids : World → World
unfolding derive_unit_ids derive_region_ids
derive_ids w = derive_region_ids w.cfg.regions (derive_unit_ids w.cfg.units w)

-- The world before the units are placed.
unfoldable pub blank_world : Config → World
unfolding new_regions new_paths
blank_world cfg = record {
  cfg = cfg;
  turn = 1;
  units = empty;
  regions = new_regions cfg.regions empty;
  paths = new_paths cfg.paths empty;
  ring = record {
    true_region = "";
    exposed = false;
    route = [];
    route_idx = 0;
    last_detected_turn = none;
    last_detected_region = "";
  };
  saruman_disabled = false;
  game_over = false;
  winner = "";
  ring_id = "";
  mount_doom_id = "";
  saruman_home_id = "";
}

unfoldable pub new_world : Config → Option World
unfolding add_units add_unit derive_ids blank_world
new_world cfg = elim (add_units cfg.units (blank_world cfg)) [
  | none ↦ none
  | some w ↦ some (derive_ids w)
]
