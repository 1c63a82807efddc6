-- ===== src/Engine/Recover.antt =====
-- option-b/internal/engine/recover.go: the record of a world that a promoted leader reads, and the
-- world built back from it. Writing the record as JSON and reading it is not modelled. A loop over
-- a map that touches the entry of its key alone is written entry by entry.
pub mod RoundTrip
pub mod Residents
mod Tests
use lotr_kafka_strategy_game.Prelude.{
  ℕ, String, Bool, not, Option, none, some, List, [], ◌∷◌, ◌++◌, ◌&&◌, ◌==◌, if◌then◌else◌, Dict,
  insert,
}
use lotr_kafka_strategy_game.Config.{Config, unit_at}
use lotr_kafka_strategy_game.Game.State.{
  Status, PathStatus, UnitState, RegionState, PathState, World, is_active, new_world,
}

pub record RecoverUnit : Type 0 where
  pub region : String
  pub strength : ℕ
  pub status : Status
  pub route : List String
  pub route_idx : ℕ
  pub cooldown : ℕ
  pub respawn_turns : ℕ

pub record RecoverRegion : Type 0 where
  pub controlled_by : String
  pub threat_level : ℕ
  pub fortified : Bool
  pub fortify_turns : ℕ

pub record RecoverPath : Type 0 where
  pub status : PathStatus
  pub surveillance_level : ℕ
  pub temp_open_turns : ℕ
  pub blocked_by : String

pub record RecoverState : Type 0 where
  pub turn : ℕ
  pub game_over : Bool
  pub winner : String
  pub saruman_disabled : Bool
  pub ring_region : String
  pub ring_route : List String
  pub ring_route_idx : ℕ
  pub ring_exposed : Bool
  pub units : Dict RecoverUnit
  pub regions : Dict RecoverRegion
  pub paths : Dict RecoverPath

abbrev pub recover_unit : UnitState → RecoverUnit
recover_unit u = record {
  region = u.region;
  strength = u.strength;
  status = u.status;
  route = u.route;
  route_idx = u.route_idx;
  cooldown = u.cooldown;
  respawn_turns = u.respawn_turns;
}

abbrev pub recover_region : RegionState → RecoverRegion
recover_region r = record {
  controlled_by = r.controlled_by;
  threat_level = r.threat_level;
  fortified = r.fortified;
  fortify_turns = r.fortify_turns;
}

abbrev pub recover_path : PathState → RecoverPath
recover_path p = record {
  status = p.status;
  surveillance_level = p.surveillance_level;
  temp_open_turns = p.temp_open_turns;
  blocked_by = p.blocked_by;
}

-- `for k, v := range m { out[k] = f(v) }` into an empty map.
abbrev pub each_entry {ℓ κ} : {V : Type ℓ} {W : Type κ} → (V → W) → Dict V → Dict W
each_entry f m k = elim (m k) [ none ↦ none | some v ↦ some (f v) ]

unfoldable pub build_recover_state : World → RecoverState
build_recover_state w = record {
  turn = w.turn;
  game_over = w.game_over;
  winner = w.winner;
  saruman_disabled = w.saruman_disabled;
  ring_region = w.ring.true_region;
  ring_route = w.ring.route;
  ring_route_idx = w.ring.route_idx;
  ring_exposed = w.ring.exposed;
  units = each_entry recover_unit w.units;
  regions = each_entry recover_region w.regions;
  paths = each_entry recover_path w.paths;
}

abbrev pub restore_unit : RecoverUnit → UnitState → UnitState
restore_unit ru u = record u {
  region = ru.region;
  strength = ru.strength;
  status = ru.status;
  route = ru.route;
  route_idx = ru.route_idx;
  cooldown = ru.cooldown;
  respawn_turns = ru.respawn_turns;
}

abbrev pub restore_region : RecoverRegion → RegionState → RegionState
restore_region rr r = record r {
  controlled_by = rr.controlled_by;
  threat_level = rr.threat_level;
  fortified = rr.fortified;
  fortify_turns = rr.fortify_turns;
  units = [];
}

abbrev pub restore_path : RecoverPath → PathState → PathState
restore_path rp p = record p {
  status = rp.status;
  surveillance_level = rp.surveillance_level;
  temp_open_turns = rp.temp_open_turns;
  blocked_by = rp.blocked_by;
}

-- `for k, r := range saved { if v := m[k]; v != nil { … } }`
abbrev pub restore_entries {ℓ κ} :
    {V : Type ℓ} {R : Type κ} → (R → V → V) → Dict R → Dict V → Dict V
restore_entries f saved m k = elim (m k) [
  | none ↦ none
  | some v ↦ elim (saved k) [ none ↦ some v | some r ↦ some (f r v) ]
]

-- Whether the last loop lists a unit in its region.
unfoldable pub stands : Config → String → UnitState → Bool
stands cfg id u =
    is_active u.status && (not (u.region == "") && not ((unit_at cfg id).class == "RingBearer"))

-- The body of the last loop, for the unit `id`.
unfoldable pub add_resident : Config → String → UnitState → Dict RegionState → Dict RegionState
unfolding stands
add_resident cfg id u m =
    if stands cfg id u
    then elim (m u.region) [
      | none ↦ m
      | some r ↦ insert m u.region (record r { units = r.units ++ id ∷ [] })
    ]
    else m

-- The last loop: `ids` are the keys of the units, in the order of the range.
unfoldable pub add_residents :
    Config → Dict UnitState → List String → Dict RegionState → Dict RegionState
unfolding add_resident
add_residents cfg units [] m = m
add_residents cfg units (id ∷ ids) m =
    add_residents cfg units ids (elim (units id) [ none ↦ m | some u ↦ add_resident cfg id u m ])

-- What the loops and the assignments do to the new world.
unfoldable pub restore : List String → Config → RecoverState → World → World
unfolding add_residents
restore ids cfg rs w =
    let units = restore_entries restore_unit rs.units w.units in
    record w {
      turn = rs.turn;
      game_over = rs.game_over;
      winner = rs.winner;
      saruman_disabled = rs.saruman_disabled;
      ring = record w.ring {
        true_region = rs.ring_region;
        route = rs.ring_route;
        route_idx = rs.ring_route_idx;
        exposed = rs.ring_exposed;
      };
      units = units;
      regions = add_residents cfg units ids (restore_entries restore_region rs.regions w.regions);
      paths = restore_entries restore_path rs.paths w.paths;
    }

-- `none` is the panic of `NewWorld`.
unfoldable pub build_world_from_recover : List String → Config → RecoverState → Option World
unfolding restore
build_world_from_recover ids cfg rs = elim (new_world cfg) [
  | none ↦ none
  | some w ↦ some (restore ids cfg rs w)
]
