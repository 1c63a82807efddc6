-- ===== src/Game/Detection.antt =====
-- option-b/internal/game/detection.go: which hunters find the ring bearer at the end of a turn. The
-- loops over the units go over `ids`, the keys of the map in the order of the range.
pub mod Range
pub mod Hunters
use lotr_kafka_strategy_game.Prelude.{
  ℕ, ◌+◌, String, Bool, true, false, none, some, List, [], ◌∷◌, ◌&&◌, ◌==◌, if◌then◌else◌, ltb, leb,
}
use lotr_kafka_strategy_game.Config.{Region, unit_at, region_at}
use lotr_kafka_strategy_game.Config.MapGraph.{Hops, hops, hop_distance}
use lotr_kafka_strategy_game.Game.State.{UnitState, World, side_shadow, is_active}

pub record Detection : Type 0 where
  pub unit_id : String
  pub region : String
  pub turn : ℕ

unfoldable pub is_mordor : Region → Bool
is_mordor r = r.special_role == "SHADOW_STRONGHOLD" && r.terrain == "VOLCANIC"

-- The two tests that `eyeActive` makes of one unit.
unfoldable pub is_eye : World → String → UnitState → Bool
unfolding is_mordor
is_eye w id u =
    let cfg = unit_at w.cfg id in
    cfg.side == side_shadow
    && (cfg.maia && (cfg.indestructible && is_active u.status))
    && is_mordor (region_at w.cfg u.region)

unfoldable pub eye_active : List String → World → Bool
eye_active [] w = false
eye_active (id ∷ ids) w = elim (w.units id) [
  | none ↦ eye_active ids w
  | some u ↦ if is_eye w id u then true else eye_active ids w
]

-- `d >= 0 && d <= rng`
unfoldable pub within : Hops → ℕ → Bool
within (hops d) rng = leb d rng
within _ rng = false

-- Whether the unit `u` finds a ring bearer in `rb`: the tests of the loop's body.
unfoldable pub finds : World → ℕ → String → String → UnitState → Bool
unfolding within
finds w amp rb id u =
    let range = (unit_at w.cfg id).detection_range in
    is_active u.status && ltb 0 range && within (hop_distance w.cfg.graph u.region rb) (range + amp)

-- What a hunter that finds the ring bearer writes.
unfoldable pub expose : World → String → World
expose w rb = record w {
  ring = record w.ring {
    exposed = true;
    last_detected_turn = some w.turn;
    last_detected_region = rb;
  };
}

unfoldable pub detect_each : List String → ℕ → String → World → World × List Detection
unfolding finds expose
detect_each [] amp rb w = (w, [])
detect_each (id ∷ ids) amp rb w = elim (w.units id) [
  | none ↦ detect_each ids amp rb w
  | some u ↦ elim (finds w amp rb id u) [
    | true ↦
        let (w', found) = detect_each ids amp rb (expose w rb) in
        (w', record { unit_id = id; region = rb; turn = w.turn } ∷ found)
    | false ↦ detect_each ids amp rb w
  ]
]

-- The loop of `eyeActive` goes over `eye_ids`, the loop over the hunters over `ids`.
unfoldable pub run_detection : List String → List String → World → World × List Detection
unfolding detect_each eye_active is_eye
run_detection eye_ids ids w =
    if leb w.turn w.cfg.hidden_until_turn
    then (w, [])
    else if w.ring.true_region == ""
    then (w, [])
    else detect_each ids (if eye_active eye_ids w then 1 else 0) w.ring.true_region w
