-- ===== src/Engine/Hub/Views.antt =====
-- option-b/internal/engine/hub.go: the hub at the start, and its answers to requests.
use lotr_kafka_strategy_game.Prelude.{
  String, false, Option, none, some, List, [], ◌∷◌, ◌==◌, if◌then◌else◌, get_or, Dict,
}
use lotr_kafka_strategy_game.Config.{MapPath, Config, unit_at}
use lotr_kafka_strategy_game.Config.MapGraph.{edge_between}
use lotr_kafka_strategy_game.Game.State.{PathState, World, new_world}
use lotr_kafka_strategy_game.Analysis.{RankedRoutes, rank_routes}
use lotr_kafka_strategy_game.Analysis.Intercept.{
  Floats, CostDistance, InterceptEntry, build_intercept_plan,
}
use lotr_kafka_strategy_game.Engine.Recover.{build_world_from_recover}
use lotr_kafka_strategy_game.Engine.Messages.{PathSnap, ApiState}
use lotr_kafka_strategy_game.Engine.Publish.{snap_regions, snap_units}
use lotr_kafka_strategy_game.Engine.Hub.{player_dark, Hub}

unfoldable pub snap_paths : Dict PathState → List MapPath → Option (List PathSnap)
snap_paths m [] = some []
snap_paths m (p ∷ ps) = elim (m p.id) [
  | none ↦ none
  | some s ↦ elim (snap_paths m ps) [
    | none ↦ none
    | some rest ↦ some (
        record {
          path_id = p.id;
          status = s.status;
          surveillance_level = s.surveillance_level;
          temp_open_turns = s.temp_open_turns;
        }
        ∷ rest)
  ]
]

unfoldable pub build_state_view : String → Hub → Option ApiState
unfolding snap_regions snap_units snap_paths
build_state_view side h = elim (snap_regions h.cache.regions h.cfg.regions) [
  | none ↦ none
  | some regions ↦ elim (snap_units h.cache.units h.cfg.units) [
    | none ↦ none
    | some units ↦ elim (snap_paths h.cache.paths h.cfg.paths) [
      | none ↦ none
      | some paths ↦ some (record {
        turn = h.cache.turn;
        ring_bearer_region = if side == player_dark then "" else h.light_ring_region;
        units = units;
        regions = regions;
        paths = paths;
        winner = h.winner;
        game_over = h.game_over;
        started = h.started;
      })
    ]
  ]
]

-- `cloneWorld`; the inner `none` is nil.
unfoldable pub clone_world : List String → Hub → Option (Option World)
unfolding build_world_from_recover
clone_world ids h = elim h.last_recover [
  | none ↦ some none
  | some rs ↦ elim (build_world_from_recover ids h.cfg rs) [ none ↦ none | some w ↦ some (some w) ]
]

abbrev pub ring_start : Hub → String → String
ring_start h region = if region == "" then (unit_at h.cfg "ring-bearer").start_region else region

-- The entries of the range over the canonical routes.
abbrev pub entries : Dict (List String) → List String → List (String × List String)
entries m [] = []
entries m (name ∷ names) = elim (m name) [
  | none ↦ entries m names
  | some pids ↦ (name, pids) ∷ entries m names
]

-- What an analysis takes besides the hub: the orders of its ranges over the units and the routes, the
-- arithmetic of float64, and `CostDistance`.
pub record Analyst : Type 0 where
  pub ids : List String
  pub names : List String
  pub floats : Floats
  pub cost_distance : CostDistance

-- The branch of `analyze` for interception; `none` is a panic.
unfoldable pub analyze_intercept : Analyst → Hub → Option (List InterceptEntry)
unfolding build_intercept_plan
analyze_intercept a h =
    build_intercept_plan a.floats a.cost_distance a.ids h.cache
      (ring_start h h.last_detected_region) (get_or h.canonical "Fellowship" [])

-- The other branch.
unfoldable pub analyze_routes : Analyst → Hub → RankedRoutes
unfolding rank_routes
analyze_routes a h =
    rank_routes a.ids h.cache (ring_start h h.light_ring_region) (entries h.canonical a.names)

pub data Analysis : Type 0 where
  plan : List InterceptEntry → Analysis
  ranked : RankedRoutes → Analysis

-- `analyze`
unfoldable pub analyze : String → Analyst → Hub → Option Analysis
unfolding analyze_intercept analyze_routes
analyze kind a h =
    if kind == "intercept"
    then elim (analyze_intercept a h) [ none ↦ none | some p ↦ some (plan p) ]
    else some (ranked (analyze_routes a h))

-- The loop over the regions of one walk.
unfoldable pub walk_paths : Config → List String → List String
unfolding edge_between
walk_paths cfg [] = []
walk_paths cfg (r ∷ rest) = elim rest [
  | [] ↦ []
  | r' ∷ _ ↦ elim (edge_between cfg.graph r r') [
    | none ↦ walk_paths cfg rest
    | some edge ↦ edge.path_id ∷ walk_paths cfg rest
  ]
]

abbrev pub walks : Dict (List String)
walks name =
    if name == "Fellowship"
    then some (
        "the-shire" ∷ "bree" ∷ "weathertop" ∷ "rivendell" ∷ "moria" ∷ "lothlorien" ∷ "emyn-muil"
        ∷ "ithilien" ∷ "cirith-ungol" ∷ "mount-doom" ∷ [])
    else if name == "Northern Bypass"
    then some (
        "the-shire" ∷ "bree" ∷ "rivendell" ∷ "lothlorien" ∷ "emyn-muil" ∷ "dead-marshes"
        ∷ "ithilien" ∷ "cirith-ungol" ∷ "mount-doom" ∷ [])
    else if name == "Dark Route"
    then some (
        "the-shire" ∷ "bree" ∷ "rivendell" ∷ "lothlorien" ∷ "emyn-muil" ∷ "dead-marshes" ∷ "mordor"
        ∷ "mount-doom" ∷ [])
    else if name == "Southern Corridor"
    then some (
        "the-shire" ∷ "tharbad" ∷ "fords-of-isen" ∷ "edoras" ∷ "minas-tirith" ∷ "osgiliath"
        ∷ "minas-morgul" ∷ "cirith-ungol" ∷ "mount-doom" ∷ [])
    else none

unfoldable pub canonical_route_paths : Config → Dict (List String)
unfolding walk_paths
canonical_route_paths cfg name = elim (walks name) [
  | none ↦ none
  | some regions ↦ some (walk_paths cfg regions)
]

-- `none` is a panic of `NewWorld`.
unfoldable pub new_hub : Config → Option Hub
unfolding new_world canonical_route_paths
new_hub cfg = elim (new_world cfg) [
  | none ↦ none
  | some w ↦ some (record {
    cfg = cfg;
    light = [];
    dark = [];
    closed = [];
    cache = w;
    last_recover = none;
    started = false;
    game_over = false;
    winner = "";
    light_ring_region = "";
    last_detected_region = "";
    canonical = canonical_route_paths cfg;
  })
]
