-- ===== src/Analysis.antt =====
-- option-b/internal/analysis/pipeline.go and the route costs of intercept.go: the risk of a route and the
-- ranking of candidate routes. A range over a map goes over a list of its keys or entries. The sums are
-- unbounded naturals.
mod Warnings
pub mod Routes
pub mod Recommended
pub mod Intercept
mod Tests
use lotr_kafka_strategy_game.Prelude.{
  ℕ, ◌+◌, ◌*◌, ◌^◌, String, Bool, true, false, Option, none, some, List, [], ◌∷◌, ◌++◌, ◌&&◌, ◌==◌,
  if◌then◌else◌, ltb, Dict,
}
use lotr_kafka_strategy_game.Config.{unit_at}
use lotr_kafka_strategy_game.Config.MapGraph.{hop_distance}
use lotr_kafka_strategy_game.Game.State.{
  PathStatus, blocked, threatened, PathState, World, is_active,
}
use lotr_kafka_strategy_game.Game.Units.{other_end}
use lotr_kafka_strategy_game.Analysis.Warnings.{blocked_warning}
use lotr_kafka_strategy_game.Game.Detection.{within}

pub record RouteRisk : Type 0 where
  pub name : String
  pub path_ids : List String
  pub score : ℕ
  pub blocked_paths : List String
  pub threatened_paths : List String

pub record RankedRoutes : Type 0 where
  pub routes : List RouteRisk
  pub recommended : String
  pub warnings : List String

unfoldable pub regions_along : World → String → List String → List String
regions_along w cur [] = []
regions_along w cur (pid ∷ pids) = elim (w.cfg.path_by_id pid) [
  | none ↦ []
  | some p ↦ elim (other_end p cur) [ none ↦ [] | some next ↦ next ∷ regions_along w next pids ]
]

-- `cumulativeCosts`, with the running total.
unfoldable pub costs_from : World → String → ℕ → List String → List ℕ
costs_from w cur total [] = []
costs_from w cur total (pid ∷ pids) = elim (w.cfg.path_by_id pid) [
  | none ↦ []
  | some p ↦ elim (other_end p cur) [
    | none ↦ []
    | some next ↦ (total + p.cost) ∷ costs_from w next (total + p.cost) pids
  ]
]

unfoldable pub cumulative_costs : World → String → List String → List ℕ
unfolding costs_from
cumulative_costs w start pids = costs_from w start 0 pids

unfoldable pub threat_along : World → List String → ℕ → ℕ
threat_along w [] score = score
threat_along w (r ∷ rs) score =
    threat_along w rs (elim (w.regions r) [ none ↦ score | some reg ↦ score + reg.threat_level ])

-- The variables of the second loop of `ScoreRoute`.
pub record PathRisk : Type 0 where
  pub score : ℕ
  pub blocked_paths : List String
  pub threatened_paths : List String

-- The `switch` on the status of the path `pid`.
unfoldable pub add_status : PathStatus → String → PathRisk → PathRisk
add_status blocked pid r = record r {
  score = r.score + 5;
  blocked_paths = r.blocked_paths ++ pid ∷ [];
}
add_status threatened pid r = record r {
  score = r.score + 2;
  threatened_paths = r.threatened_paths ++ pid ∷ [];
}
add_status _ pid r = r

unfoldable pub path_risk : World → List String → PathRisk → PathRisk
unfolding add_status
path_risk w [] r = r
path_risk w (pid ∷ pids) r = path_risk w pids (elim (w.paths pid) [
  | none ↦ r
  | some p ↦ add_status p.status pid (record r { score = r.score + p.surveillance_level * 3 })
])

-- The inner loop of `nazgulProximity`.
unfoldable pub is_near : World → String → List String → Bool
is_near w region [] = false
is_near w region (r ∷ rs) =
    if within (hop_distance w.cfg.graph region r) 2 then true else is_near w region rs

unfoldable pub nazgul_proximity : List String → World → List String → ℕ
unfolding is_near
nazgul_proximity [] w regions = 0
nazgul_proximity (id ∷ ids) w regions = elim (w.units id) [
  | none ↦ nazgul_proximity ids w regions
  | some u ↦
      (if is_active u.status && ((unit_at w.cfg id).class == "Nazgul" && is_near w u.region regions)
        then 1
        else 0)
      + nazgul_proximity ids w regions
]

-- `ids` gives the order of the range over the units.
unfoldable pub score_route : List String → World → String → String → List String → RouteRisk
unfolding regions_along threat_along path_risk nazgul_proximity
score_route ids w name start pids =
    let regions = regions_along w start pids in
    let risk =
      path_risk w pids
        (record { score = threat_along w regions 0; blocked_paths = []; threatened_paths = [] }) in
    record {
      name = name;
      path_ids = pids;
      score = risk.score + nazgul_proximity ids w (start ∷ regions) * 2;
      blocked_paths = risk.blocked_paths;
      threatened_paths = risk.threatened_paths;
    }

-- The variables of the loop of `RankRoutes`.
pub record Ranking : Type 0 where
  pub out : RankedRoutes
  pub best : String
  pub best_score : ℕ

abbrev pub warn : RouteRisk → List String → List String
warn rr ws = elim rr.blocked_paths [ [] ↦ ws | b ∷ bs ↦ ws ++ rr.name ∷ [] ]

-- One round, for a candidate that is scored.
unfoldable pub rank : RouteRisk → Ranking → Ranking
rank rr k = record {
  out = record k.out { routes = k.out.routes ++ rr ∷ []; warnings = warn rr k.out.warnings };
  best = if ltb rr.score k.best_score then rr.name else k.best;
  best_score = if ltb rr.score k.best_score then rr.score else k.best_score;
}

-- A candidate is its name and its paths.
unfoldable pub rank_all :
    List String → World → String → List (String × List String) → Ranking → Ranking
unfolding rank score_route
rank_all ids w start [] k = k
rank_all ids w start ((name, pids) ∷ cs) k =
    rank_all ids w start cs (rank (score_route ids w name start pids) k)

unfoldable pub rank_routes :
    List String → World → String → List (String × List String) → RankedRoutes
unfolding rank_all
rank_routes ids w start candidates =
    let k = rank_all ids w start candidates (record {
      out = record { routes = []; recommended = ""; warnings = [] };
      best = "";
      best_score = 2 ^ 30;
    }) in
    record k.out { recommended = k.best }
