-- ===== src/Analysis/Intercept.antt =====
-- `BuildInterceptPlan` and `InterceptScore` of option-b/internal/analysis/intercept.go. A float64 is its
-- bit pattern, and its arithmetic is a parameter. `CostDistance` of config/graph.go is any function:
-- what is proved holds for each.
pub mod Total
use lotr_kafka_strategy_game.Prelude.{
  ℕ, ◌+◌, String, ◌≡◌, refl, ap, inl, inr, Bool, true, false, Option-cases, Bool-cases, Option,
  none, some, List, [], ◌∷◌, ◌&&◌, ◌==◌, if◌then◌else◌, eqb, leb, arith, length,
}
use lotr_kafka_strategy_game.Config.{Graph, unit_at}
use lotr_kafka_strategy_game.Game.State.{RingBearerState, UnitState, World, is_active}
use lotr_kafka_strategy_game.Game.Units.{other_end}
use lotr_kafka_strategy_game.Analysis.{regions_along, costs_from, cumulative_costs}
use lotr_kafka_strategy_game.Analysis.Routes.{cumulative_costs_lem}

-- The constants, `1.0 - float64(a)/float64(b)`, and the test `a > b`.
pub record Floats : Type 0 where
  pub zero : ℕ
  pub minus_one : ℕ
  pub one_minus_ratio : ℕ → ℕ → ℕ
  pub exceeds : ℕ → ℕ → Bool

-- `none` for the distance -1.
abbrev pub CostDistance : Type 0
CostDistance = Graph → String → String → Option ℕ

pub record InterceptEntry : Type 0 where
  pub unit_id : String
  pub target_region : String
  pub score : ℕ

-- `InterceptScore`
unfoldable pub intercept_score : Floats → ℕ → ℕ → ℕ → ℕ
intercept_score fl turns_to_intercept rb_turns_to_reach route_length =
    if eqb route_length 0
    then fl.zero
    else if leb turns_to_intercept rb_turns_to_reach
    then fl.one_minus_ratio turns_to_intercept route_length
    else fl.zero

abbrev pub last_cost : List ℕ → ℕ
last_cost [] = 0
last_cost (c ∷ cs) = elim cs [ [] ↦ c | _ ↦ last_cost cs ]

abbrev pub rest_of : List ℕ → List ℕ
rest_of [] = []
rest_of (c ∷ cs) = cs

abbrev pub better : Floats → String → ℕ → InterceptEntry → InterceptEntry
better fl region s best =
    if fl.exceeds s best.score then record best { score = s; target_region = region } else best

-- The inner loop, over the regions with the costs behind `costs[i]`; `none` is an index out of range.
unfoldable pub best_target :
    Floats → (String → Option ℕ) → ℕ → List String → List ℕ → InterceptEntry → Option InterceptEntry
unfolding intercept_score
best_target fl away route_length [] costs best = some best
best_target fl away route_length (r ∷ rs) costs best = elim (away r) [
  | none ↦ best_target fl away route_length rs (rest_of costs) best
  | some tti ↦ elim costs [
    | [] ↦ none
    | c ∷ cs ↦
        best_target fl away route_length rs cs
          (better fl r (intercept_score fl tti c route_length) best)
  ]
]

abbrev pub floored : Floats → InterceptEntry → InterceptEntry
floored fl best = if fl.exceeds fl.zero best.score then record best { score = fl.zero } else best

abbrev pub with_entry : InterceptEntry → Option (List InterceptEntry) → Option (List InterceptEntry)
with_entry e none = none
with_entry e (some rest) = some (e ∷ rest)

-- The outer loop: `ids` gives the order of the range over the units.
unfoldable pub plan_each :
    Floats
    → CostDistance
    → List String
    → World
    → List String
    → List ℕ
    → Option (List InterceptEntry)
unfolding best_target
plan_each fl cost [] w regions costs = some []
plan_each fl cost (id ∷ ids) w regions costs = elim (w.units id) [
  | none ↦ plan_each fl cost ids w regions costs
  | some u ↦
      if is_active u.status && (unit_at w.cfg id).class == "Nazgul"
      then elim (best_target fl (cost w.cfg.graph u.region) (last_cost costs) regions costs
          (record { unit_id = id; target_region = ""; score = fl.minus_one })) [
            | none ↦ none
            | some best ↦ with_entry (floored fl best) (plan_each fl cost ids w regions costs)
          ]
      else plan_each fl cost ids w regions costs
]

unfoldable pub build_intercept_plan :
    Floats
    → CostDistance
    → List String
    → World
    → String
    → List String
    → Option (List InterceptEntry)
unfolding plan_each regions_along cumulative_costs
build_intercept_plan fl cost ids w start pids =
    plan_each fl cost ids w (regions_along w start pids) (cumulative_costs w start pids)
