-- ===== src/Analysis/Tests.antt =====
-- Concrete runs of option-b/internal/analysis.
use lotr_kafka_strategy_game.Prelude.{ℕ, String, ◌≡◌, ◌⊎◌, ◌^◌, List, [], ◌∷◌, length}
use lotr_kafka_strategy_game.Game.Samples.{start}
use lotr_kafka_strategy_game.Analysis.{regions_along, cumulative_costs, rank_routes}
use lotr_kafka_strategy_game.Analysis.Routes.{Ascends, cumulative_costs_lem}
use lotr_kafka_strategy_game.Analysis.Recommended.{HasRoute, NoneBelow, scored, rank_routes_lem}

abbrev route : List String
route = "east-road" ∷ "ford" ∷ []

cumulative_costs_lem_example :
    (length (cumulative_costs start "shire" route) ≡ length (regions_along start "shire" route))
    × Ascends 0 (cumulative_costs start "shire" route)
cumulative_costs_lem_example = cumulative_costs_lem start "shire" route

abbrev candidates : List (String × List String)
candidates = ("road", route) ∷ ("stay", []) ∷ []

rank_routes_lem_example :
    let r = rank_routes ("witch-king" ∷ []) start "shire" candidates in
    (r.routes ≡ scored ("witch-king" ∷ []) start "shire" candidates)
    × (((score : ℕ) × HasRoute r.recommended score r.routes × NoneBelow score r.routes)
        ⊎ NoneBelow (2 ^ 30) r.routes × (r.recommended ≡ ""))
rank_routes_lem_example = rank_routes_lem ("witch-king" ∷ []) start "shire" candidates
