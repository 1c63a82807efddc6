-- ===== src/Analysis/Routes.antt =====
-- The regions of a route and the costs to reach them (option-b/internal/analysis/pipeline.go and
-- intercept.go).
use lotr_kafka_strategy_game.Prelude.{
  ℕ, ◌+◌, ◌≤◌, String, ◌≡◌, refl, inl, inr, Option-cases, List, [], ◌∷◌, arith, length,
}
use lotr_kafka_strategy_game.Game.State.{World}
use lotr_kafka_strategy_game.Game.Units.{other_end}
use lotr_kafka_strategy_game.Analysis.{regions_along, costs_from, cumulative_costs}

costs_from-length :
    (w : World) (cur : String) (total : ℕ) (pids : List String)
    → length (costs_from w cur total pids) ≡ length (regions_along w cur pids)
unfolding costs_from regions_along
costs_from-length w cur total [] = refl
costs_from-length w cur total (pid ∷ pids) = elim (Option-cases (w.cfg.path_by_id pid)) [
  | inl n ↦ rw (n, costs_from, regions_along) refl
  | inr (p, e) ↦ elim (Option-cases (other_end p cur)) [
    | inl n ↦ rw (e, n, costs_from, regions_along) refl
    | inr (next, q) ↦
        rw (e, q, costs_from, regions_along)
          (ground (arith, costs_from-length w next (total + p.cost) pids))
  ]
]

-- Each number is at least the one before it, and the first at least the given one.
abbrev pub Ascends : ℕ → List ℕ → Type 0
Ascends n [] = Unit
Ascends n (c ∷ cs) = (n ≤ c) × Ascends c cs

costs_from-Ascends :
    (w : World) (cur : String) (total : ℕ) (pids : List String)
    → Ascends total (costs_from w cur total pids)
unfolding costs_from
costs_from-Ascends w cur total [] = tt
costs_from-Ascends w cur total (pid ∷ pids) = elim (Option-cases (w.cfg.path_by_id pid)) [
  | inl n ↦ rw (n, costs_from) tt
  | inr (p, e) ↦ elim (Option-cases (other_end p cur)) [
    | inl n ↦ rw (e, n, costs_from) tt
    | inr (next, q) ↦
        rw (e, q, costs_from) (omega arith, costs_from-Ascends w next (total + p.cost) pids)
  ]
]

-- There is one cost for each region of a route, so that the interception plan's `costs[i]` is never
-- out of range, and the costs never fall along the route.
pub cumulative_costs_lem :
    (w : World) (start : String) (pids : List String)
    → (length (cumulative_costs w start pids) ≡ length (regions_along w start pids))
      × Ascends 0 (cumulative_costs w start pids)
unfolding cumulative_costs
cumulative_costs_lem w start pids =
    (costs_from-length w start 0 pids, costs_from-Ascends w start 0 pids)
