-- ===== src/Analysis/Intercept/Total.antt =====
-- That `BuildInterceptPlan` (option-b/internal/analysis/intercept.go) returns, and what it reads.
use lotr_kafka_strategy_game.Prelude.{
  ℕ, ◌+◌, String, ◌≡◌, refl, ap, inl, inr, Option-cases, Bool-cases, Option, some, List, [], ◌∷◌,
  ◌&&◌, ◌==◌, arith, length,
}
use lotr_kafka_strategy_game.Config.{unit_at}
use lotr_kafka_strategy_game.Game.State.{RingBearerState, World, is_active}
use lotr_kafka_strategy_game.Game.Units.{other_end}
use lotr_kafka_strategy_game.Analysis.{regions_along, costs_from, cumulative_costs}
use lotr_kafka_strategy_game.Analysis.Routes.{cumulative_costs_lem}
use lotr_kafka_strategy_game.Analysis.Intercept.{
  Floats, CostDistance, InterceptEntry, intercept_score, last_cost, better, best_target, floored,
  with_entry, plan_each, build_intercept_plan,
}

module _ (fl : Floats) (cost : CostDistance) where
  best_target_returns :
      (away : String → Option ℕ) (n : ℕ) (rs : List String) (cs : List ℕ) (best : InterceptEntry)
      → length cs ≡ length rs
      → (e : InterceptEntry) × (best_target fl away n rs cs best ≡ some e)
  unfolding best_target
  best_target_returns away n [] cs best h = (best, refl)
  best_target_returns away n (r ∷ rs) [] best h = absurd (ground (arith, h))
  best_target_returns away n (r ∷ rs) (c ∷ cs) best h = elim (Option-cases (away r)) [
    | inl q ↦ rw (q, best_target) (best_target_returns away n rs cs best (ground (arith, h)))
    | inr (t, q) ↦
        rw (q, best_target)
          (best_target_returns away n rs cs (better fl r (intercept_score fl t c n) best)
            (ground (arith, h)))
  ]

  plan_each_returns :
      (ids : List String) (w : World) (rs : List String) (cs : List ℕ)
      → length cs ≡ length rs
      → (p : List InterceptEntry) × (plan_each fl cost ids w rs cs ≡ some p)
  unfolding plan_each
  plan_each_returns [] w rs cs h = ([], refl)
  plan_each_returns (id ∷ ids) w rs cs h =
      let (p, e) = plan_each_returns ids w rs cs h in
      elim (Option-cases (w.units id)) [
        | inl n ↦ rw (n, plan_each) (p, e)
        | inr (u, q) ↦
            elim (Bool-cases (is_active u.status && (unit_at w.cfg id).class == "Nazgul")) [
              | inr f ↦ rw (q, f, plan_each) (p, e)
              | inl t ↦
                  let (b, g) =
                    best_target_returns (cost w.cfg.graph u.region) (last_cost cs) rs cs
                      (record { unit_id = id; target_region = ""; score = fl.minus_one }) h in
                  rw (q, t, g, e, plan_each) (_, refl)
            ]
      ]

  -- No index is out of range.
  pub build_intercept_plan_returns :
      (ids : List String) (w : World) (start : String) (pids : List String)
      → (p : List InterceptEntry) × (build_intercept_plan fl cost ids w start pids ≡ some p)
  unfolding build_intercept_plan
  build_intercept_plan_returns ids w start pids =
      plan_each_returns ids w (regions_along w start pids) (cumulative_costs w start pids)
        (cumulative_costs_lem w start pids).0

  regions_along-ring :
      (x : RingBearerState) (w : World) (cur : String) (pids : List String)
      → regions_along (record w { ring = x }) cur pids ≡ regions_along w cur pids
  unfolding regions_along
  regions_along-ring x w cur [] = refl
  regions_along-ring x w cur (pid ∷ pids) = elim (Option-cases (w.cfg.path_by_id pid)) [
    | inl n ↦ rw (n, regions_along) refl
    | inr (p, e) ↦ elim (Option-cases (other_end p cur)) [
      | inl n ↦ rw (e, n, regions_along) refl
      | inr (next, q) ↦
          rw (e, q, regions_along) (ap (λ rs. next ∷ rs) (regions_along-ring x w next pids))
    ]
  ]

  costs_from-ring :
      (x : RingBearerState) (w : World) (cur : String) (total : ℕ) (pids : List String)
      → costs_from (record w { ring = x }) cur total pids ≡ costs_from w cur total pids
  unfolding costs_from
  costs_from-ring x w cur total [] = refl
  costs_from-ring x w cur total (pid ∷ pids) = elim (Option-cases (w.cfg.path_by_id pid)) [
    | inl n ↦ rw (n, costs_from) refl
    | inr (p, e) ↦ elim (Option-cases (other_end p cur)) [
      | inl n ↦ rw (e, n, costs_from) refl
      | inr (next, q) ↦
          rw (e, q, costs_from)
            (ap (λ cs. (total + p.cost) ∷ cs) (costs_from-ring x w next (total + p.cost) pids))
    ]
  ]

  plan_each-ring :
      (ids : List String) (x : RingBearerState) (w : World) (rs : List String) (cs : List ℕ)
      → plan_each fl cost ids (record w { ring = x }) rs cs ≡ plan_each fl cost ids w rs cs
  unfolding plan_each
  plan_each-ring [] x w rs cs = refl
  plan_each-ring (id ∷ ids) x w rs cs = elim (Option-cases (w.units id)) [
    | inl n ↦ rw (n, plan_each) (plan_each-ring ids x w rs cs)
    | inr (u, q) ↦ elim (Bool-cases (is_active u.status && (unit_at w.cfg id).class == "Nazgul")) [
      | inr f ↦ rw (q, f, plan_each) (plan_each-ring ids x w rs cs)
      | inl t ↦
          let unscored : InterceptEntry = record {
            unit_id = id;
            target_region = "";
            score = fl.minus_one;
          } in
          elim (Option-cases
            (best_target fl (cost w.cfg.graph u.region) (last_cost cs) rs cs unscored)) [
              | inl m ↦ rw (q, t, m, plan_each) refl
              | inr (b, g) ↦
                  rw (q, t, g, plan_each)
                    (ap (with_entry (floored fl b)) (plan_each-ring ids x w rs cs))
            ]
    ]
  ]

  -- The plan does not depend on where the ring bearer is.
  pub build_intercept_plan-ring :
      (ids : List String) (x : RingBearerState) (w : World) (start : String) (pids : List String)
      → build_intercept_plan fl cost ids (record w { ring = x }) start pids
        ≡ build_intercept_plan fl cost ids w start pids
  unfolding build_intercept_plan cumulative_costs
  build_intercept_plan-ring ids x w start pids =
      rw
        (
          regions_along-ring x w start pids,
          costs_from-ring x w start 0 pids,
          build_intercept_plan,
          cumulative_costs,
        )
        (plan_each-ring ids x w (regions_along w start pids) (costs_from w start 0 pids))
