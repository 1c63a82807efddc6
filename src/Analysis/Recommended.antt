-- ===== src/Analysis/Recommended.antt =====
-- Which route `RankRoutes` of option-b/internal/analysis/pipeline.go recommends.
use lotr_kafka_strategy_game.Prelude.{
  ℕ, ◌≤◌, ◌^◌, String, ◌≡◌, refl, sym, ap, ◌∙◌, ◌⊎◌, inl, inr, Bool-cases, List, [], ◌∷◌, ◌++◌,
  arith, All, ltb, All-append,
}
use lotr_kafka_strategy_game.Game.State.{World}
use lotr_kafka_strategy_game.Analysis.{RouteRisk, Ranking, score_route, rank, rank_all, rank_routes}

-- One of the routes has that name and that score.
abbrev pub HasRoute : String → ℕ → List RouteRisk → Type 0
HasRoute name score [] = ⊥
HasRoute name score (r ∷ rs) = (r.name ≡ name) × (r.score ≡ score) ⊎ HasRoute name score rs

abbrev pub NoneBelow : ℕ → List RouteRisk → Type 0
NoneBelow score rs = All (λ r. score ≤ r.score) rs

HasRoute-append :
    (name : String) (score : ℕ) (rs : List RouteRisk) (r : RouteRisk)
    → HasRoute name score rs ⊎ (r.name ≡ name) × (r.score ≡ score)
    → HasRoute name score (rs ++ r ∷ [])
HasRoute-append name score [] r h = ground (arith, h)
HasRoute-append name score (x ∷ rs) r h = ground (arith, h, HasRoute-append name score rs r)

NoneBelow-less : (m n : ℕ) (rs : List RouteRisk) → n ≤ m → NoneBelow m rs → NoneBelow n rs
NoneBelow-less m n [] le h = tt
NoneBelow-less m n (r ∷ rs) le h = (omega (arith, le, h.0), NoneBelow-less m n rs le h.1)

-- The best score so far is the lowest, and it is that of the best route or the initial bound.
record IsBest (k : Ranking) : Type 0 where
  lowest : NoneBelow k.best_score k.out.routes
  held : ((k.best_score ≡ 2 ^ 30) × (k.best ≡ "")) ⊎ HasRoute k.best k.best_score k.out.routes

rank-IsBest : (r : RouteRisk) (k : Ranking) → IsBest k → IsBest (rank r k)
unfolding rank
rank-IsBest r k h = elim (Bool-cases (ltb r.score k.best_score)) [
  | inl t ↦ record {
    lowest =
        rw (t, rank)
          (All-append (λ x. r.score ≤ x.score) k.out.routes (r ∷ [])
            (NoneBelow-less k.best_score r.score k.out.routes (ground arith) h.lowest)
            (omega arith, tt));
    held = rw (t, rank) (inr (HasRoute-append r.name r.score k.out.routes r (inr (refl, refl))));
  }
  | inr f ↦ record {
    lowest =
        rw (f, rank)
          (All-append (λ x. k.best_score ≤ x.score) k.out.routes (r ∷ []) h.lowest
            (ground arith, tt));
    held =
        rw (f, rank)
          (elim h.held [
            | inl none_yet ↦ inl none_yet
            | inr old ↦ inr (HasRoute-append k.best k.best_score k.out.routes r (inl old))
          ]);
  }
]

rank_all-IsBest :
    (ids : List String) (w : World) (start : String) (cs : List (String × List String))
    (k : Ranking)
    → IsBest k
    → IsBest (rank_all ids w start cs k)
unfolding rank_all
rank_all-IsBest ids w start [] k h = h
rank_all-IsBest ids w start ((name, pids) ∷ cs) k h =
    rank_all-IsBest ids w start cs (rank (score_route ids w name start pids) k)
      (rank-IsBest (score_route ids w name start pids) k h)

abbrev pub scored : List String → World → String → List (String × List String) → List RouteRisk
scored ids w start [] = []
scored ids w start ((name, pids) ∷ cs) = score_route ids w name start pids ∷ scored ids w start cs

append_nil {ℓ} : {A : Type ℓ} (xs : List A) → xs ++ [] ≡ xs
append_nil [] = refl
append_nil (x ∷ xs) = ap (λ t. x ∷ t) (append_nil xs)

append_one {ℓ} :
    {A : Type ℓ} (xs : List A) (y : A) (ys : List A) → (xs ++ y ∷ []) ++ ys ≡ xs ++ y ∷ ys
append_one [] y ys = refl
append_one (x ∷ xs) y ys = ap (λ t. x ∷ t) (append_one xs y ys)

rank_all-routes :
    (ids : List String) (w : World) (start : String) (cs : List (String × List String))
    (k : Ranking)
    → (rank_all ids w start cs k).out.routes ≡ k.out.routes ++ scored ids w start cs
unfolding rank_all rank
rank_all-routes ids w start [] k = sym (append_nil k.out.routes)
rank_all-routes ids w start ((name, pids) ∷ cs) k =
    rank_all-routes ids w start cs (rank (score_route ids w name start pids) k)
    ∙ append_one k.out.routes (score_route ids w name start pids) (scored ids w start cs)

-- Every candidate is scored, in the order of the range. The recommended route is one of the scored
-- routes, and none of them has a lower score; or none of them scores less than 2^30, and no route is
-- recommended.
pub rank_routes_lem :
    (ids : List String) (w : World) (start : String) (candidates : List (String × List String))
    → let r = rank_routes ids w start candidates in
      (r.routes ≡ scored ids w start candidates)
      × (((score : ℕ) × HasRoute r.recommended score r.routes × NoneBelow score r.routes)
          ⊎ NoneBelow (2 ^ 30) r.routes × (r.recommended ≡ ""))
unfolding rank_routes
rank_routes_lem ids w start candidates =
    let first : Ranking = record {
      out = record { routes = []; recommended = ""; warnings = [] };
      best = "";
      best_score = 2 ^ 30;
    } in
    let k = rank_all ids w start candidates first in
    let h =
      rank_all-IsBest ids w start candidates first
        (record { lowest = tt; held = inl (refl, refl) }) in
    (
      rank_all-routes ids w start candidates first,
      elim h.held [
        | inl (e, none_yet) ↦ inr (
          NoneBelow-less k.best_score (2 ^ 30) k.out.routes (omega (arith, e)) h.lowest,
          none_yet,
        )
        | inr has ↦ inl (k.best_score, has, h.lowest)
      ],
    )
