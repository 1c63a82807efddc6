-- ===== src/Api/Offers.antt =====
-- What GET /orders/available offers (option-b/internal/api/server.go), and what order validation says of it.
use lotr_kafka_strategy_game.Prelude.{
  String, ◌≡◌, refl, sym, ◌⊎◌, inl, inr, true, not, some, List, [], ◌∷◌, ◌==◌, ◌||◌, arith, eq_iff,
  All, Option-cases, Bool-cases, subst,
}
use lotr_kafka_strategy_game.Config.{UnitConfig, MapPath, Config}
use lotr_kafka_strategy_game.Game.State.{is_ring_bearer, side_shadow}
use lotr_kafka_strategy_game.Game.Order.{block_path, search_path}
use lotr_kafka_strategy_game.Game.Validate.{ValidationState, unit_view, lookups, player_side}
use lotr_kafka_strategy_game.Game.Validate.Rules.{EndpointRule}
use lotr_kafka_strategy_game.Engine.Messages.{ApiState}
use lotr_kafka_strategy_game.Api.{
  OrderOption, Around, touches, around, common_options, class_options, options_in, available_orders,
  unit_region, mount_doom,
}

-- Every path stands under its id.
abbrev pub IsIndexed : Config → List MapPath → Type 0
IsIndexed cfg ps = All (λ p. cfg.path_by_id p.id ≡ some p) ps

-- The targets of an offer to block or to search pass the rule on the ends of paths.
abbrev pub IsOffer : Config → ValidationState → String → OrderOption → Type 0
IsOffer cfg st unit opt = elim opt.order_type [
  | block_path ↦ All (EndpointRule (lookups cfg) st unit) opt.targets
  | search_path ↦ All (EndpointRule (lookups cfg) st unit) opt.targets
  | _ ↦ Unit
]

module _ (cfg : Config) (st : ValidationState) (unit : String) (api : ApiState) where
  touches-ends :
      (region : String) (p : MapPath)
      → touches region p ≡ true
      → (region ≡ p.from) ⊎ (region ≡ p.to)
  touches-ends region p h = ground (arith, eq_iff p.from region, eq_iff p.to region)

  around-endpoint :
      (side region : String) (ps : List MapPath)
      → (unit_view st unit).region ≡ region
      → IsIndexed cfg ps
      → All (EndpointRule (lookups cfg) st unit) (around api side region ps).paths
  unfolding around lookups
  around-endpoint side region [] here h = tt
  around-endpoint side region (p ∷ ps) here (h, hs) = elim (Bool-cases (touches region p)) [
    | inr f ↦ rw (f, around) (around-endpoint side region ps here hs)
    | inl t ↦
        rw (t, around)
          (
            (
              p.from,
              p.to,
              rw (h, lookups) refl,
              subst (λ r. (r ≡ p.from) ⊎ (r ≡ p.to)) (sym here) (touches-ends region p t),
            ),
            around-endpoint side region ps here hs,
          )
  ]

  common_options-IsOffer :
      (u : UnitConfig) (a : Around)
      → All (EndpointRule (lookups cfg) st unit) a.paths
      → All (IsOffer cfg st unit) (common_options u a)
  unfolding common_options
  common_options-IsOffer u a h = elim (Bool-cases (u.side == side_shadow)) [
    | inl s ↦ elim (Bool-cases u.can_fortify) [
      | inl f ↦ rw (s, f, common_options) (h, (tt, (tt, (h, (tt, (tt, tt))))))
      | inr f ↦ rw (s, f, common_options) (h, (tt, (tt, (h, (tt, tt)))))
    ]
    | inr s ↦ elim (Bool-cases u.can_fortify) [
      | inl f ↦ rw (s, f, common_options) (h, (tt, (tt, (tt, tt))))
      | inr f ↦ rw (s, f, common_options) (h, (tt, (tt, tt)))
    ]
  ]

  class_options-IsOffer :
      (u : UnitConfig) (region : String) (a : Around)
      → All (EndpointRule (lookups cfg) st unit) a.paths
      → All (IsOffer cfg st unit) (class_options cfg u region a)
  unfolding class_options
  class_options-IsOffer u region a h = elim (Bool-cases (is_ring_bearer u)) [
    | inl b ↦ elim (Bool-cases (region == mount_doom cfg.regions)) [
      | inl d ↦ rw (b, d, class_options) (tt, tt)
      | inr d ↦ rw (b, d, class_options) tt
    ]
    | inr b ↦ elim (Bool-cases u.maia) [
      | inl m ↦ rw (b, m, class_options) (tt, tt)
      | inr m ↦ rw (b, m, class_options) (common_options-IsOffer u a h)
    ]
  ]

  -- With the paths of the map under their ids, and a unit that stands where the validator sees it:
  -- every path that the answer offers to block or to search passes the validator's rule on the ends of
  -- paths for that unit.
  pub available_orders-IsOffer :
      (player : String)
      → IsIndexed cfg cfg.paths
      → (unit_view st unit).region ≡ unit_region api cfg unit
      → All (IsOffer cfg st unit) (available_orders api cfg unit player)
  unfolding available_orders options_in
  available_orders-IsOffer player indexed here = elim (Option-cases (cfg.unit_by_id unit)) [
    | inl n ↦ rw (n, available_orders) tt
    | inr (u, e) ↦
        elim (Bool-cases (not (u.side == player_side player) || unit_region api cfg unit == "")) [
          | inl b ↦ rw (e, available_orders) (rw b tt)
          | inr b ↦
              rw (e, available_orders)
                (rw b (
                  tt,
                  (
                    tt,
                    class_options-IsOffer u (unit_region api cfg unit) _
                        (around-endpoint u.side (unit_region api cfg unit) cfg.paths here indexed),
                  ),
                ))
        ]
  ]
