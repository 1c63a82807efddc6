-- ===== src/Game/Validate/Rules.antt =====
-- `Validate` of option-b/internal/game/validate.go against its rules.
use lotr_kafka_strategy_game.Prelude.{
  String, ◌≡◌, ◌≢◌, refl, sym, ◌∙◌, ◌⊎◌, inl, inr, ◌↔◌, true, false, Bool-cases, Option-cases, none,
  some, List, ◌==◌, arith, eq_iff, subst, contains,
}
use lotr_kafka_strategy_game.Prelude.Steps.Rules.{some_eq}
use lotr_kafka_strategy_game.Game.Order.{
  OrderType, assign_route, redirect_unit, maia_ability, block_path, search_path, attack_region,
  Order,
}
use lotr_kafka_strategy_game.Game.Validate.{
  ValidationState, Lookups, player_side, unit_view, walk_end, first_blocked, check_route,
  check_endpoint, check_attack, check_by_type, validate,
}
use lotr_kafka_strategy_game.Game.Validate.Walk.{IsWalk, walk_end_iff}

-- Rules 3 and 4.
abbrev pub RouteRule : Lookups → ValidationState → String → List String → Type 0
RouteRule cfg st unit route =
    (last : String) × IsWalk cfg (unit_view st unit).region route last
    × (first_blocked st route ≡ false)

-- Rule 5.
abbrev pub EndpointRule : Lookups → ValidationState → String → String → Type 0
EndpointRule cfg st unit pid =
    (a b : String) × (cfg.path_endpoints pid ≡ some (a, b))
    × (((unit_view st unit).region ≡ a) ⊎ ((unit_view st unit).region ≡ b))

-- Rule 6.
abbrev pub AttackRule : Lookups → ValidationState → String → String → String → Type 0
AttackRule cfg st unit target side =
    (cfg.adjacent (unit_view st unit).region target ≡ true)
    × (controller : String) × (st.regions target ≡ some controller)
    × (controller ≢ side)

-- The rule of each order type; the types that are not named have none.
abbrev pub TypeRule : OrderType → Lookups → ValidationState → Order → String → Type 0
TypeRule assign_route cfg st o side = RouteRule cfg st o.unit_id o.path_ids
TypeRule redirect_unit cfg st o side = RouteRule cfg st o.unit_id o.new_path_ids
TypeRule block_path cfg st o side = EndpointRule cfg st o.unit_id o.path_id
TypeRule search_path cfg st o side = EndpointRule cfg st o.unit_id o.path_id
TypeRule attack_region cfg st o side = AttackRule cfg st o.unit_id o.target_region side
TypeRule maia_ability cfg st o side = (unit_view st o.unit_id).cooldown ≡ 0
TypeRule _ cfg st o side = Unit

-- Rules 1, 8 and 2, and the rule of the order's type.
abbrev pub Accepts : Order → ValidationState → Lookups → Type 0
Accepts o st cfg =
    (o.turn ≡ st.turn)
    × (contains st.seen_units o.unit_id ≡ false)
    × (cfg.unit_side o.unit_id ≡ some (player_side o.player_id))
    × TypeRule o.order_type cfg st o (player_side o.player_id)

check_route_iff :
    (cfg : Lookups) (st : ValidationState) (unit : String) (route : List String)
    → (check_route cfg st unit route ≡ none) ↔ RouteRule cfg st unit route
unfolding check_route
check_route_iff cfg st unit route =
    let here = (unit_view st unit).region in
    elim (Option-cases (walk_end cfg here route)) [
      | inl n ↦ (
        λ h. absurd (cc (rw (n, check_route) at h)),
        λ (last, walk, free). absurd (cc (n, (walk_end_iff cfg here last route).1 walk)),
      )
      | inr (last, e) ↦ elim (Bool-cases (first_blocked st route)) [
        | inl b ↦ (
          λ h. absurd (cc (rw (e, b, check_route) at h)),
          λ (last, walk, free). absurd (cc (b, free)),
        )
        | inr b ↦ (
          λ h. (last, (walk_end_iff cfg here last route).0 e, b),
          λ _. rw (e, b, check_route) refl,
        )
      ]
    ]

check_endpoint_iff :
    (cfg : Lookups) (st : ValidationState) (unit pid : String)
    → (check_endpoint cfg st unit pid ≡ none) ↔ EndpointRule cfg st unit pid
unfolding check_endpoint
check_endpoint_iff cfg st unit pid =
    let here = (unit_view st unit).region in
    elim (Option-cases (cfg.path_endpoints pid)) [
      | inl n ↦
          (λ h. absurd (cc (rw (n, check_endpoint) at h)), λ (a, b, e, at_end). absurd (cc (n, e)))
      | inr ((a, b), e) ↦ (
        λ h. (a, b, e, ground (arith, eq_iff here a, eq_iff here b)),
        λ (a', b', e', at_end). ground (arith, eq_iff here a, eq_iff here b),
      )
    ]

check_attack_iff :
    (cfg : Lookups) (st : ValidationState) (unit target side : String)
    → (check_attack cfg st unit target side ≡ none) ↔ AttackRule cfg st unit target side
unfolding check_attack
check_attack_iff cfg st unit target side = elim (Option-cases (st.regions target)) [
  | inl n ↦ (λ h. absurd (ground arith), λ (adj, controller, e, differs). absurd (cc (n, e)))
  | inr (controller, e) ↦ (
    λ h. (ground arith, controller, e, ground (arith, eq_iff controller side)),
    λ (adj, c, e', differs). ground (arith, eq_iff controller side),
  )
]

check_by_type_iff :
    (t : OrderType) (cfg : Lookups) (st : ValidationState) (o : Order) (side : String)
    → (check_by_type t cfg st o side ≡ none) ↔ TypeRule t cfg st o side
unfolding check_by_type
check_by_type_iff assign_route cfg st o side = check_route_iff cfg st o.unit_id o.path_ids
check_by_type_iff redirect_unit cfg st o side = check_route_iff cfg st o.unit_id o.new_path_ids
check_by_type_iff block_path cfg st o side = check_endpoint_iff cfg st o.unit_id o.path_id
check_by_type_iff search_path cfg st o side = check_endpoint_iff cfg st o.unit_id o.path_id
check_by_type_iff attack_region cfg st o side =
    check_attack_iff cfg st o.unit_id o.target_region side
check_by_type_iff maia_ability cfg st o side = ground arith
check_by_type_iff _ cfg st o side = (λ _. tt, λ _. refl)

module _ (o : Order) (st : ValidationState) (cfg : Lookups) (side : String)
    (e : cfg.unit_side o.unit_id ≡ some side) where
  validate-none :
      validate o st cfg ≡ none
      → (o.turn ≡ st.turn)
        × (contains st.seen_units o.unit_id ≡ false)
        × ((side == player_side o.player_id) ≡ true)
        × (check_by_type o.order_type cfg st o side ≡ none)
  unfolding validate
  validate-none h = ground arith

  validate-none_back :
      o.turn ≡ st.turn
      → contains st.seen_units o.unit_id ≡ false
      → (side == player_side o.player_id) ≡ true
      → check_by_type o.order_type cfg st o side ≡ none
      → validate o st cfg ≡ none
  unfolding validate
  validate-none_back t fresh own ok = ground arith

-- `Validate` accepts an order exactly if the turn matches, the unit has no order yet, it is on the
-- player's side, and the rule of the order's type holds: a route is a connected walk from the
-- unit's region whose first path is not known to be blocked, a block or a search is at an end of
-- the path, an attack is on an adjacent region of another controller, and a Maia is off cooldown.
pub validate_iff :
    (o : Order) (st : ValidationState) (cfg : Lookups)
    → (validate o st cfg ≡ none) ↔ Accepts o st cfg
unfolding validate
validate_iff o st cfg = elim (Option-cases (cfg.unit_side o.unit_id)) [
  | inl n ↦ (λ h. absurd (ground arith), λ a. absurd (cc (n, a.2)))
  | inr (side, e) ↦
      let rule = check_by_type_iff o.order_type cfg st o side in
      let mine = eq_iff side (player_side o.player_id) in
      (
        λ h.
            let (t, fresh, own, ok) = validate-none o st cfg side e h in
            let s : side ≡ player_side o.player_id = mine.0 own in
            (
              t,
              fresh,
              subst (λ x. cfg.unit_side o.unit_id ≡ some x) s e,
              subst (TypeRule o.order_type cfg st o) s (rule.0 ok),
            ),
        λ (t, fresh, own, allowed).
            let s : player_side o.player_id ≡ side = some_eq (sym own ∙ e) in
            validate-none_back o st cfg side e t fresh (mine.1 (sym s))
              (rule.1 (subst (TypeRule o.order_type cfg st o) s allowed)),
      )
]
