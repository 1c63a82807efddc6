-- ===== src/Game/Validate/Errors.antt =====
-- Which error `Validate` of option-b/internal/game/validate.go gives: that of the first rule broken.
use lotr_kafka_strategy_game.Prelude.{
  String, ◌≡◌, ◌≢◌, inl, inr, ◌↔◌, true, false, Option-cases, some, List, arith, eq_iff, contains,
}
use lotr_kafka_strategy_game.Game.Order.{
  OrderType, assign_route, redirect_unit, maia_ability, block_path, search_path, attack_region,
  Order,
}
use lotr_kafka_strategy_game.Game.Validate.{
  Rejection, wrong_turn, not_your_unit, duplicate_order, ValidationState, Lookups, player_side,
  check_route, check_endpoint, check_attack, check_by_type, validate, walk_end, unit_view,
}

-- The errors of rules 1, 2 and 8.
abbrev pub IsGeneral : Rejection → Type 0
IsGeneral wrong_turn = Unit
IsGeneral not_your_unit = Unit
IsGeneral duplicate_order = Unit
IsGeneral _ = ⊥

module _ (cfg : Lookups) (st : ValidationState) (e : Rejection) (general : IsGeneral e) where
  check_route-other : (unit : String) (route : List String) → check_route cfg st unit route ≢ some e
  unfolding check_route
  check_route-other unit route h =
      elim (Option-cases (walk_end cfg (unit_view st unit).region route)) [
        | inl n ↦ ground arith
        | inr (last, q) ↦ ground arith
      ]

  check_endpoint-other : (unit pid : String) → check_endpoint cfg st unit pid ≢ some e
  unfolding check_endpoint
  check_endpoint-other unit pid h = ground arith

  check_attack-other : (unit target side : String) → check_attack cfg st unit target side ≢ some e
  unfolding check_attack
  check_attack-other unit target side h = ground arith

  -- The rule of an order's type gives an error of its own.
  check_by_type-other :
      (t : OrderType) (o : Order) (side : String) → check_by_type t cfg st o side ≢ some e
  unfolding check_by_type
  check_by_type-other assign_route o side = check_route-other o.unit_id o.path_ids
  check_by_type-other redirect_unit o side = check_route-other o.unit_id o.new_path_ids
  check_by_type-other block_path o side = check_endpoint-other o.unit_id o.path_id
  check_by_type-other search_path o side = check_endpoint-other o.unit_id o.path_id
  check_by_type-other attack_region o side = check_attack-other o.unit_id o.target_region side
  check_by_type-other maia_ability o side = λ h. ground arith
  check_by_type-other _ o side = λ h. cc h

-- The first three rules in their order: WRONG_TURN is the answer exactly if the turn differs,
-- DUPLICATE_UNIT_ORDER exactly if the turn matches and the unit has an order already, and
-- NOT_YOUR_UNIT exactly if both are in order and the unit is not on the player's side.
pub validate-first :
    (o : Order) (st : ValidationState) (cfg : Lookups)
    → ((validate o st cfg ≡ some wrong_turn) ↔ (o.turn ≢ st.turn))
      × ((validate o st cfg ≡ some duplicate_order)
          ↔ ((o.turn ≡ st.turn) × (contains st.seen_units o.unit_id ≡ true)))
      × ((validate o st cfg ≡ some not_your_unit) ↔ (
          (o.turn ≡ st.turn)
          × (contains st.seen_units o.unit_id ≡ false)
          × (cfg.unit_side o.unit_id ≢ some (player_side o.player_id))))
unfolding validate
validate-first o st cfg = elim (Option-cases (cfg.unit_side o.unit_id)) [
  | inl n ↦ ground arith
  | inr (side, e) ↦
      let no_turn = check_by_type-other cfg st wrong_turn tt o.order_type o side in
      let no_copy = check_by_type-other cfg st duplicate_order tt o.order_type o side in
      let no_side = check_by_type-other cfg st not_your_unit tt o.order_type o side in
      ground (arith, no_turn, no_copy, no_side, eq_iff side (player_side o.player_id))
]
