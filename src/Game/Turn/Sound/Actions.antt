-- ===== src/Game/Turn/Sound/Actions.antt =====
-- Steps 4 to 6 of the turn (option-b/internal/game/turn.go) in a well-formed world.
use lotr_kafka_strategy_game.Prelude.{
  String, ◌≡◌, refl, inl, inr, Bool-cases, Option-cases, not, some, ◌&&◌, ◌||◌, true, &&-eq_true,
  Has, ℕ, Has_of_some, contains,
}
use lotr_kafka_strategy_game.Prelude.Steps.Rules.{Gives, Gives-elim, Total, Total-done}
use lotr_kafka_strategy_game.Config.{unit_at}
use lotr_kafka_strategy_game.Game.State.{
  UnitState, PathState, World, is_active, nonempty, put_unit, put_path,
}
use lotr_kafka_strategy_game.Game.Order.{
  OrderType, Order, Event, redirect_unit, block_path, search_path, reinforce_region, deploy_nazgul,
  fortify_region,
}
use lotr_kafka_strategy_game.Game.Order
use lotr_kafka_strategy_game.Game.PathMachine.{open_temporarily}
use lotr_kafka_strategy_game.Game.Units.{place_unit}
use lotr_kafka_strategy_game.Game.Units.Placing.{HasMoved, place_unit-IsWellFormed}
use lotr_kafka_strategy_game.Game.WellFormed.{
  IsWellFormed, insert_region-IsSound, insert_path-IsSound, Stays-IsWellFormed,
}
use lotr_kafka_strategy_game.Game.Turn.Helpers.{at_endpoint}
use lotr_kafka_strategy_game.Game.Turn.Moves.{
  reposition, reposition_as, reposition_order, fortify, fortify_as, fortify_order, corrupt_path,
  open_path_by, maia_ability, maia_as, maia_order,
}

reposition-Total : (id target : String) → Total IsWellFormed (reposition id target)
unfolding reposition
reposition-Total id target = record {
  at = λ w h. elim (Option-cases (w.units id)) [
    | inl n ↦ rw (n, reposition) h
    | inr (u, e) ↦ elim (Bool-cases (is_active u.status)) [
      | inr b ↦ rw (e, b, reposition) h
      | inl b ↦ elim (Option-cases (w.regions target)) [
        | inl n ↦ rw (e, b, n, reposition) h
        | inr (rs, q) ↦
            let (v, ev, (hv, moved)) =
              Gives-elim (HasMoved id u target) (place_unit w id u target) (
                place_unit-IsWellFormed w id u target (h.named id u e) (h.placed id u e)
                  (h, Has_of_some _ e, Has_of_some _ q)) in
            rw (e, b, q, reposition) (rw (ev, reposition) hv)
      ]
    ]
  ];
}

reposition_as-Total : (t : OrderType) (o : Order) → Total IsWellFormed (reposition_as t o)
unfolding reposition_as
reposition_as-Total reinforce_region o = reposition-Total o.unit_id o.target_region
reposition_as-Total deploy_nazgul o = reposition-Total o.unit_id o.target_region
reposition_as-Total _ o = Total-done

pub reposition_order-Total : (o : Order) → Total IsWellFormed (reposition_order o)
unfolding reposition_order
reposition_order-Total o = reposition_as-Total o.order_type o

-- Here the invariant says that a unit that may fortify stands in a region.
fortify-Total : (id : String) → Total IsWellFormed (fortify id)
unfolding fortify
fortify-Total id = record {
  at = λ w h. elim (Option-cases (w.units id)) [
    | inl n ↦ rw (n, fortify) h
    | inr (u, e) ↦ elim (Bool-cases ((unit_at w.cfg id).can_fortify && is_active u.status)) [
      | inr b ↦ rw (e, b, fortify) h
      | inl b ↦ elim (Option-cases (w.regions u.region)) [
        | inl n ↦ let (may, there) = &&-eq_true _ _ b in absurd (h.dug id u e there may n)
        | inr (r, q) ↦
            rw (e, b, q, fortify)
              (insert_region-IsSound h u.region (record r { fortified = true; fortify_turns = 2 })
                (h.residents u.region r q))
      ]
    ]
  ];
}

fortify_as-Total : (t : OrderType) (o : Order) → Total IsWellFormed (fortify_as t o)
unfolding fortify_as
fortify_as-Total fortify_region o = fortify-Total o.unit_id
fortify_as-Total _ o = Total-done

pub fortify_order-Total : (o : Order) → Total IsWellFormed (fortify_order o)
unfolding fortify_order
fortify_order-Total o = fortify_as-Total o.order_type o

-- Both abilities write the path that they read, and the cooldown of the maia.
written-IsWellFormed :
    (w : World) (id pid : String) (u : UnitState) (p : PathState) (turns : ℕ)
    → IsWellFormed w
    → w.units id ≡ some u
    → Has w.paths pid
    → IsWellFormed (put_unit (put_path w pid p) id (record u { cooldown = turns }))
written-IsWellFormed w id pid u p turns h e known =
    Stays-IsWellFormed (put_path w pid p) id u (record u { cooldown = turns })
      (insert_path-IsSound h pid p known) e (refl, inl (refl, refl))

corrupt_path-IsWellFormed :
    (o : Order) (u : UnitState) (p : PathState) (w : World)
    → IsWellFormed w
    → w.units o.unit_id ≡ some u
    → Has w.paths o.target_path_id
    → Gives (λ r. IsWellFormed r.0) (corrupt_path o u p w)
unfolding corrupt_path
corrupt_path-IsWellFormed o u p w h e known =
    elim (Bool-cases (
      w.saruman_disabled
      || not (contains (unit_at w.cfg o.unit_id).maia_ability_paths o.target_path_id))) [
        | inl b ↦ rw (b, corrupt_path) h
        | inr b ↦
            rw (b, corrupt_path) (written-IsWellFormed w o.unit_id o.target_path_id u _ _ h e known)
      ]

open_path_by-IsWellFormed :
    (o : Order) (u : UnitState) (p : PathState) (w : World)
    → IsWellFormed w
    → w.units o.unit_id ≡ some u
    → Has w.paths o.target_path_id
    → Gives (λ r. IsWellFormed r.0) (open_path_by o u p w)
unfolding open_path_by
open_path_by-IsWellFormed o u p w h e known = elim (Bool-cases (open_temporarily p).1) [
  | inl b ↦ rw (b, open_path_by) (written-IsWellFormed w o.unit_id o.target_path_id u _ _ h e known)
  | inr b ↦ rw (b, open_path_by) h
]

maia_ability-Total : (o : Order) → Total IsWellFormed (maia_ability o)
unfolding maia_ability
maia_ability-Total o = record {
  at = λ w h. elim (Option-cases (w.units o.unit_id)) [
    | inl n ↦ rw (n, maia_ability) h
    | inr (u, e) ↦ elim (Option-cases (w.paths o.target_path_id)) [
      | inl n ↦ rw (e, n, maia_ability) h
      | inr (p, q) ↦
          elim (Bool-cases (is_active u.status && at_endpoint w o.unit_id o.target_path_id)) [
            | inr b ↦ rw (e, q, b, maia_ability) h
            | inl b ↦
                rw (e, q, b, maia_ability)
                  (elim (Bool-cases (nonempty (unit_at w.cfg o.unit_id).maia_ability_paths)) [
                    | inl c ↦ rw c (corrupt_path-IsWellFormed o u p w h e (Has_of_some _ q))
                    | inr c ↦ rw c (open_path_by-IsWellFormed o u p w h e (Has_of_some _ q))
                  ])
          ]
    ]
  ];
}

maia_as-Total : (t : OrderType) (o : Order) → Total IsWellFormed (maia_as t o)
unfolding maia_as
maia_as-Total Order.maia_ability o = maia_ability-Total o
maia_as-Total _ o = Total-done

pub maia_order-Total : (o : Order) → Total IsWellFormed (maia_order o)
unfolding maia_order
maia_order-Total o = maia_as-Total o.order_type o
