-- ===== src/Game/Units/Placing.antt =====
-- Placing and advancing a unit in a well-formed world: no nil is dereferenced, and the world that
-- comes out is well formed.
use lotr_kafka_strategy_game.Prelude.{
  String, ◌≡◌, refl, sym, subst, inl, inr, Bool-cases, Option-cases, some, List, [], ◌∷◌, ◌++◌,
  ◌==◌, arith, eq_iff, All, All-append, Has, Has-insert, Has_of_some, get_elem?, eq_self, ◌+◌,
}
use lotr_kafka_strategy_game.Prelude.Steps.Rules.{Gives, Gives-elim}
use lotr_kafka_strategy_game.Config.{path_at}
use lotr_kafka_strategy_game.Game.State.{
  UnitState, RegionState, World, is_active, is_blocked, nonempty,
}
use lotr_kafka_strategy_game.Game.Units.{
  remove_str, leave_region, enter_region, place_unit, other_end, cross, advance_along, advance_unit,
}
use lotr_kafka_strategy_game.Game.WellFormed.{
  IsWellFormed, IsPlaced, insert_unit-IsSound, insert_region-IsSound, Stays-IsWellFormed,
}

pub All-remove_str {ℓ} :
    (P : String → Type ℓ) (xs : List String) (v : String) → All P xs → All P (remove_str xs v)
unfolding remove_str
All-remove_str P [] v h = tt
All-remove_str P (x ∷ xs) v h = elim (Bool-cases (x == v)) [
  | inl e ↦ rw e h.1
  | inr e ↦ rw e (h.0, All-remove_str P xs v h.1)
]

-- The world that a unit under the key `id` enters a region from: the key and the region are there.
abbrev Ready : String → String → World → Type 0
Ready id to v = IsWellFormed v × Has v.units id × Has v.regions to

-- Leaving a known region, or none, for a known region.
leave_region-IsWellFormed :
    (w : World) (id : String) (u : UnitState) (to : String)
    → IsPlaced w.regions u
    → Ready id to w
    → Gives (Ready id to) (leave_region w u)
unfolding leave_region
leave_region-IsWellFormed w id u to p (h, here, t) = elim (Bool-cases (u.region == "")) [
  | inl e ↦ rw (e, leave_region) (h, here, t)
  | inr e ↦ elim (Option-cases (w.regions u.region)) [
    | inl n ↦ absurd (ground (arith, eq_iff u.region ""))
    | inr (rs, q) ↦
        rw (e, q, leave_region)
          (
            insert_region-IsSound h u.region (record rs { units = remove_str rs.units u.id })
                (All-remove_str (Has w.units) rs.units u.id (h.residents u.region rs q)),
            here,
            Has-insert w.regions u.region to _ t,
          )
  ]
]

-- The unit under the key `id` has moved to `to`.
abbrev pub HasMoved : String → UnitState → String → World → Type 0
HasMoved id u to v = IsWellFormed v × (v.units id ≡ some (record u { region = to }))

enter_region-IsWellFormed :
    (w : World) (id : String) (u : UnitState) (to : String)
    → u.id ≡ id
    → Ready id to w
    → Gives (HasMoved id u to) (enter_region w id u to)
unfolding enter_region
enter_region-IsWellFormed w id u to named (h, here, t) = elim (Option-cases (w.regions to)) [
  | inl n ↦ absurd (t n)
  | inr (rs, q) ↦
      let rs' : RegionState = record rs { units = rs.units ++ u.id ∷ [] } in
      let inside =
        All-append (Has w.units) rs.units (u.id ∷ []) (h.residents to rs q)
          (subst (Has w.units) (sym named) here, tt) in
      let there = Has-insert w.regions to to rs' t in
      rw (q, enter_region)
        (
          insert_unit-IsSound (insert_region-IsSound h to rs' inside) id (record u { region = to })
              ((insert_region-IsSound h to rs' inside).starts id here) named (inr there)
              (λ a c. there),
          rw eq_self,
        )
]

-- `placeUnit` does not panic, and moves the unit.
pub place_unit-IsWellFormed :
    (w : World) (id : String) (u : UnitState) (to : String)
    → u.id ≡ id
    → IsPlaced w.regions u
    → Ready id to w
    → Gives (HasMoved id u to) (place_unit w id u to)
unfolding place_unit
place_unit-IsWellFormed w id u to named p ready =
    let (v, e, ready') =
      Gives-elim (Ready id to) (leave_region w u) (leave_region-IsWellFormed w id u to p ready) in
    rw (e, place_unit) (enter_region-IsWellFormed v id u to named ready')

-- The other end of a path on the map is a region of the map.
other_end-Has :
    (w : World) (pid here to : String)
    → IsWellFormed w
    → Has w.paths pid
    → other_end (path_at w.cfg pid) here ≡ some to
    → Has w.regions to
unfolding other_end
other_end-Has w pid here to h known e = elim (Option-cases (w.cfg.path_by_id pid)) [
  | inl n ↦ absurd (h.known pid known n)
  | inr (p, q) ↦ let (a, b) = h.anchored pid p q in ground arith
]

cross-IsWellFormed :
    (w : World) (id : String) (u : UnitState) (pid : String)
    → IsWellFormed w
    → w.units id ≡ some u
    → Has w.paths pid
    → Gives (λ r. IsWellFormed r.1) (cross w id u pid)
unfolding cross
cross-IsWellFormed w id u pid h e known =
    elim (Option-cases (other_end (path_at w.cfg pid) u.region)) [
      | inl n ↦ rw (n, cross) h
      | inr (to, q) ↦
          let (v, ev, (hv, at_to)) = Gives-elim (HasMoved id u to) (place_unit w id u to) (
            place_unit-IsWellFormed w id u to (h.named id u e) (h.placed id u e)
              (h, Has_of_some _ e, other_end-Has w pid u.region to h known q)) in
          rw (q, cross)
            (rw (ev, cross)
              (Stays-IsWellFormed v id (record u { region = to })
                (record u { region = to; route_idx = u.route_idx + 1 }) hv at_to
                (refl, inl (refl, refl))))
    ]

advance_along-IsWellFormed :
    (w : World) (id : String) (u : UnitState)
    → IsWellFormed w
    → w.units id ≡ some u
    → Gives (λ r. IsWellFormed r.1) (advance_along w id u)
unfolding advance_along
advance_along-IsWellFormed w id u h e = elim (Bool-cases (nonempty u.route)) [
  | inr n ↦ rw (n, advance_along) h
  | inl n ↦ elim (Option-cases (get_elem? u.route u.route_idx)) [
    | inl m ↦ rw (n, m, advance_along) h
    | inr (pid, m) ↦ elim (Option-cases (w.paths pid)) [
      | inl k ↦ rw (n, m, k, advance_along) h
      | inr (ps, k) ↦ elim (Bool-cases (is_blocked ps.status)) [
        | inl b ↦ rw (n, m, k, b, advance_along) h
        | inr b ↦
            rw (n, m, k, b, advance_along) (cross-IsWellFormed w id u pid h e (Has_of_some _ k))
      ]
    ]
  ]
]

-- `advanceUnit` does not panic on any branch.
pub advance_unit-IsWellFormed :
    (w : World) (id : String) → IsWellFormed w → Gives (λ r. IsWellFormed r.1) (advance_unit w id)
unfolding advance_unit
advance_unit-IsWellFormed w id h = elim (Option-cases (w.units id)) [
  | inl n ↦ rw (n, advance_unit) h
  | inr (u, e) ↦ elim (Bool-cases (is_active u.status)) [
    | inr b ↦ rw (e, b, advance_unit) h
    | inl b ↦ rw (e, b, advance_unit) (advance_along-IsWellFormed w id u h e)
  ]
]
