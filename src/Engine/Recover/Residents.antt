-- ===== src/Engine/Recover/Residents.antt =====
-- The lists of units that option-b/internal/engine/recover.go rebuilds for the regions.
use lotr_kafka_strategy_game.Prelude.{
  String, ◌≡◌, refl, ◌⊎◌, inl, inr, ◌↔◌, Bool, true, false, Option-cases, text_cases, ◌&&◌, subst,
  none, some, List, [], ◌∷◌, ◌==◌, arith, eq_iff, Dict, Has, contains, contains-append,
}
use lotr_kafka_strategy_game.Config.{Config}
use lotr_kafka_strategy_game.Game.State.{UnitState, RegionState, World}
use lotr_kafka_strategy_game.Engine.Recover.{
  stands, add_resident, add_residents, restore, restore_entries, restore_region, restore_unit,
  RecoverRegion, RecoverState,
}

abbrev pub listed : Dict RegionState → String → String → Bool
listed m k x = elim (m k) [ none ↦ false | some r ↦ contains r.units x ]

-- Whether the last loop lists the unit `x` in the region `k`.
abbrev pub stands_in : Config → Dict UnitState → String → String → Bool
stands_in cfg units k x = elim (units x) [ none ↦ false | some u ↦ stands cfg x u && u.region == k ]

pub Has-add_resident :
    (cfg : Config) (id : String) (u : UnitState) (m : Dict RegionState) (k : String)
    → Has m k
    → Has (add_resident cfg id u m) k
unfolding add_resident
Has-add_resident cfg id u m k h = ground arith

listed-add_resident :
    (cfg : Config) (id : String) (u : UnitState) (m : Dict RegionState) (k x : String)
    → Has m k
    → (listed (add_resident cfg id u m) k x ≡ true)
      ↔ ((listed m k x ≡ true) ⊎ (id ≡ x) × (stands cfg id u ≡ true) × (u.region ≡ k))
unfolding add_resident
listed-add_resident cfg id u m k x h = elim (Option-cases (m u.region)) [
  | inl n ↦ ground (arith, eq_iff id x, eq_iff u.region k)
  | inr (r, e) ↦ ground (arith, eq_iff id x, eq_iff u.region k, contains-append r.units (id ∷ []) x)
]

-- After the last loop a region on the map lists the units that it listed before and those of `ids`
-- that stand in it, and no others.
pub add_residents_iff :
    (cfg : Config) (units : Dict UnitState) (ids : List String) (m : Dict RegionState)
    (k x : String)
    → Has m k
    → (listed (add_residents cfg units ids m) k x ≡ true)
      ↔ ((listed m k x ≡ true) ⊎ (contains ids x ≡ true) × (stands_in cfg units k x ≡ true))
unfolding add_residents
add_residents_iff cfg units [] m k x h = ground arith
add_residents_iff cfg units (id ∷ ids) m k x h = elim (text_cases id x) [
  | inl (t, same) ↦ elim (Option-cases (units id)) [
    | inl n ↦
        let off : stands_in cfg units k x ≡ false =
          subst (λ y. stands_in cfg units k y ≡ false) same (rw (n, stands_in) refl) in
        let rest = add_residents_iff cfg units ids m k x h in
        rw (n, t, add_residents) (ground (arith, rest, off))
    | inr (u, e) ↦
        let on : stands_in cfg units k x ≡ (stands cfg id u && u.region == k) =
          subst (λ y. stands_in cfg units k y ≡ (stands cfg id u && u.region == k)) same
            (rw (e, stands_in) refl) in
        let first = listed-add_resident cfg id u m k x h in
        let rest =
          add_residents_iff cfg units ids (add_resident cfg id u m) k x
            (Has-add_resident cfg id u m k h) in
        rw (e, t, add_residents) (ground (arith, first, rest, on, same, eq_iff u.region k))
  ]
  | inr (f, differ) ↦ elim (Option-cases (units id)) [
    | inl n ↦ rw (n, f, add_residents) (add_residents_iff cfg units ids m k x h)
    | inr (u, e) ↦
        let first = listed-add_resident cfg id u m k x h in
        let rest =
          add_residents_iff cfg units ids (add_resident cfg id u m) k x
            (Has-add_resident cfg id u m k h) in
        rw (e, f, add_residents) (ground (arith, first, rest, differ))
  ]
]

pub restored-Has :
    (saved : Dict RecoverRegion) (m : Dict RegionState) (k : String)
    → Has m k
    → Has (restore_entries restore_region saved m) k
restored-Has saved m k h = ground arith

restored_empty :
    (saved : Dict RecoverRegion) (m : Dict RegionState) (k x : String)
    → Has saved k
    → listed (restore_entries restore_region saved m) k x ≡ false
restored_empty saved m k x h = ground arith

-- A region that is on the map and in the record lists, in the world built back, exactly the units of
-- the range that are active, stand in it and do not bear the ring.
pub restore-residents :
    (ids : List String) (cfg : Config) (rs : RecoverState) (w : World) (k x : String)
    → Has w.regions k
    → Has rs.regions k
    → let back = restore ids cfg rs w in
      (listed back.regions k x ≡ true)
      ↔ ((contains ids x ≡ true) × (stands_in cfg back.units k x ≡ true))
unfolding restore
restore-residents ids cfg rs w k x on_map saved =
    let units = restore_entries restore_unit rs.units w.units in
    let m = restore_entries restore_region rs.regions w.regions in
    let all = add_residents_iff cfg units ids m k x (restored-Has rs.regions w.regions k on_map) in
    ground (arith, all, restored_empty rs.regions w.regions k x saved)
