-- ===== src/Engine/Publish/Snapshots.antt =====
-- The snapshot of option-b/internal/engine/publish.go: it is built, and it lists the configuration's
-- regions and units with what the world says of them.
use lotr_kafka_strategy_game.Prelude.{
  ℕ, ◌≡◌, refl, inl, inr, some, List, [], ◌∷◌, All, Dict, Has, Option-cases,
}
use lotr_kafka_strategy_game.Config.{UnitConfig, Region, Config}
use lotr_kafka_strategy_game.Game.State.{UnitState, RegionState, World}
use lotr_kafka_strategy_game.Game.WellFormed.Complete.{HasRegions, HasUnits}
use lotr_kafka_strategy_game.Engine.Messages.{RegionSnap, UnitSnap, WorldSnapshotMsg}
use lotr_kafka_strategy_game.Engine.Publish.{
  Publication, snap_regions, snap_units, snapshot_of, build_snapshot, publish_snapshot,
}

-- Item by item, a snapshot says what the world's entry under the configuration's id says.
abbrev pub ShowsRegions : Dict RegionState → List Region → List RegionSnap → Type 0
ShowsRegions m [] [] = Unit
ShowsRegions m (r ∷ rs) (s ∷ ss) =
    ((reg : RegionState) × (m r.id ≡ some reg)
      × (s.region_id ≡ r.id)
      × (s.controlled_by ≡ reg.controlled_by)
      × (s.threat_level ≡ reg.threat_level)
      × (s.fortified ≡ reg.fortified))
    × ShowsRegions m rs ss
ShowsRegions _ _ _ = ⊥

abbrev pub ShowsUnits : Dict UnitState → List UnitConfig → List UnitSnap → Type 0
ShowsUnits m [] [] = Unit
ShowsUnits m (u ∷ us) (s ∷ ss) =
    ((unit : UnitState) × (m u.id ≡ some unit)
      × (s.unit_id ≡ u.id)
      × (s.region ≡ unit.region)
      × (s.strength ≡ unit.strength)
      × (s.status ≡ unit.status))
    × ShowsUnits m us ss
ShowsUnits _ _ _ = ⊥

pub snap_regions_lem :
    (m : Dict RegionState) (rs : List Region)
    → All (λ r. Has m r.id) rs
    → (ss : List RegionSnap) × (snap_regions m rs ≡ some ss) × ShowsRegions m rs ss
unfolding snap_regions
snap_regions_lem m [] h = ([], refl, tt)
snap_regions_lem m (r ∷ rs) (h, hs) = elim (Option-cases (m r.id)) [
  | inl n ↦ absurd (h n)
  | inr (reg, e) ↦
      let (ss, q, shown) = snap_regions_lem m rs hs in
      rw (e, q, snap_regions) (_, refl, ((reg, e, refl, refl, refl, refl), shown))
]

pub snap_units_lem :
    (m : Dict UnitState) (us : List UnitConfig)
    → All (λ u. Has m u.id) us
    → (ss : List UnitSnap) × (snap_units m us ≡ some ss) × ShowsUnits m us ss
unfolding snap_units
snap_units_lem m [] h = ([], refl, tt)
snap_units_lem m (u ∷ us) (h, hs) = elim (Option-cases (m u.id)) [
  | inl n ↦ absurd (h n)
  | inr (unit, e) ↦
      let (ss, q, shown) = snap_units_lem m us hs in
      rw (e, q, snap_units) (_, refl, ((unit, e, refl, refl, refl, refl), shown))
]

-- The snapshot of a world that has every region and unit of the configuration is built, and it shows
-- the turn, the regions and the units of the world, in the order of the configuration.
pub build_snapshot_lem :
    (cfg : Config) (now : ℕ) (w : World)
    → HasRegions cfg.regions w
    → HasUnits cfg.units w
    → (snap : WorldSnapshotMsg) × (build_snapshot cfg now (some w) ≡ some snap)
      × (snap.turn ≡ w.turn)
      × ShowsRegions w.regions cfg.regions snap.regions
      × ShowsUnits w.units cfg.units snap.units
unfolding build_snapshot snapshot_of
build_snapshot_lem cfg now w hr hu =
    let (rs, e, regions) = snap_regions_lem w.regions cfg.regions hr in
    let (us, q, units) = snap_units_lem w.units cfg.units hu in
    rw (e, q, build_snapshot, snapshot_of) (_, refl, refl, regions, units)

pub publish_snapshot-returns :
    (cfg : Config) (ids : Dict ℕ) (now : ℕ) (w : World)
    → HasRegions cfg.regions w
    → HasUnits cfg.units w
    → (ps : List Publication) × (publish_snapshot cfg ids now (some w) ≡ some ps)
unfolding publish_snapshot
publish_snapshot-returns cfg ids now w hr hu =
    let (snap, e, _, _, _) = build_snapshot_lem cfg now w hr hu in
    rw (e, publish_snapshot) (_, refl)
