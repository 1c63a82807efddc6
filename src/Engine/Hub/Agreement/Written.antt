-- ===== src/Engine/Hub/Agreement/Written.antt =====
-- What the regions and the units of a snapshot leave in a hub's cache
-- (option-b/internal/engine/publish.go and hub.go).
use lotr_kafka_strategy_game.Prelude.{
  String, ◌≡◌, refl, sym, ◌∙◌, inl, inr, Option, some, List, [], ◌∷◌, Dict, Option-cases, map,
}
use lotr_kafka_strategy_game.Config.{Region, UnitConfig}
use lotr_kafka_strategy_game.Game.State.{RegionState, UnitState, World, put_region, put_unit}
use lotr_kafka_strategy_game.Engine.Messages.{RegionSnap, UnitSnap}
use lotr_kafka_strategy_game.Engine.Publish.{snap_regions, snap_units}
use lotr_kafka_strategy_game.Engine.Hub.Cache.{note_regions, note_units}
use lotr_kafka_strategy_game.Engine.Hub.Agreement.{items_of, noted, note_items, items_of-note_items}

abbrev region_key : RegionSnap → String
region_key s = s.region_id

abbrev region_item : String → RegionState → RegionSnap
region_item k r = record {
  region_id = k;
  controlled_by = r.controlled_by;
  threat_level = r.threat_level;
  fortified = r.fortified;
}

abbrev write_region : RegionSnap → RegionState → RegionState
write_region s r = record r {
  controlled_by = s.controlled_by;
  threat_level = s.threat_level;
  fortified = s.fortified;
}

abbrev unit_key : UnitSnap → String
unit_key s = s.unit_id

abbrev unit_item : String → UnitState → UnitSnap
unit_item k u = record { unit_id = k; region = u.region; strength = u.strength; status = u.status }

abbrev write_unit : UnitSnap → UnitState → UnitState
write_unit s u = record u { region = s.region; strength = s.strength; status = s.status }

abbrev region_ids : List Region → List String
region_ids rs = map (λ (r : Region). r.id) rs

abbrev unit_ids : List UnitConfig → List String
unit_ids us = map (λ (u : UnitConfig). u.id) us

abbrev region_items : Dict RegionState → List String → Option (List RegionSnap)
region_items m ks = items_of region_key region_item write_region (λ k v. refl) (λ s v. refl) m ks

abbrev unit_items : Dict UnitState → List String → Option (List UnitSnap)
unit_items m ks = items_of unit_key unit_item write_unit (λ k v. refl) (λ s v. refl) m ks

abbrev noted_regions : List RegionSnap → Dict RegionState → Dict RegionState
noted_regions ss m = note_items region_key region_item write_region (λ k v. refl) (λ s v. refl) ss m

abbrev pub noted_units : List UnitSnap → Dict UnitState → Dict UnitState
noted_units ss m = note_items unit_key unit_item write_unit (λ k v. refl) (λ s v. refl) ss m

snap_regions-items :
    (m : Dict RegionState) (rs : List Region) → snap_regions m rs ≡ region_items m (region_ids rs)
unfolding snap_regions items_of
snap_regions-items m [] = refl
snap_regions-items m (r ∷ rs) = elim (Option-cases (m r.id)) [
  | inl n ↦ rw (n, snap_regions, items_of, region_items, region_ids, map) refl
  | inr (v, e) ↦
      rw (e, snap_regions-items m rs, snap_regions, items_of, region_items, region_ids, map) refl
]

snap_units-items :
    (m : Dict UnitState) (us : List UnitConfig) → snap_units m us ≡ unit_items m (unit_ids us)
unfolding snap_units items_of
snap_units-items m [] = refl
snap_units-items m (u ∷ us) = elim (Option-cases (m u.id)) [
  | inl n ↦ rw (n, snap_units, items_of, unit_items, unit_ids, map) refl
  | inr (v, e) ↦ rw (e, snap_units-items m us, snap_units, items_of, unit_items, unit_ids, map) refl
]

-- What the loops of `applySnapshot` write, map by map.
pub note_regions-maps :
    (ss : List RegionSnap) (w : World)
    → ((note_regions ss w).regions ≡ noted_regions ss w.regions)
      × ((note_regions ss w).units ≡ w.units)
      × ((note_regions ss w).paths ≡ w.paths)
      × ((note_regions ss w).turn ≡ w.turn)
unfolding note_regions note_items
note_regions-maps [] w = (refl, refl, refl, refl)
note_regions-maps (s ∷ ss) w = elim (Option-cases (w.regions s.region_id)) [
  | inl n ↦ rw (n, note_regions, note_items, noted, noted_regions) (note_regions-maps ss w)
  | inr (r, e) ↦
      rw (e, note_regions, note_items, noted, noted_regions)
        (note_regions-maps ss (put_region w s.region_id (write_region s r)))
]

pub note_units-maps :
    (ss : List UnitSnap) (w : World)
    → ((note_units ss w).units ≡ noted_units ss w.units)
      × ((note_units ss w).regions ≡ w.regions)
      × ((note_units ss w).paths ≡ w.paths)
      × ((note_units ss w).turn ≡ w.turn)
unfolding note_units note_items
note_units-maps [] w = (refl, refl, refl, refl)
note_units-maps (s ∷ ss) w = elim (Option-cases (w.units s.unit_id)) [
  | inl n ↦ rw (n, note_units, note_items, noted, noted_units) (note_units-maps ss w)
  | inr (u, e) ↦
      rw (e, note_units, note_items, noted, noted_units)
        (note_units-maps ss (put_unit w s.unit_id (write_unit s u)))
]

pub note_regions-reads :
    (o m : Dict RegionState) (rs : List Region) (ss old : List RegionSnap)
    → snap_regions o rs ≡ some ss
    → snap_regions m rs ≡ some old
    → snap_regions (noted_regions ss m) rs ≡ some ss
note_regions-reads o m rs ss old e had =
    snap_regions-items (noted_regions ss m) rs
    ∙ items_of-note_items region_key region_item write_region (λ k v. refl) (λ s v. refl) o m
        (region_ids rs) ss old (sym (snap_regions-items o rs) ∙ e)
        (sym (snap_regions-items m rs) ∙ had)

pub note_units-reads :
    (o m : Dict UnitState) (us : List UnitConfig) (ss old : List UnitSnap)
    → snap_units o us ≡ some ss
    → snap_units m us ≡ some old
    → snap_units (noted_units ss m) us ≡ some ss
note_units-reads o m us ss old e had =
    snap_units-items (noted_units ss m) us
    ∙ items_of-note_items unit_key unit_item write_unit (λ k v. refl) (λ s v. refl) o m
        (unit_ids us) ss old (sym (snap_units-items o us) ∙ e) (sym (snap_units-items m us) ∙ had)
