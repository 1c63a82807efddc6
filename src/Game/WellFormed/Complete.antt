-- ===== src/Game/WellFormed/Complete.antt =====
-- `NewWorld` of option-b/internal/game/state.go has an entry for every region, every unit and
-- every path of the configuration.
use lotr_kafka_strategy_game.Prelude.{
  String, ◌≡◌, refl, sym, subst, ◌∙◌, inl, inr, Bool, true, false, some, List, [], ◌∷◌,
  if◌then◌else◌, ◌==◌, ◌&&◌, All, Dict, insert, empty, Has, Has-insert, Has-insert_self,
  Option-cases, Bool-cases,
}
use lotr_kafka_strategy_game.Prelude.Steps.Rules.{some_eq}
use lotr_kafka_strategy_game.Config.{UnitConfig, Region, MapPath, Config}
use lotr_kafka_strategy_game.Game.State.{
  RegionState, PathState, World, is_ring_bearer, new_regions, new_paths, side_shadow, nonempty,
  add_unit, add_units, derive_unit_ids, derive_region_ids, derive_ids, blank_world, new_world,
}

abbrev pub HasRegions : List Region → World → Type 0
HasRegions rs w = All (λ r. Has w.regions r.id) rs

abbrev pub HasUnits : List UnitConfig → World → Type 0
HasUnits us w = All (λ u. Has w.units u.id) us

-- The world has this configuration, and every region and unit of it.
abbrev pub IsComplete : Config → World → Type 0
IsComplete cfg w = (w.cfg ≡ cfg) × HasRegions cfg.regions w × HasUnits cfg.units w

-- `w` has what `v` has.
abbrev Covers : World → World → Type 0
Covers v w =
    (w.cfg ≡ v.cfg)
    × ((k : String) → Has v.regions k → Has w.regions k)
    × ((k : String) → Has v.units k → Has w.units k)
    × (w.paths ≡ v.paths)

pub All-map {ℓ κ μ} :
    {A : Type ℓ} {P : A → Type κ} {Q : A → Type μ} (xs : List A)
    → ((a : A) → P a → Q a)
    → All P xs
    → All Q xs
All-map [] f h = tt
All-map (x ∷ xs) f (h, hs) = (f x h, All-map xs f hs)

new_regions-old :
    (rs : List Region) (m : Dict RegionState) (k : String) → Has m k → Has (new_regions rs m) k
unfolding new_regions
new_regions-old [] m k h = h
new_regions-old (r ∷ rs) m k h = new_regions-old rs (insert m r.id _) k (Has-insert m r.id k _ h)

new_regions-own :
    (rs : List Region) (m : Dict RegionState) → All (λ r. Has (new_regions rs m) r.id) rs
unfolding new_regions
new_regions-own [] m = tt
new_regions-own (r ∷ rs) m = (
  new_regions-old rs (insert m r.id _) r.id (Has-insert_self m r.id _),
  new_regions-own rs (insert m r.id _),
)

add_unit-Covers :
    (u : UnitConfig) (w v : World) → add_unit w u ≡ some v → Covers w v × Has v.units u.id
unfolding add_unit
add_unit-Covers u w v e = elim (Bool-cases (is_ring_bearer u)) [
  | inl b ↦
      subst (λ x. Covers w x × Has x.units u.id) (some_eq (rw (b, add_unit) at e))
        (
          (refl, λ k h. h, λ k h. Has-insert w.units u.id k _ h, refl),
          Has-insert_self w.units u.id _,
        )
  | inr b ↦ elim (Option-cases (w.regions u.start_region)) [
    | inl n ↦ absurd (cc (rw (b, n, add_unit) at e))
    | inr (reg, q) ↦
        subst (λ x. Covers w x × Has x.units u.id) (some_eq (rw (b, q, add_unit) at e))
          (
            (
              refl,
              λ k h. Has-insert w.regions u.start_region k _ h,
              λ k h. Has-insert w.units u.id k _ h,
              refl,
            ),
            Has-insert_self w.units u.id _,
          )
  ]
]

add_units-Covers :
    (us : List UnitConfig) (w v : World) → add_units us w ≡ some v → Covers w v × HasUnits us v
unfolding add_units
add_units-Covers [] w v e =
    subst (λ x. Covers w x × Unit {0}) (some_eq e) ((refl, λ k h. h, λ k h. h, refl), tt)
add_units-Covers (u ∷ us) w v e = elim (Option-cases (add_unit w u)) [
  | inl n ↦ absurd (cc (rw (n, add_units) at e))
  | inr (x, q) ↦
      let ((c, rs, old, ps), own) = add_unit-Covers u w x q in
      let ((c', rs', old', ps'), rest) = add_units-Covers us x v (rw (q, add_units) at e) in
      ((c' ∙ c, λ k h. rs' k (rs k h), λ k h. old' k (old k h), ps' ∙ ps), (old' u.id own, rest))
]

-- The maps and the configuration of a world, as they were.
pub record Same (v w : World) : Type 0 where
  pub cfg : w.cfg ≡ v.cfg
  pub regions : w.regions ≡ v.regions
  pub units : w.units ≡ v.units
  pub paths : w.paths ≡ v.paths

pub as_it_was :
    {v w : World}
    → w.cfg ≡ v.cfg
    → w.regions ≡ v.regions
    → w.units ≡ v.units
    → w.paths ≡ v.paths
    → Same v w
as_it_was a b c d = record { cfg = a; regions = b; units = c; paths = d }

Same-if : (c : Bool) (w u v : World) → Same w u → Same w v → Same w (if c then u else v)
Same-if true w u v hu hv = hu
Same-if false w u v hu hv = hv

Same-trans : (u v w : World) → Same u v → Same v w → Same u w
Same-trans u v w g h =
    as_it_was (h.cfg ∙ g.cfg) (h.regions ∙ g.regions) (h.units ∙ g.units) (h.paths ∙ g.paths)

derive_unit_ids-Same : (us : List UnitConfig) (w : World) → Same w (derive_unit_ids us w)
unfolding derive_unit_ids
derive_unit_ids-Same [] w = as_it_was refl refl refl refl
derive_unit_ids-Same (u ∷ us) w =
    Same-trans w _ _
      (Same-if (is_ring_bearer u) w _ _ (as_it_was refl refl refl refl) (
        Same-if (u.side == side_shadow && (u.maia && nonempty u.maia_ability_paths)) w _ w
          (as_it_was refl refl refl refl) (as_it_was refl refl refl refl)))
      (derive_unit_ids-Same us _)

derive_region_ids-Same : (rs : List Region) (w : World) → Same w (derive_region_ids rs w)
unfolding derive_region_ids
derive_region_ids-Same [] w = as_it_was refl refl refl refl
derive_region_ids-Same (r ∷ rs) w =
    Same-trans w _ _
      (Same-if (r.special_role == "RING_DESTRUCTION_SITE") w _ w (as_it_was refl refl refl refl)
        (as_it_was refl refl refl refl))
      (derive_region_ids-Same rs _)

derive_ids-Same : (w : World) → Same w (derive_ids w)
unfolding derive_ids
derive_ids-Same w =
    Same-trans w _ _ (derive_unit_ids-Same w.cfg.units w) (derive_region_ids-Same w.cfg.regions _)

pub IsComplete-Same : (c : Config) (v w : World) → Same v w → IsComplete c v → IsComplete c w
IsComplete-Same c v w same (cfg, rs, us) = (
  same.cfg ∙ cfg,
  subst (λ m. All (λ r. Has m r.id) c.regions) (sym same.regions) rs,
  subst (λ m. All (λ u. Has m u.id) c.units) (sym same.units) us,
)

-- A world that `NewWorld` returns has the configuration, and every region and unit of it.
pub new_world-IsComplete : (c : Config) (w : World) → new_world c ≡ some w → IsComplete c w
unfolding new_world blank_world
new_world-IsComplete c w e = elim (Option-cases (add_units c.units (blank_world c))) [
  | inl n ↦ absurd (cc (rw (n, new_world) at e))
  | inr (v, q) ↦
      let ((cv, rs, _, _), own) = add_units-Covers c.units (blank_world c) v q in
      let made : IsComplete c v =
        (cv, All-map c.regions (λ r h. rs r.id h) (new_regions-own c.regions empty), own) in
      subst (IsComplete c) (some_eq (rw (q, new_world) at e))
        (IsComplete-Same c v (derive_ids v) (derive_ids-Same v) made)
]

abbrev pub HasPaths : List MapPath → World → Type 0
HasPaths ps w = All (λ p. Has w.paths p.id) ps

new_paths-old :
    (ps : List MapPath) (m : Dict PathState) (k : String) → Has m k → Has (new_paths ps m) k
unfolding new_paths
new_paths-old [] m k h = h
new_paths-old (p ∷ ps) m k h = new_paths-old ps (insert m p.id _) k (Has-insert m p.id k _ h)

new_paths-own : (ps : List MapPath) (m : Dict PathState) → All (λ p. Has (new_paths ps m) p.id) ps
unfolding new_paths
new_paths-own [] m = tt
new_paths-own (p ∷ ps) m = (
  new_paths-old ps (insert m p.id _) p.id (Has-insert_self m p.id _),
  new_paths-own ps (insert m p.id _),
)

-- A world that `NewWorld` returns has every path of the configuration.
pub new_world-HasPaths : (c : Config) (w : World) → new_world c ≡ some w → HasPaths c.paths w
unfolding new_world blank_world
new_world-HasPaths c w e = elim (Option-cases (add_units c.units (blank_world c))) [
  | inl n ↦ absurd (cc (rw (n, new_world) at e))
  | inr (v, q) ↦
      let ((_, _, _, ps), _) = add_units-Covers c.units (blank_world c) v q in
      let same = (derive_ids-Same v).paths ∙ ps in
      subst (HasPaths c.paths) (some_eq (rw (q, new_world) at e))
        (subst (λ m. All (λ p. Has m p.id) c.paths) (sym same) (new_paths-own c.paths empty))
]
