-- ===== src/Game/WellFormed/Start.antt =====
-- `NewWorld` of option-b/internal/game/state.go, from a configuration that `Load` accepted: it does
-- not panic, and its world is well formed.
use lotr_kafka_strategy_game.Prelude.{
  String, ◌≡◌, refl, sym, subst, ◌⊎◌, inl, inr, Bool, true, false, some, List, [], ◌∷◌, ◌++◌, ◌==◌,
  ◌&&◌, if◌then◌else◌, arith, All, All-append, Dict, empty, insert, insert_induction, Has,
  Has-insert, Has-insert_both, Has-insert_self, Option-cases, Bool-cases,
}
use lotr_kafka_strategy_game.Prelude.Steps.Rules.{Gives, Gives-elim}
use lotr_kafka_strategy_game.Config.{
  UnitConfig, Region, MapPath, UnitsFile, MapFile, Config, unit_at,
}
use lotr_kafka_strategy_game.Config.Load.{load, ok}
use lotr_kafka_strategy_game.Config.Integrity.{
  index, IsAnchored, IsBased, IsAcceptable, regions_of, paths_of, units_of, configuration, load-ok,
  index_induction, index_member,
}
use lotr_kafka_strategy_game.Game.State.{
  RegionState, PathState, World, is_ring_bearer, put_region, new_unit, new_regions, new_paths,
  add_unit, add_units, derive_unit_ids, derive_region_ids, derive_ids, blank_world, new_world,
  side_shadow, nonempty,
}
use lotr_kafka_strategy_game.Game.WellFormed.{
  IsWellFormed, insert_unit-IsSound, insert_region-IsSound,
}

Has-new_regions :
    (rs : List Region) (m : Dict Region) (w : Dict RegionState)
    → ((j : String) → Has m j → Has w j)
    → (k : String) → Has (index (λ r. r.id) rs m) k
    → Has (new_regions rs w) k
unfolding new_regions
Has-new_regions [] m w h = h
Has-new_regions (r ∷ rs) m w h =
    Has-new_regions rs (insert m r.id r) (insert w r.id _)
      (λ j. Has-insert_both m w r.id r _ j (h j))

Has-new_paths :
    (ps : List MapPath) (m : Dict MapPath) (w : Dict PathState)
    → ((j : String) → Has w j → Has m j)
    → (k : String) → Has (new_paths ps w) k
    → Has (index (λ p. p.id) ps m) k
unfolding new_paths
Has-new_paths [] m w h = h
Has-new_paths (p ∷ ps) m w h =
    Has-new_paths ps (insert m p.id p) (insert w p.id _) (λ j. Has-insert_both w m p.id _ p j (h j))

-- No unit stands in a new region.
new_regions-empty :
    (rs : List Region) (w : Dict RegionState)
    → ((k : String) (x : RegionState) → w k ≡ some x → x.units ≡ [])
    → (k : String) (x : RegionState) → new_regions rs w k ≡ some x
    → x.units ≡ []
unfolding new_regions
new_regions-empty [] w h = h
new_regions-empty (r ∷ rs) w h =
    new_regions-empty rs (insert w r.id _) (insert_induction (λ _ x. x.units ≡ []) w r.id _ refl h)

-- What `Load` and the traits of the ring bearer give of a unit that is to be placed.
abbrev pub Fits : World → UnitConfig → Type 0
Fits w u =
    (w.cfg.unit_by_id u.id ≡ some u)
    × Has w.regions u.start_region
    × ((is_ring_bearer u ≡ false) ⊎ (u.can_fortify ≡ false))

abbrev GoodStart : List UnitConfig → World → Type 0
GoodStart us w = IsWellFormed w × All (Fits w) us

unit_at-eq : (w : World) (u : UnitConfig) → w.cfg.unit_by_id u.id ≡ some u → unit_at w.cfg u.id ≡ u
unit_at-eq w u e = ground arith

-- A write to the regions keeps what the rest of the units need.
Fits-put_region :
    (w : World) (r : String) (rs : RegionState) (us : List UnitConfig)
    → All (Fits w) us
    → All (Fits (put_region w r rs)) us
Fits-put_region w r rs [] h = tt
Fits-put_region w r rs (u ∷ us) ((known, home, plain), rest) =
    ((known, Has-insert w.regions r u.start_region rs home, plain), Fits-put_region w r rs us rest)

add_unit-GoodStart :
    (u : UnitConfig) (us : List UnitConfig) (w : World)
    → GoodStart (u ∷ us) w
    → Gives (GoodStart us) (add_unit w u)
unfolding add_unit
add_unit-GoodStart u us w (h, ((known, home, plain), rest)) =
    let cfg_u = unit_at-eq w u known in
    let based = subst (λ c. Has w.regions c.start_region) (sym cfg_u) home in
    elim (Bool-cases (is_ring_bearer u)) [
      | inl b ↦
          rw (b, add_unit)
            (
              insert_unit-IsSound h u.id (new_unit u "") based refl (inl refl)
                  (λ _ may. absurd (ground (arith, cfg_u))),
              rest,
            )
      | inr b ↦ elim (Option-cases (w.regions u.start_region)) [
        | inl n ↦ absurd (home n)
        | inr (reg, e) ↦
            let u' = new_unit u u.start_region in
            let reg' : RegionState = record reg { units = reg.units ++ u.id ∷ [] } in
            let hu = insert_unit-IsSound h u.id u' based refl (inr home) (λ _ _. home) in
            let inside =
              All-append (Has (insert w.units u.id u')) reg.units (u.id ∷ [])
                (hu.residents u.start_region reg e) (Has-insert_self w.units u.id u', tt) in
            rw (b, add_unit)
              (rw e (
                insert_region-IsSound hu u.start_region reg' inside,
                Fits-put_region w u.start_region reg' us rest,
              ))
      ]
    ]

add_units-IsWellFormed :
    (us : List UnitConfig) (w : World) → GoodStart us w → Gives IsWellFormed (add_units us w)
unfolding add_units
add_units-IsWellFormed [] w (h, _) = h
add_units-IsWellFormed (u ∷ us) w good =
    let (v, e, good') = Gives-elim (GoodStart us) (add_unit w u) (add_unit-GoodStart u us w good) in
    rw (e, add_units) (add_units-IsWellFormed us v good')

if-IsWellFormed :
    (b : Bool) (v w : World) → IsWellFormed v → IsWellFormed w → IsWellFormed (if b then v else w)
if-IsWellFormed true v w hv hw = hv
if-IsWellFormed false v w hv hw = hw

derive_unit_ids-IsWellFormed :
    (us : List UnitConfig) (w : World) → IsWellFormed w → IsWellFormed (derive_unit_ids us w)
unfolding derive_unit_ids
derive_unit_ids-IsWellFormed [] w h = h
derive_unit_ids-IsWellFormed (u ∷ us) w h = derive_unit_ids-IsWellFormed us _ (
    if-IsWellFormed (is_ring_bearer u) _ _ h (
      if-IsWellFormed (u.side == side_shadow && (u.maia && nonempty u.maia_ability_paths)) _ w h h))

derive_region_ids-IsWellFormed :
    (rs : List Region) (w : World) → IsWellFormed w → IsWellFormed (derive_region_ids rs w)
unfolding derive_region_ids
derive_region_ids-IsWellFormed [] w h = h
derive_region_ids-IsWellFormed (r ∷ rs) w h =
    derive_region_ids-IsWellFormed rs _
      (if-IsWellFormed (r.special_role == "RING_DESTRUCTION_SITE") _ w h h)

derive_ids-IsWellFormed : (w : World) → IsWellFormed w → IsWellFormed (derive_ids w)
unfolding derive_ids
derive_ids-IsWellFormed w h =
    derive_region_ids-IsWellFormed w.cfg.regions (derive_unit_ids w.cfg.units w)
      (derive_unit_ids-IsWellFormed w.cfg.units w h)

-- Nobody who bears the ring can fortify.
abbrev pub IsPlain : UnitConfig → Type 0
IsPlain u = (is_ring_bearer u ≡ false) ⊎ (u.can_fortify ≡ false)

module _ (uf : UnitsFile) (mf : MapFile) (fine : IsAcceptable uf mf) where
  start_regions :
      (k : String) → Has (regions_of mf) k → Has (blank_world (configuration uf mf)).regions k
  unfolding blank_world
  start_regions = Has-new_regions mf.regions empty empty (λ j h. absurd (h refl))

  blank_world-IsWellFormed : IsWellFormed (blank_world (configuration uf mf))
  unfolding blank_world
  blank_world-IsWellFormed = record {
    named = λ id u e. absurd (cc);
    placed = λ id u e. absurd (cc);
    dug = λ id u e. absurd (cc);
    residents = λ r rs e.
        subst (All (Has empty))
          (sym (new_regions-empty mf.regions empty (λ _ _ n. absurd (cc)) r rs e)) tt;
    starts = λ id h. absurd (h refl);
    known = Has-new_paths mf.paths empty empty (λ j h. absurd (h refl));
    anchored = λ pid p e.
        let (a, b) =
          index_induction (λ q. q.id) (λ _ q. IsAnchored (regions_of mf) q) mf.paths empty
            (λ _ _ n. absurd (cc)) fine.3 pid p e in
        (start_regions p.from a, start_regions p.to b);
  }

  fits :
      (us : List UnitConfig)
      → All (λ u. units_of uf u.id ≡ some u) us
      → All (IsBased (regions_of mf) (paths_of mf)) us
      → All IsPlain us
      → All (Fits (blank_world (configuration uf mf))) us
  unfolding blank_world
  fits [] member based plain = tt
  fits (u ∷ us) (here, member) (based, rest) (plain, plains) =
      ((here, start_regions u.start_region based.0, plain), fits us member rest plains)

  new_world-Gives : All IsPlain uf.units → Gives IsWellFormed (new_world (configuration uf mf))
  unfolding new_world
  new_world-Gives plain =
      let blank = blank_world (configuration uf mf) in
      let (w, e, h) = Gives-elim IsWellFormed (add_units uf.units blank) (
        add_units-IsWellFormed uf.units blank (
          blank_world-IsWellFormed,
          fits uf.units (index_member (λ u. u.id) uf.units empty fine.2) fine.4 plain,
        )) in
      rw (e, new_world) (derive_ids-IsWellFormed w h)

-- From a configuration that `Load` accepted, where the ring bearer cannot fortify, `NewWorld`
-- returns (no nil is dereferenced), and its world is well formed.
pub load-new_world :
    (uf : UnitsFile) (mf : MapFile) (c : Config)
    → load (some uf) (some mf) ≡ ok c
    → All IsPlain uf.units
    → (w : World) × (new_world c ≡ some w) × IsWellFormed w
load-new_world uf mf c loaded plain =
    let (fine, e) = load-ok uf mf c loaded in
    Gives-elim IsWellFormed (new_world c)
      (subst (λ k. Gives IsWellFormed (new_world k)) e (new_world-Gives uf mf fine plain))
