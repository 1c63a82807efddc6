-- ===== src/Game/WellFormed.antt =====
-- The invariant of the world that keeps the code of option-b/internal/game from dereferencing nil:
-- who stands in which map, and which keys the maps share with the configuration.
pub mod Start
pub mod Complete
use lotr_kafka_strategy_game.Prelude.{
  String, ◌≡◌, refl, ◌∙◌, ◌⊎◌, inl, inr, Bool, true, false, Option, none, some, List, [], ◌∷◌, ◌++◌,
  ◌==◌, arith, eq_iff, text_cases, if◌then◌else◌, Dict, Has, Has-insert, Has-insert_back,
  Has-insert_cases, Has_of_some, insert_induction, insert, All, All-append, subst, sym,
}
use mathlib.Core.Logic.{⊎_elim}
use lotr_kafka_strategy_game.Config.{UnitConfig, MapPath, Config, unit_at, path_at}
use lotr_kafka_strategy_game.Game.State.{
  UnitState, RegionState, PathState, World, is_active, put_unit, put_region, put_path,
}

-- A unit stands in a known region or in none.
abbrev pub IsPlaced : Dict RegionState → UnitState → Type 0
IsPlaced regions u = (u.region ≡ "") ⊎ Has regions u.region

-- Where the unit's configuration lets it fortify and it is active, its region is known.
abbrev pub IsDug : Config → Dict RegionState → String → UnitState → Type 0
IsDug cfg regions id u =
    is_active u.status ≡ true → (unit_at cfg id).can_fortify ≡ true → Has regions u.region

pub record IsSound (cfg : Config) (units : Dict UnitState) (regions : Dict RegionState)
    (paths : Dict PathState) : Type 0 where
  pub named : (id : String) (u : UnitState) → units id ≡ some u → u.id ≡ id
  pub placed : (id : String) (u : UnitState) → units id ≡ some u → IsPlaced regions u
  pub dug : (id : String) (u : UnitState) → units id ≡ some u → IsDug cfg regions id u
  pub residents : (r : String) (rs : RegionState) → regions r ≡ some rs → All (Has units) rs.units
  pub starts : (id : String) → Has units id → Has regions (unit_at cfg id).start_region
  pub known : (pid : String) → Has paths pid → Has cfg.path_by_id pid
  pub anchored :
      (pid : String) (p : MapPath)
      → cfg.path_by_id pid ≡ some p
      → Has regions p.from × Has regions p.to

abbrev pub IsWellFormed : World → Type 0
IsWellFormed w = IsSound w.cfg w.units w.regions w.paths

pub All-Has-insert {ℓ} :
    {V : Type ℓ} (m : Dict V) (k : String) (v : V) (xs : List String)
    → All (Has m) xs
    → All (Has (insert m k v)) xs
All-Has-insert m k v [] h = tt
All-Has-insert m k v (x ∷ xs) h = (Has-insert m k x v h.0, All-Has-insert m k v xs h.1)

module _ {cfg : Config} {units : Dict UnitState} {regions : Dict RegionState}
    {paths : Dict PathState} (h : IsSound cfg units regions paths) where
  -- Writing a unit whose start region is known.
  pub insert_unit-IsSound :
      (id : String) (u : UnitState)
      → Has regions (unit_at cfg id).start_region
      → u.id ≡ id
      → IsPlaced regions u
      → IsDug cfg regions id u
      → IsSound cfg (insert units id u) regions paths
  insert_unit-IsSound id u based named placed dug = record {
    named = insert_induction (λ j v. v.id ≡ j) units id u named h.named;
    placed = insert_induction (λ _ v. IsPlaced regions v) units id u placed h.placed;
    dug = insert_induction (λ j v. IsDug cfg regions j v) units id u dug h.dug;
    residents = λ r rs e. All-Has-insert units id u rs.units (h.residents r rs e);
    starts = λ j e. elim (Has-insert_cases units id u j e) [
      | inl p ↦ subst (λ i. Has regions (unit_at cfg i).start_region) p based
      | inr there ↦ h.starts j there
    ];
    known = h.known;
    anchored = h.anchored;
  }

  -- Writing a region that is there, with known residents.
  pub insert_region-IsSound :
      (r : String) (rs : RegionState)
      → All (Has units) rs.units
      → IsSound cfg units (insert regions r rs) paths
  insert_region-IsSound r rs inside = record {
    named = h.named;
    placed = λ j v e. ⊎_elim inl (λ p. inr (Has-insert regions r v.region rs p)) (h.placed j v e);
    dug = λ j v e a c. Has-insert regions r v.region rs (h.dug j v e a c);
    residents = insert_induction (λ _ x. All (Has units) x.units) regions r rs inside h.residents;
    starts = λ j e. Has-insert regions r (unit_at cfg j).start_region rs (h.starts j e);
    known = h.known;
    anchored = λ pid p e.
        let (a, b) = h.anchored pid p e in
        (Has-insert regions r p.from rs a, Has-insert regions r p.to rs b);
  }

  -- Writing a path that is there.
  pub insert_path-IsSound :
      (pid : String) (p : PathState)
      → Has paths pid
      → IsSound cfg units regions (insert paths pid p)
  insert_path-IsSound pid p old = record {
    named = h.named;
    placed = h.placed;
    dug = h.dug;
    residents = h.residents;
    starts = h.starts;
    known = λ j e. h.known j (Has-insert_back paths pid p j old e);
    anchored = h.anchored;
  }

-- A unit that keeps its name, its region and its status, or is no longer active and stands nowhere,
-- may be written back.
abbrev pub Stays : UnitState → UnitState → Type 0
Stays u v =
    (v.id ≡ u.id)
    × (((v.region ≡ u.region) × (v.status ≡ u.status))
        ⊎ (v.region ≡ "") × (is_active v.status ≡ false))

pub Stays-IsWellFormed :
    (w : World) (id : String) (u v : UnitState)
    → IsWellFormed w
    → w.units id ≡ some u
    → Stays u v
    → IsWellFormed (put_unit w id v)
Stays-IsWellFormed w id u v h e s =
    insert_unit-IsSound h id v (h.starts id (Has_of_some _ e)) (s.0 ∙ h.named id u e)
      (ground (arith, h.placed id u e)) (λ a c. ground (arith, h.dug id u e))
