-- ===== src/Config/Integrity.antt =====
-- Which files `Load` (option-b/internal/config/config.go) accepts, and what its look-up maps hold.
use lotr_kafka_strategy_game.Prelude.{
  String, ◌≡◌, refl, sym, ap, subst, ◌⊎◌, inl, inr, ◌↔◌, Option, none, some, List, [], ◌∷◌, arith,
  eq_iff, eq_self, All, Dict, empty, insert, insert_induction, Has,
}
use mathlib.Core.Path.{subst₂}
use lotr_kafka_strategy_game.Prelude.Steps.Rules.{some_eq}
use lotr_kafka_strategy_game.Config.{UnitConfig, Region, MapPath, UnitsFile, MapFile, Config}
use lotr_kafka_strategy_game.Config.MapGraph.{build_graph}
use lotr_kafka_strategy_game.Config.Load.{
  Loaded, ok, err, LoadError, load_regions, check_path, load_paths, check_abilities, check_unit,
  load_units, build, load,
}

-- The map that a loop builds from the map `m`, when every item is written under its key.
abbrev pub index {ℓ} : {A : Type ℓ} → (A → String) → List A → Dict A → Dict A
index key [] m = m
index key (x ∷ xs) m = index key xs (insert m (key x) x)

-- No item is written under a key that is there already.
abbrev pub Fresh {ℓ} : {A : Type ℓ} → (A → String) → List A → Dict A → Type ℓ
Fresh key [] m = Unit
Fresh key (x ∷ xs) m = (m (key x) ≡ none) × Fresh key xs (insert m (key x) x)

-- The paths that `Load` accepts: both ends are known regions.
abbrev pub IsAnchored : Dict Region → MapPath → Type 0
IsAnchored regions p = Has regions p.from × Has regions p.to

-- The units that `Load` accepts: the start region is known, and so is every path of the ability.
abbrev pub IsBased : Dict Region → Dict MapPath → UnitConfig → Type 0
IsBased regions paths u = Has regions u.start_region × All (Has paths) u.maia_ability_paths

load_regions_iff :
    (rs : List Region) (m m' : Dict Region)
    → (load_regions rs m ≡ ok m') ↔ (Fresh (λ r. r.id) rs m × (index (λ r. r.id) rs m ≡ m'))
unfolding load_regions
load_regions_iff [] m m' = ground arith
load_regions_iff (r ∷ rs) m m' = ground (arith, load_regions_iff rs (insert m r.id r) m')

check_path_iff :
    (regions : Dict Region) (m : Dict MapPath) (p : MapPath)
    → (check_path regions m p ≡ ok tt) ↔ ((m p.id ≡ none) × IsAnchored regions p)
unfolding check_path
check_path_iff regions m p = ground arith

Loaded-cases {ℓ} :
    {A : Type ℓ} (r : Loaded A) → ((a : A) × (r ≡ ok a)) ⊎ ((e : LoadError) × (r ≡ err e))
Loaded-cases (ok a) = inl (a, refl)
Loaded-cases (err e) = inr (e, refl)

load_paths_iff :
    (regions : Dict Region) (ps : List MapPath) (m m' : Dict MapPath)
    → (load_paths regions ps m ≡ ok m')
      ↔ (Fresh (λ p. p.id) ps m × All (IsAnchored regions) ps × (index (λ p. p.id) ps m ≡ m'))
unfolding load_paths
load_paths_iff regions [] m m' = ground arith
load_paths_iff regions (p ∷ ps) m m' = elim (Loaded-cases (check_path regions m p)) [
  | inl (tt, c) ↦
      rw (c, load_paths)
        (ground (arith, check_path_iff regions m p, load_paths_iff regions ps (insert m p.id p) m'))
  | inr (e, c) ↦ rw (c, load_paths) (ground (arith, check_path_iff regions m p))
]

check_abilities_iff :
    (paths : Dict MapPath) (unit : String) (pids : List String)
    → (check_abilities paths unit pids ≡ ok tt) ↔ All (Has paths) pids
unfolding check_abilities
check_abilities_iff paths unit [] = ground arith
check_abilities_iff paths unit (pid ∷ pids) = ground (arith, check_abilities_iff paths unit pids)

check_unit_iff :
    (regions : Dict Region) (paths : Dict MapPath) (m : Dict UnitConfig) (u : UnitConfig)
    → (check_unit regions paths m u ≡ ok tt) ↔ ((m u.id ≡ none) × IsBased regions paths u)
unfolding check_unit
check_unit_iff regions paths m u =
    ground (arith, check_abilities_iff paths u.id u.maia_ability_paths)

load_units_iff :
    (regions : Dict Region) (paths : Dict MapPath) (us : List UnitConfig) (m m' : Dict UnitConfig)
    → (load_units regions paths us m ≡ ok m')
      ↔ (Fresh (λ u. u.id) us m × All (IsBased regions paths) us × (index (λ u. u.id) us m ≡ m'))
unfolding load_units
load_units_iff regions paths [] m m' = ground arith
load_units_iff regions paths (u ∷ us) m m' = elim (Loaded-cases (check_unit regions paths m u)) [
  | inl (tt, c) ↦
      rw (c, load_units)
        (ground (
          arith,
          check_unit_iff regions paths m u,
          load_units_iff regions paths us (insert m u.id u) m',
        ))
  | inr (e, c) ↦ rw (c, load_units) (ground (arith, check_unit_iff regions paths m u))
]

-- The three maps of the configuration, as the loops build them.
abbrev pub regions_of : MapFile → Dict Region
regions_of mf = index (λ r. r.id) mf.regions empty

abbrev pub paths_of : MapFile → Dict MapPath
paths_of mf = index (λ p. p.id) mf.paths empty

abbrev pub units_of : UnitsFile → Dict UnitConfig
units_of uf = index (λ u. u.id) uf.units empty

-- No two regions, no two paths and no two units have the same id; every path joins known regions;
-- every unit starts in a known region, and its ability paths are known.
abbrev pub IsAcceptable : UnitsFile → MapFile → Type 0
IsAcceptable uf mf =
    Fresh (λ r. r.id) mf.regions empty
    × Fresh (λ p. p.id) mf.paths empty
    × Fresh (λ u. u.id) uf.units empty
    × All (IsAnchored (regions_of mf)) mf.paths
    × All (IsBased (regions_of mf) (paths_of mf)) uf.units

abbrev pub configuration : UnitsFile → MapFile → Config
configuration uf mf = record {
  hidden_until_turn = uf.hidden_until_turn;
  max_turns = uf.max_turns;
  turn_duration_seconds = uf.turn_duration_seconds;
  units = uf.units;
  regions = mf.regions;
  paths = mf.paths;
  unit_by_id = units_of uf;
  region_by_id = regions_of mf;
  path_by_id = paths_of mf;
  graph = build_graph mf.regions mf.paths;
}

build-ok :
    (uf : UnitsFile) (mf : MapFile) (c : Config)
    → build uf mf ≡ ok c
    → IsAcceptable uf mf × (configuration uf mf ≡ c)
unfolding build
build-ok uf mf c h = elim (Loaded-cases (load_regions mf.regions empty)) [
  | inr (e, q) ↦ absurd (cc (rw (q, build) at h))
  | inl (regions, q) ↦ elim (Loaded-cases (load_paths regions mf.paths empty)) [
    | inr (e, p) ↦ absurd (cc (rw (q, p, build) at h))
    | inl (paths, p) ↦ elim (Loaded-cases (load_units regions paths uf.units empty)) [
      | inr (e, u) ↦ absurd (cc (rw (q, p, u, build) at h))
      | inl (units, u) ↦
          let (fr, er) = (load_regions_iff mf.regions empty regions).0 q in
          let (fp, ap, ep) = (load_paths_iff regions mf.paths empty paths).0 p in
          let (fu, au, eu) = (load_units_iff regions paths uf.units empty units).0 u in
          (
            (
              fr,
              fp,
              fu,
              subst (λ x. All (IsAnchored x) mf.paths) (sym er) ap,
              subst₂ (λ x y. All (IsBased x y) uf.units) (sym er) (sym ep) au,
            ),
            cc (er, ep, eu, rw (q, p, u, build) at h),
          )
    ]
  ]
]

build-ok_back :
    (uf : UnitsFile) (mf : MapFile) → IsAcceptable uf mf → build uf mf ≡ ok (configuration uf mf)
unfolding build
build-ok_back uf mf (fr, fp, fu, ap, au) =
    rw ((load_regions_iff mf.regions empty (regions_of mf)).1 (fr, refl), build)
      (rw ((load_paths_iff (regions_of mf) mf.paths empty (paths_of mf)).1 (fp, ap, refl), build)
        (rw (
          (load_units_iff (regions_of mf) (paths_of mf) uf.units empty (units_of uf)).1
              (fu, au, refl),
          build,
        )))

-- A load of two files that were read.
pub load-ok :
    (uf : UnitsFile) (mf : MapFile) (c : Config)
    → load (some uf) (some mf) ≡ ok c
    → IsAcceptable uf mf × (configuration uf mf ≡ c)
unfolding load
load-ok uf mf c h = build-ok uf mf c h

-- `Load` succeeds exactly if both files were read, no id is repeated and every reference between
-- them is known; the configuration then holds the lists of the files, the maps that index them by
-- id, and the graph of the paths.
pub load_iff :
    (units : Option UnitsFile) (map : Option MapFile) (c : Config)
    → (load units map ≡ ok c) ↔ (
        (uf : UnitsFile) × (mf : MapFile) × (units ≡ some uf)
        × (map ≡ some mf)
        × IsAcceptable uf mf
        × (configuration uf mf ≡ c))
unfolding load
load_iff none map c = (λ h. absurd (cc h), λ h. absurd (cc h.2))
load_iff (some uf) none c = (λ h. absurd (cc h), λ h. absurd (cc h.3))
load_iff (some uf) (some mf) c = (
  λ h. let (fine, made) = load-ok uf mf c h in (uf, mf, refl, refl, fine, made),
  λ (uf', mf', e, q, fine, made). cc (some_eq e, some_eq q, build-ok_back uf' mf' fine, made),
)

module _ {ℓ κ} {A : Type ℓ} (key : A → String) (P : String → A → Type κ) where
  -- What holds of every entry of `m`, and of every item under its key, holds of every entry.
  pub index_induction :
      (xs : List A) (m : Dict A)
      → ((k : String) (x : A) → m k ≡ some x → P k x)
      → All (λ x. P (key x) x) xs
      → (k : String) (x : A) → index key xs m k ≡ some x
      → P k x
  index_induction [] m old new = old
  index_induction (y ∷ ys) m old new =
      index_induction ys (insert m (key y) y) (insert_induction P m (key y) y new.0 old) new.1

module _ {ℓ} {A : Type ℓ} (key : A → String) where
  -- No later item replaces an entry.
  index_keeps :
      (xs : List A) (m : Dict A) (k : String) (v : A)
      → Fresh key xs m
      → m k ≡ some v
      → index key xs m k ≡ some v
  index_keeps [] m k v f h = h
  index_keeps (x ∷ xs) m k v f h =
      index_keeps xs (insert m (key x) x) k v f.1 (ground (arith, eq_iff (key x) k))

  -- Every item stands under its key.
  pub index_member :
      (xs : List A) (m : Dict A) → Fresh key xs m → All (λ x. index key xs m (key x) ≡ some x) xs
  index_member [] m f = tt
  index_member (x ∷ xs) m f = (
    index_keeps xs (insert m (key x) x) (key x) x f.1 (rw eq_self),
    index_member xs (insert m (key x) x) f.1,
  )
