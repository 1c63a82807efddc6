-- ===== src/Config/Load.antt =====
-- `Load` of option-b/internal/config/config.go, after the two files are read: the checks of the
-- references between them, and the look-up maps. Reading and decoding a file is the caller's
-- argument, `none` where `readJSON` fails.
use lotr_kafka_strategy_game.Prelude.{
  String, Option, none, some, List, [], ◌∷◌, Dict, empty, insert,
}
use lotr_kafka_strategy_game.Config.{UnitConfig, Region, MapPath, UnitsFile, MapFile, Config}
use lotr_kafka_strategy_game.Config.MapGraph.{build_graph}

pub data LoadError : Type 0 where
  loading_units : LoadError
  loading_map : LoadError
  duplicate_region : String → LoadError
  duplicate_path : String → LoadError
  unknown_from : String → String → LoadError
  unknown_to : String → String → LoadError
  duplicate_unit : String → LoadError
  unknown_start : String → String → LoadError
  unknown_ability_path : String → String → LoadError

pub data Loaded {ℓ} (A : Type ℓ) : Type ℓ where
  ok : A → Loaded A
  err : LoadError → Loaded A

infixl 5 ◌>>=◌
abbrev pub ◌>>=◌ {ℓ κ} : {A : Type ℓ} {B : Type κ} → Loaded A → (A → Loaded B) → Loaded B
ok a >>= f = f a
err e >>= f = err e

-- `if _, dup := m[id]; dup { return err }`
abbrev pub absent {ℓ} : {V : Type ℓ} → Option V → LoadError → Loaded (Unit {0})
absent none e = ok tt
absent (some v) e = err e

-- `if _, ok := m[id]; !ok { return err }`
abbrev pub present {ℓ} : {V : Type ℓ} → Option V → LoadError → Loaded (Unit {0})
present none e = err e
present (some v) e = ok tt

unfoldable pub load_regions : List Region → Dict Region → Loaded (Dict Region)
load_regions [] m = ok m
load_regions (r ∷ rs) m =
    absent (m r.id) (duplicate_region r.id) >>= λ _. load_regions rs (insert m r.id r)

unfoldable pub check_path : Dict Region → Dict MapPath → MapPath → Loaded (Unit {0})
check_path regions m p =
    absent (m p.id) (duplicate_path p.id)
    >>= (λ _. present (regions p.from) (unknown_from p.id p.from))
    >>= λ _. present (regions p.to) (unknown_to p.id p.to)

unfoldable pub load_paths : Dict Region → List MapPath → Dict MapPath → Loaded (Dict MapPath)
load_paths regions [] m = ok m
load_paths regions (p ∷ ps) m =
    check_path regions m p >>= λ _. load_paths regions ps (insert m p.id p)

unfoldable pub check_abilities : Dict MapPath → String → List String → Loaded (Unit {0})
check_abilities paths unit [] = ok tt
check_abilities paths unit (pid ∷ pids) =
    present (paths pid) (unknown_ability_path unit pid) >>= λ _. check_abilities paths unit pids

unfoldable pub check_unit :
    Dict Region → Dict MapPath → Dict UnitConfig → UnitConfig → Loaded (Unit {0})
check_unit regions paths m u =
    absent (m u.id) (duplicate_unit u.id)
    >>= (λ _. present (regions u.start_region) (unknown_start u.id u.start_region))
    >>= λ _. check_abilities paths u.id u.maia_ability_paths

unfoldable pub load_units :
    Dict Region → Dict MapPath → List UnitConfig → Dict UnitConfig → Loaded (Dict UnitConfig)
load_units regions paths [] m = ok m
load_units regions paths (u ∷ us) m =
    check_unit regions paths m u >>= λ _. load_units regions paths us (insert m u.id u)

unfoldable pub build : UnitsFile → MapFile → Loaded Config
build uf mf = load_regions mf.regions empty >>= λ regions.
    load_paths regions mf.paths empty >>= λ paths.
    load_units regions paths uf.units empty >>= λ units. ok (record {
      hidden_until_turn = uf.hidden_until_turn;
      max_turns = uf.max_turns;
      turn_duration_seconds = uf.turn_duration_seconds;
      units = uf.units;
      regions = mf.regions;
      paths = mf.paths;
      unit_by_id = units;
      region_by_id = regions;
      path_by_id = paths;
      graph = build_graph mf.regions mf.paths;
    })

unfoldable pub load : Option UnitsFile → Option MapFile → Loaded Config
unfolding build
load none mf = err loading_units
load (some uf) none = err loading_map
load (some uf) (some mf) = build uf mf
