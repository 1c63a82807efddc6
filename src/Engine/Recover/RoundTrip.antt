-- ===== src/Engine/Recover/RoundTrip.antt =====
-- What a world built back by option-b/internal/engine/recover.go has kept of the world recorded.
use lotr_kafka_strategy_game.Prelude.{
  String, ◌≡◌, refl, ◌∙◌, ◌⊎◌, inl, inr, Option-cases, none, some, List, [], ◌∷◌, arith, eq_iff,
  Dict,
}
use lotr_kafka_strategy_game.Config.{Config}
use lotr_kafka_strategy_game.Game.State.{UnitState, RegionState, PathState, World, new_world}
use lotr_kafka_strategy_game.Engine.Recover.{
  each_entry, restore_entries, recover_unit, restore_unit, recover_region, restore_region,
  recover_path, restore_path, build_recover_state, add_resident, add_residents, restore,
  build_world_from_recover,
}

-- Two maps have the same keys, and their entries agree on `key`.
abbrev pub Alike {ℓ} : {V : Type ℓ} → (V → String) → Dict V → Dict V → Type ℓ
Alike key m n =
    (k : String)
    → ((m k ≡ none) × (n k ≡ none))
      ⊎ ((v : _) × (x : _) × (m k ≡ some v) × (n k ≡ some x) × (key v ≡ key x))

pub Alike-same {ℓ} : {V : Type ℓ} (key : V → String) (m : Dict V) → Alike key m m
Alike-same key m k = elim (Option-cases (m k)) [
  | inl n ↦ inl (n, n)
  | inr (v, e) ↦ inr (v, v, e, e, refl)
]

-- The new world has the units, regions and paths of the recorded one, with the same ids.
pub record Matches (fresh w : World) : Type 0 where
  pub units : Alike (λ u. u.id) fresh.units w.units
  pub regions : Alike (λ r. r.id) fresh.regions w.regions
  pub paths : Alike (λ p. p.id) fresh.paths w.paths

-- A region apart from the list of its units.
abbrev pub bare : RegionState → RegionState
bare r = record r { units = [] }

restored_unit :
    (m n : Dict UnitState) (k : String)
    → Alike (λ u. u.id) m n
    → restore_entries restore_unit (each_entry recover_unit n) m k ≡ n k
restored_unit m n k h = ground (arith, h k)

restored_path :
    (m n : Dict PathState) (k : String)
    → Alike (λ p. p.id) m n
    → restore_entries restore_path (each_entry recover_path n) m k ≡ n k
restored_path m n k h = ground (arith, h k)

restored_region :
    (m n : Dict RegionState) (k : String)
    → Alike (λ r. r.id) m n
    → restore_entries restore_region (each_entry recover_region n) m k ≡ each_entry bare n k
restored_region m n k h = ground (arith, h k)

add_resident-bare :
    (cfg : Config) (id : String) (u : UnitState) (m : Dict RegionState) (k : String)
    → each_entry bare (add_resident cfg id u m) k ≡ each_entry bare m k
unfolding add_resident
add_resident-bare cfg id u m k = ground (arith, eq_iff u.region k)

-- The last loop changes the lists of units and nothing else.
add_residents-bare :
    (cfg : Config) (units : Dict UnitState) (ids : List String) (m : Dict RegionState) (k : String)
    → each_entry bare (add_residents cfg units ids m) k ≡ each_entry bare m k
unfolding add_residents
add_residents-bare cfg units [] m k = refl
add_residents-bare cfg units (id ∷ ids) m k = elim (Option-cases (units id)) [
  | inl n ↦ rw (n, add_residents) (add_residents-bare cfg units ids m k)
  | inr (u, e) ↦
      rw (e, add_residents)
        (add_residents-bare cfg units ids (add_resident cfg id u m) k
          ∙ add_resident-bare cfg id u m k)
]

-- All that the recovery record carries is what the recorded world had: each unit and each path, each
-- region apart from its list of units, the turn, the outcome, and the ring bearer's position, route
-- and exposure.
pub record IsRecovered (w back : World) : Type 0 where
  pub turn : back.turn ≡ w.turn
  pub game_over : back.game_over ≡ w.game_over
  pub winner : back.winner ≡ w.winner
  pub saruman : back.saruman_disabled ≡ w.saruman_disabled
  pub region : back.ring.true_region ≡ w.ring.true_region
  pub route : (back.ring.route ≡ w.ring.route) × (back.ring.route_idx ≡ w.ring.route_idx)
  pub exposed : back.ring.exposed ≡ w.ring.exposed
  pub units : (k : String) → back.units k ≡ w.units k
  pub paths : (k : String) → back.paths k ≡ w.paths k
  pub regions : (k : String) → each_entry bare back.regions k ≡ each_entry bare w.regions k

pub restore-IsRecovered :
    (ids : List String) (cfg : Config) (fresh w : World)
    → Matches fresh w
    → IsRecovered w (restore ids cfg (build_recover_state w) fresh)
unfolding restore build_recover_state
restore-IsRecovered ids cfg fresh w h = record {
  turn = refl;
  game_over = refl;
  winner = refl;
  saruman = refl;
  region = refl;
  route = (refl, refl);
  exposed = refl;
  units = λ k. restored_unit fresh.units w.units k h.units;
  paths = λ k. restored_path fresh.paths w.paths k h.paths;
  regions = λ k.
      add_residents-bare cfg
        (restore_entries restore_unit (build_recover_state w).units fresh.units) ids
        (restore_entries restore_region (build_recover_state w).regions fresh.regions) k
      ∙ ground (arith, restored_region fresh.regions w.regions k h.regions);
}

-- A leader that is promoted gets back what the record carries: when the new world of the
-- configuration has the units, regions and paths of the recorded world, building a world from its
-- record succeeds, in whatever order the units are ranged over, and gives back every unit, every path,
-- every region apart from its list of units, the turn, the outcome, and the ring bearer's
-- position, route and exposure.
pub recover-round_trip :
    (ids : List String) (cfg : Config) (fresh w : World)
    → new_world cfg ≡ some fresh
    → Matches fresh w
    → (back : World) × (build_world_from_recover ids cfg (build_recover_state w) ≡ some back)
      × IsRecovered w back
unfolding build_world_from_recover
recover-round_trip ids cfg fresh w e h = (
  restore ids cfg (build_recover_state w) fresh,
  rw (e, build_world_from_recover) refl,
  restore-IsRecovered ids cfg fresh w h,
)
