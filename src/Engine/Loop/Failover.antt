-- ===== src/Engine/Loop/Failover.antt =====
-- A failover (option-b/internal/engine/recover.go, hub.go and engine.go): the world of the leader that
-- died goes through its session record and a hub to the leader that is promoted.
use lotr_kafka_strategy_game.Prelude.{
  String, ◌≡◌, refl, sym, subst, ◌∙◌, fun_ext, inl, inr, some, List, [], ◌∷◌, ◌++◌, arith, All,
  All-append, Dict, Has, Has_of_some, insert_induction, Option-cases, Bool-cases,
}
use mathlib.Core.Logic.{⊎_elim}
use lotr_kafka_strategy_game.Prelude.Steps.Rules.{Gives}
use lotr_kafka_strategy_game.Config.{Config}
use lotr_kafka_strategy_game.Game.State.{UnitState, RegionState, PathState, World, new_world}
use lotr_kafka_strategy_game.Game.WellFormed.{IsWellFormed, IsSound}
use lotr_kafka_strategy_game.Game.WellFormed.Complete.{All-map, new_world-IsComplete}
use lotr_kafka_strategy_game.Engine.Recover.{
  RecoverState, each_entry, restore_entries, restore_region, recover_region, stands, add_resident,
  add_residents, restore, build_recover_state, build_world_from_recover,
}
use lotr_kafka_strategy_game.Engine.Recover.RoundTrip.{
  Alike, Matches, bare, IsRecovered, restore-IsRecovered,
}
use lotr_kafka_strategy_game.Engine.Publish.{Json, Publication}
use lotr_kafka_strategy_game.Engine.Hub.{Hub}
use lotr_kafka_strategy_game.Engine.Hub.Cache.{apply_session}
use lotr_kafka_strategy_game.Engine.Hub.Views.{clone_world}
use lotr_kafka_strategy_game.Engine.Loop.{Engine, LeaderMsg, run_leader}
use lotr_kafka_strategy_game.Engine.Loop.Running.{IsFit, IsRunning, IsStartable, run_leader_returns}

-- Every region lists units that are there.
abbrev Resides : Dict UnitState → Dict RegionState → Type 0
Resides units m = (k : String) (r : RegionState) → m k ≡ some r → All (Has units) r.units

add_resident-Resides :
    (cfg : Config) (id : String) (u : UnitState) (units : Dict UnitState) (m : Dict RegionState)
    → Has units id
    → Resides units m
    → Resides units (add_resident cfg id u m)
unfolding add_resident
add_resident-Resides cfg id u units m there h = elim (Bool-cases (stands cfg id u)) [
  | inr f ↦ rw (f, add_resident) h
  | inl t ↦ elim (Option-cases (m u.region)) [
    | inl n ↦ rw (t, n, add_resident) h
    | inr (r, e) ↦
        rw (t, e, add_resident)
          (insert_induction (λ _ x. All (Has units) x.units) m u.region
            (record r { units = r.units ++ id ∷ [] })
            (All-append (Has units) r.units (id ∷ []) (h u.region r e) (there, tt)) h)
  ]
]

add_residents-Resides :
    (cfg : Config) (units : Dict UnitState) (ids : List String) (m : Dict RegionState)
    → Resides units m
    → Resides units (add_residents cfg units ids m)
unfolding add_residents
add_residents-Resides cfg units [] m h = h
add_residents-Resides cfg units (id ∷ ids) m h = elim (Option-cases (units id)) [
  | inl n ↦ rw (n, add_residents) (add_residents-Resides cfg units ids m h)
  | inr (u, e) ↦
      rw (e, add_residents)
        (add_residents-Resides cfg units ids (add_resident cfg id u m)
          (add_resident-Resides cfg id u units m (Has_of_some (units id) e) h))
]

-- Before the last loop, every region of a matching world has an empty list.
restored-empty :
    (m n : Dict RegionState) (k : String) (r : RegionState)
    → Alike (λ x. x.id) m n
    → restore_entries restore_region (each_entry recover_region n) m k ≡ some r
    → r.units ≡ []
restored-empty m n k r h e = ground (arith, h k)

same-keys :
    (m n : Dict RegionState) (k : String)
    → each_entry bare m k ≡ each_entry bare n k
    → (Has n k → Has m k) × (Has m k → Has n k)
same-keys m n k e = ground arith

restore-Resides :
    (ids : List String) (cfg : Config) (fresh w : World)
    → Matches fresh w
    → let back = restore ids cfg (build_recover_state w) fresh in Resides back.units back.regions
unfolding restore build_recover_state
restore-Resides ids cfg fresh w h =
    add_residents-Resides cfg _ ids _ (λ k r e.
      subst (All (Has _)) (sym (restored-empty fresh.regions w.regions k r h.regions e)) tt)

-- More regions, with residents that are there.
change_regions-IsSound :
    (cfg : Config) (units : Dict UnitState) (regions m : Dict RegionState) (paths : Dict PathState)
    → IsSound cfg units regions paths
    → ((k : String) → Has regions k → Has m k)
    → Resides units m
    → IsSound cfg units m paths
change_regions-IsSound cfg units regions m paths h grown inside = record {
  named = h.named;
  placed = λ id u e. ⊎_elim inl (λ p. inr (grown u.region p)) (h.placed id u e);
  dug = λ id u e a c. grown u.region (h.dug id u e a c);
  residents = inside;
  starts = λ id e. grown _ (h.starts id e);
  known = h.known;
  anchored = λ pid p e. let (a, b) = h.anchored pid p e in (grown p.from a, grown p.to b);
}

back-cfg :
    (ids : List String) (cfg : Config) (fresh w : World)
    → new_world cfg ≡ some fresh
    → (restore ids cfg (build_recover_state w) fresh).cfg ≡ cfg
unfolding restore
back-cfg ids cfg fresh w made = (new_world-IsComplete cfg fresh made).0

build-restore :
    (ids : List String) (cfg : Config) (fresh : World) (rs : RecoverState)
    → new_world cfg ≡ some fresh
    → build_world_from_recover ids cfg rs ≡ some (restore ids cfg rs fresh)
unfolding build_world_from_recover
build-restore ids cfg fresh rs made = rw (made, build_world_from_recover) refl

-- A hub that has read a session record gives back the world of that record.
session-clone :
    (ids : List String) (h : Hub) (rs : RecoverState) (back : World)
    → build_world_from_recover ids h.cfg rs ≡ some back
    → (h' : Hub) × (apply_session ids rs h ≡ some h') × (clone_world ids h' ≡ some (some back))
unfolding apply_session clone_world
session-clone ids h rs back built =
    rw (built, apply_session) (_, refl, rw (built, clone_world) refl)

restore-IsFit :
    (ids : List String) (cfg : Config) (fresh w : World)
    → new_world cfg ≡ some fresh
    → Matches fresh w
    → IsFit cfg w
    → IsFit cfg (restore ids cfg (build_recover_state w) fresh)
restore-IsFit ids cfg fresh w made h (sound, (here, regions, units)) =
    let back = restore ids cfg (build_recover_state w) fresh in
    let rec = restore-IsRecovered ids cfg fresh w h in
    let same_units : w.units ≡ back.units = sym (fun_ext rec.units) in
    let same_paths : w.paths ≡ back.paths = sym (fun_ext rec.paths) in
    let same_cfg : w.cfg ≡ back.cfg = here ∙ sym (back-cfg ids cfg fresh w made) in
    let grown = λ (k : String). (same-keys back.regions w.regions k (rec.regions k)).0 in
    let inside : Resides w.units back.regions =
      subst (λ us. Resides us back.regions) (sym same_units) (restore-Resides ids cfg fresh w h) in
    let changed =
      change_regions-IsSound w.cfg w.units w.regions back.regions w.paths sound grown inside in
    (
      subst (λ c. IsSound c back.units back.regions back.paths) same_cfg
          (subst (λ us. IsSound w.cfg us back.regions back.paths) same_units
            (subst (λ ps. IsSound w.cfg w.units back.regions ps) same_paths changed)),
      (
        sym same_cfg ∙ here,
        All-map cfg.regions (λ r p. grown r.id p) regions,
        subst (λ us. All (λ u. Has us u.id) cfg.units) same_units units,
      ),
    )

-- The world of a leader is well formed and has every region and unit of the configuration, and the new
-- world of the configuration has the same units, regions and paths. When the leader dies after writing
-- its session record, a hub that reads the record gives the leader that is promoted a world with all
-- that the record carries, and whatever messages that leader receives, no handler dereferences nil.
pub failover_returns :
    (json : Json) (ids : List String) (cfg : Config) (fresh w : World) (h : Hub) (e : Engine)
    (msgs : List LeaderMsg)
    → new_world cfg ≡ some fresh
    → IsWellFormed fresh
    → Matches fresh w
    → IsFit cfg w
    → h.cfg ≡ cfg
    → e.cfg ≡ cfg
    → (back : World) × IsRecovered w back
      × ((h' : Hub) × (apply_session ids (build_recover_state w) h ≡ some h')
          × (clone_world ids h' ≡ some (some back)))
      × ((r : Engine × List Publication) × (run_leader json (some back) msgs e ≡ some r)
          × IsRunning cfg r.0)
failover_returns json ids cfg fresh w h e msgs made well alike fit hub_cfg own_cfg =
    let rs = build_recover_state w in
    let back = restore ids cfg rs fresh in
    let start : IsStartable cfg = subst (Gives IsWellFormed) (sym made) well in
    let built : build_world_from_recover ids h.cfg rs ≡ some back =
      subst (λ c. build_world_from_recover ids c rs ≡ some back) (sym hub_cfg)
        (build-restore ids cfg fresh rs made) in
    (
      back,
      restore-IsRecovered ids cfg fresh w alike,
      session-clone ids h rs back built,
      run_leader_returns cfg json (some back) msgs e own_cfg start
          (restore-IsFit ids cfg fresh w made alike fit),
    )
