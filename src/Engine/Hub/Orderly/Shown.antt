-- ===== src/Engine/Hub/Orderly/Shown.antt =====
-- That the cache of option-b/internal/engine/hub.go keeps an entry for every region, unit and path of the
-- configuration, which `buildStateView` dereferences.
use lotr_kafka_strategy_game.Prelude.{
  String, ◌≡◌, refl, subst, inl, inr, Bool, true, false, some, List, [], ◌∷◌, ◌==◌, arith, All,
  Dict, Has, Has-insert, Option-cases, if◌then◌else◌,
}
use lotr_kafka_strategy_game.Prelude.Steps.Rules.{some_eq}
use lotr_kafka_strategy_game.Config.{MapPath, Config}
use lotr_kafka_strategy_game.Game.State.{
  UnitState, RegionState, PathState, World, new_world, put_region, put_unit,
}
use lotr_kafka_strategy_game.Game.WellFormed.Complete.{
  HasRegions, HasUnits, HasPaths, All-map, new_world-IsComplete, new_world-HasPaths,
}
use lotr_kafka_strategy_game.Engine.Recover.{
  RecoverState, restore_entries, restore_unit, restore_region, restore_path, RecoverUnit,
  RecoverPath, add_resident, add_residents, restore, build_world_from_recover,
}
use lotr_kafka_strategy_game.Engine.Recover.Residents.{Has-add_resident, restored-Has}
use lotr_kafka_strategy_game.Engine.Messages.{
  Message, RegionSnap, UnitSnap, PathSnap, ApiState, WorldSnapshotMsg, topic_events_path,
  topic_ring_position, topic_ring_detection,
}
use lotr_kafka_strategy_game.Engine.Publish.Snapshots.{snap_regions_lem, snap_units_lem}
use lotr_kafka_strategy_game.Engine.Hub.{HubEvent, Hub}
use lotr_kafka_strategy_game.Engine.Hub.Cache.{
  note_path, note_ring, note_detection, note_end, apply_event_to_cache, note_regions, note_units,
  apply_snapshot, apply_session, path_id_of, true_region_of, region_id_of, winner_of,
}
use lotr_kafka_strategy_game.Engine.Hub.Views.{snap_paths, build_state_view}

abbrev IsWhole : Config → World → Type 0
IsWhole cfg w = HasRegions cfg.regions w × HasUnits cfg.units w × HasPaths cfg.paths w

-- The cache has every region, unit and path of the configuration.
abbrev pub CanShow : Hub → Type 0
CanShow h = IsWhole h.cfg h.cache

-- `w` has what `v` has.
abbrev Keeps : World → World → Type 0
Keeps v w =
    ((k : String) → Has v.regions k → Has w.regions k)
    × ((k : String) → Has v.units k → Has w.units k)
    × ((k : String) → Has v.paths k → Has w.paths k)

Keeps-IsWhole : (cfg : Config) (v w : World) → Keeps v w → IsWhole cfg v → IsWhole cfg w
Keeps-IsWhole cfg v w (rs, us, ps) (hr, hu, hp) = (
  All-map cfg.regions (λ r. rs r.id) hr,
  All-map cfg.units (λ u. us u.id) hu,
  All-map cfg.paths (λ p. ps p.id) hp,
)

snap_paths_returns :
    (m : Dict PathState) (ps : List MapPath)
    → All (λ p. Has m p.id) ps
    → (ss : List PathSnap) × (snap_paths m ps ≡ some ss)
unfolding snap_paths
snap_paths_returns m [] h = ([], refl)
snap_paths_returns m (p ∷ ps) (h, hs) = elim (Option-cases (m p.id)) [
  | inl n ↦ absurd (h n)
  | inr (s, e) ↦ let (ss, q) = snap_paths_returns m ps hs in rw (e, q, snap_paths) (_, refl)
]

pub build_state_view_returns :
    (side : String) (h : Hub) → CanShow h → (v : ApiState) × (build_state_view side h ≡ some v)
unfolding build_state_view
build_state_view_returns side h (hr, hu, hp) =
    let (rs, r, _) = snap_regions_lem h.cache.regions h.cfg.regions hr in
    let (us, u, _) = snap_units_lem h.cache.units h.cfg.units hu in
    let (ps, p) = snap_paths_returns h.cache.paths h.cfg.paths hp in
    rw (r, u, p, build_state_view) (_, refl)

note_path-CanShow : (m : Message) (h : Hub) → CanShow h → CanShow (note_path m h)
unfolding note_path
note_path-CanShow m h s = elim (Option-cases (path_id_of m)) [
  | inl n ↦ rw (n, note_path) s
  | inr (pid, e) ↦ elim (Option-cases (h.cache.paths pid)) [
    | inl n ↦ rw (e, n, note_path) s
    | inr (p, q) ↦
        rw (e, q, note_path)
          (s.0, s.1, All-map h.cfg.paths (λ x. Has-insert h.cache.paths pid x.id _) s.2)
  ]
]

note_ring-CanShow : (m : Message) (h : Hub) → CanShow h → CanShow (note_ring m h)
unfolding note_ring
note_ring-CanShow m h s = elim (Option-cases (true_region_of m)) [
  | inl n ↦ rw (n, note_ring) s
  | inr (region, e) ↦ rw (e, note_ring) s
]

note_detection-CanShow : (m : Message) (h : Hub) → CanShow h → CanShow (note_detection m h)
unfolding note_detection
note_detection-CanShow m h s = elim (Option-cases (region_id_of m)) [
  | inl n ↦ rw (n, note_detection) s
  | inr (region, e) ↦ rw (e, note_detection) s
]

note_end-CanShow : (m : Message) (h : Hub) → CanShow h → CanShow (note_end m h)
unfolding note_end
note_end-CanShow m h s = elim (Option-cases (winner_of m)) [
  | inl n ↦ rw (n, note_end) s
  | inr (winner, e) ↦ rw (e, note_end) s
]

CanShow-if : (b : Bool) (g h : Hub) → CanShow g → CanShow h → CanShow (if b then g else h)
CanShow-if true g h sg sh = sg
CanShow-if false g h sg sh = sh

pub apply_event-CanShow :
    (ev : HubEvent) (h : Hub) → CanShow h → CanShow (apply_event_to_cache ev h)
unfolding apply_event_to_cache
apply_event-CanShow ev h s =
    CanShow-if (ev.topic == topic_events_path) _ _ (note_path-CanShow ev.content h s) (
      CanShow-if (ev.topic == topic_ring_position) _ _ (note_ring-CanShow ev.content h s) (
        CanShow-if (ev.topic == topic_ring_detection) _ _ (note_detection-CanShow ev.content h s)
          (CanShow-if (ev.topic == "game.over") _ h (note_end-CanShow ev.content h s) s)))

note_regions-Keeps : (ss : List RegionSnap) (w : World) → Keeps w (note_regions ss w)
unfolding note_regions
note_regions-Keeps [] w = (λ k h. h, λ k h. h, λ k h. h)
note_regions-Keeps (s ∷ ss) w = elim (Option-cases (w.regions s.region_id)) [
  | inl n ↦ rw (n, note_regions) (note_regions-Keeps ss w)
  | inr (r, e) ↦
      let (rs, us, ps) = note_regions-Keeps ss (put_region w s.region_id _) in
      rw (e, note_regions) (λ k h. rs k (Has-insert w.regions s.region_id k _ h), us, ps)
]

note_units-Keeps : (ss : List UnitSnap) (w : World) → Keeps w (note_units ss w)
unfolding note_units
note_units-Keeps [] w = (λ k h. h, λ k h. h, λ k h. h)
note_units-Keeps (s ∷ ss) w = elim (Option-cases (w.units s.unit_id)) [
  | inl n ↦ rw (n, note_units) (note_units-Keeps ss w)
  | inr (r, e) ↦
      let (rs, us, ps) = note_units-Keeps ss (put_unit w s.unit_id _) in
      rw (e, note_units) (rs, λ k h. us k (Has-insert w.units s.unit_id k _ h), ps)
]

pub apply_snapshot-CanShow :
    (snap : WorldSnapshotMsg) (h : Hub) → CanShow h → CanShow (apply_snapshot snap h)
unfolding apply_snapshot
apply_snapshot-CanShow snap h s =
    let start : World = record h.cache { turn = snap.turn } in
    let shown : World = note_regions snap.regions start in
    Keeps-IsWhole h.cfg shown (note_units snap.units shown) (note_units-Keeps snap.units shown)
      (Keeps-IsWhole h.cfg start shown (note_regions-Keeps snap.regions start) s)

restored_unit-Has :
    (saved : Dict RecoverUnit) (m : Dict UnitState) (k : String)
    → Has m k
    → Has (restore_entries restore_unit saved m) k
restored_unit-Has saved m k h = ground arith

restored_path-Has :
    (saved : Dict RecoverPath) (m : Dict PathState) (k : String)
    → Has m k
    → Has (restore_entries restore_path saved m) k
restored_path-Has saved m k h = ground arith

add_residents-Has :
    (cfg : Config) (units : Dict UnitState) (ids : List String) (m : Dict RegionState) (k : String)
    → Has m k
    → Has (add_residents cfg units ids m) k
unfolding add_residents
add_residents-Has cfg units [] m k h = h
add_residents-Has cfg units (id ∷ ids) m k h = elim (Option-cases (units id)) [
  | inl n ↦ rw (n, add_residents) (add_residents-Has cfg units ids m k h)
  | inr (u, e) ↦
      rw (e, add_residents)
        (add_residents-Has cfg units ids (add_resident cfg id u m) k
          (Has-add_resident cfg id u m k h))
]

restore-Keeps :
    (ids : List String) (cfg : Config) (rs : RecoverState) (w : World)
    → Keeps w (restore ids cfg rs w)
unfolding restore
restore-Keeps ids cfg rs w = (
  λ k h.
      add_residents-Has cfg (restore_entries restore_unit rs.units w.units) ids
        (restore_entries restore_region rs.regions w.regions) k
        (restored-Has rs.regions w.regions k h),
  λ k h. restored_unit-Has rs.units w.units k h,
  λ k h. restored_path-Has rs.paths w.paths k h,
)

pub apply_session-CanShow :
    (ids : List String) (rs : RecoverState) (h h' : Hub)
    → apply_session ids rs h ≡ some h'
    → CanShow h'
unfolding apply_session build_world_from_recover
apply_session-CanShow ids rs h h' e = elim (Option-cases (new_world h.cfg)) [
  | inl n ↦ absurd (cc (rw (n, apply_session, build_world_from_recover) at e))
  | inr (w, q) ↦
      let (_, hr, hu) = new_world-IsComplete h.cfg w q in
      subst CanShow (some_eq (rw (q, apply_session, build_world_from_recover) at e)) (
        Keeps-IsWhole h.cfg w (restore ids h.cfg rs w) (restore-Keeps ids h.cfg rs w)
          (hr, hu, new_world-HasPaths h.cfg w q))
]
