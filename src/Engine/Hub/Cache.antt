-- ===== src/Engine/Hub/Cache.antt =====
-- option-b/internal/engine/hub.go: what the events, the snapshots and the session records write to the
-- hub's cache.
use lotr_kafka_strategy_game.Prelude.{
  ℕ, String, true, false, Option, none, some, List, [], ◌∷◌, ◌==◌, if◌then◌else◌, eqb,
}
use lotr_kafka_strategy_game.Game.State.{
  PathStatus, PathState, World, put_unit, put_region, put_path,
}
use lotr_kafka_strategy_game.Engine.Recover.{RecoverState, build_world_from_recover}
use lotr_kafka_strategy_game.Engine.Messages.{
  Message, changed_path, corrupted_path, changed_control, resolved_battle, moved_ring,
  detected_ring, spotted_ring, ended_game, RegionSnap, UnitSnap, WorldSnapshotMsg,
  topic_events_path, topic_ring_position, topic_ring_detection,
}
use lotr_kafka_strategy_game.Engine.Hub.{HubEvent, Hub}

-- The fields of a record, by their JSON names; `none` where the record has no such text or number. A
-- record with an empty `newStatus`, which the source would store, is read as one without: no turn reports
-- a changed path without its status.
abbrev pub path_id_of : Message → Option String
path_id_of (changed_path m) = some m.path_id
path_id_of (corrupted_path m) = some m.path_id
path_id_of (spotted_ring m) = some m.path_id
path_id_of _ = none

abbrev pub new_status_of : Message → Option PathStatus
new_status_of (changed_path m) = m.new_status
new_status_of _ = none

abbrev pub surveillance_level_of : Message → Option ℕ
surveillance_level_of (changed_path m) = some m.surveillance_level
surveillance_level_of _ = none

abbrev pub true_region_of : Message → Option String
true_region_of (moved_ring m) = some m.true_region
true_region_of _ = none

abbrev pub region_id_of : Message → Option String
region_id_of (changed_control m) = some m.region_id
region_id_of (resolved_battle m) = some m.region_id
region_id_of (detected_ring m) = some m.region_id
region_id_of _ = none

abbrev pub winner_of : Message → Option String
winner_of (ended_game m) = some m.winner
winner_of _ = none

abbrev pub noted_status : Message → PathState → PathState
noted_status m p = elim (new_status_of m) [ none ↦ p | some s ↦ record p { status = s } ]

abbrev pub noted_surveillance : Message → PathState → PathState
noted_surveillance m p = elim (surveillance_level_of m) [
  | none ↦ p
  | some n ↦ record p { surveillance_level = n }
]

unfoldable pub note_path : Message → Hub → Hub
note_path m h = elim (path_id_of m) [
  | none ↦ h
  | some pid ↦ elim (h.cache.paths pid) [
    | none ↦ h
    | some p ↦ record h { cache = put_path h.cache pid (noted_surveillance m (noted_status m p)) }
  ]
]

abbrev pub ring_at : String → World → World
ring_at region w = record w { ring = record w.ring { true_region = region } }

unfoldable pub note_ring : Message → Hub → Hub
note_ring m h = elim (true_region_of m) [
  | none ↦ h
  | some region ↦ record h { light_ring_region = region; cache = ring_at region h.cache }
]

unfoldable pub note_detection : Message → Hub → Hub
note_detection m h = elim (region_id_of m) [
  | none ↦ h
  | some region ↦ record h { last_detected_region = region }
]

unfoldable pub note_end : Message → Hub → Hub
note_end m h = elim (winner_of m) [
  | none ↦ record h { game_over = true }
  | some w ↦ record h { game_over = true; winner = w }
]

unfoldable pub apply_event_to_cache : HubEvent → Hub → Hub
unfolding note_path note_ring note_detection note_end
apply_event_to_cache ev h =
    if ev.topic == topic_events_path
    then note_path ev.content h
    else if ev.topic == topic_ring_position
    then note_ring ev.content h
    else if ev.topic == topic_ring_detection
    then note_detection ev.content h
    else if ev.topic == "game.over"
    then note_end ev.content h
    else h

-- The loops of `applySnapshot`.
unfoldable pub note_regions : List RegionSnap → World → World
note_regions [] w = w
note_regions (s ∷ ss) w = note_regions ss (elim (w.regions s.region_id) [
  | none ↦ w
  | some r ↦ put_region w s.region_id (record r {
    controlled_by = s.controlled_by;
    threat_level = s.threat_level;
    fortified = s.fortified;
  })
])

unfoldable pub note_units : List UnitSnap → World → World
note_units [] w = w
note_units (s ∷ ss) w = note_units ss (elim (w.units s.unit_id) [
  | none ↦ w
  | some u ↦
      put_unit w s.unit_id
        (record u { region = s.region; strength = s.strength; status = s.status })
])

unfoldable pub apply_snapshot : WorldSnapshotMsg → Hub → Hub
unfolding note_regions note_units
apply_snapshot snap h =
    let fresh = eqb snap.turn 1 in
    record h {
      started = true;
      game_over = if fresh then false else h.game_over;
      winner = if fresh then "" else h.winner;
      cache =
          ring_at h.light_ring_region (
            note_units snap.units
              (note_regions snap.regions (record h.cache { turn = snap.turn })));
    }

-- `ids` gives the order of a range over the units in `buildWorldFromRecover`.
unfoldable pub apply_session : List String → RecoverState → Hub → Option Hub
unfolding build_world_from_recover
apply_session ids rs h = elim (build_world_from_recover ids h.cfg rs) [
  | none ↦ none
  | some w ↦ some (record h {
    started = true;
    last_recover = some rs;
    game_over = rs.game_over;
    winner = rs.winner;
    light_ring_region = rs.ring_region;
    cache = w;
  })
]
