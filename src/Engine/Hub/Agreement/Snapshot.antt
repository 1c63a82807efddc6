-- ===== src/Engine/Hub/Agreement/Snapshot.antt =====
-- The state that a hub shows after a leader's snapshot (option-b/internal/engine/publish.go and hub.go).
use lotr_kafka_strategy_game.Prelude.{
  ℕ, String, ◌≡◌, refl, sym, subst, ◌∙◌, ap, inl, inr, true, some, List, ◌==◌, eqb, false,
  Option-cases, if◌then◌else◌,
}
use lotr_kafka_strategy_game.Prelude.Steps.Rules.{some_eq}
use lotr_kafka_strategy_game.Config.{Config}
use lotr_kafka_strategy_game.Game.State.{World}
use lotr_kafka_strategy_game.Engine.Messages.{
  RegionSnap, UnitSnap, PathSnap, WorldSnapshotMsg, ApiState,
}
use lotr_kafka_strategy_game.Engine.Publish.{snap_regions, snap_units, snapshot_of, build_snapshot}
use lotr_kafka_strategy_game.Engine.Hub.{player_dark, Hub}
use lotr_kafka_strategy_game.Engine.Hub.Cache.{note_regions, apply_snapshot}
use lotr_kafka_strategy_game.Engine.Hub.Views.{snap_paths, build_state_view}
use lotr_kafka_strategy_game.Engine.Hub.Agreement.Written.{
  noted_units, note_regions-maps, note_units-maps, note_regions-reads, note_units-reads,
}

-- What a snapshot of a world is made of.
snapshot_of-parts :
    (cfg : Config) (now : ℕ) (w : World) (snap : WorldSnapshotMsg)
    → snapshot_of cfg now w ≡ some snap
    → (snap_regions w.regions cfg.regions ≡ some snap.regions)
      × (snap_units w.units cfg.units ≡ some snap.units)
      × (w.turn ≡ snap.turn)
unfolding snapshot_of
snapshot_of-parts cfg now w snap e = elim (Option-cases (snap_regions w.regions cfg.regions)) [
  | inl n ↦ absurd (cc (rw (n, snapshot_of) at e))
  | inr (rs, p) ↦ elim (Option-cases (snap_units w.units cfg.units)) [
    | inl n ↦ absurd (cc (rw (p, n, snapshot_of) at e))
    | inr (us, q) ↦
        let made = some_eq (rw (p, q, snapshot_of) at e) in
        (
          p ∙ ap (λ (x : WorldSnapshotMsg). some x.regions) made,
          q ∙ ap (λ (x : WorldSnapshotMsg). some x.units) made,
          ap (λ (x : WorldSnapshotMsg). x.turn) made,
        )
  ]
]

abbrev shown_state : String → Hub → List RegionSnap → List UnitSnap → List PathSnap → ApiState
shown_state side h rs us ps = record {
  turn = h.cache.turn;
  ring_bearer_region = if side == player_dark then "" else h.light_ring_region;
  units = us;
  regions = rs;
  paths = ps;
  winner = h.winner;
  game_over = h.game_over;
  started = h.started;
}

build_state_view-parts :
    (side : String) (h : Hub) (old : ApiState)
    → build_state_view side h ≡ some old
    → (rs : List RegionSnap) × (us : List UnitSnap) × (ps : List PathSnap) × (snap_regions
          h.cache.regions h.cfg.regions
        ≡ some rs)
      × (snap_units h.cache.units h.cfg.units ≡ some us)
      × (snap_paths h.cache.paths h.cfg.paths ≡ some ps)
      × (shown_state side h rs us ps ≡ old)
unfolding build_state_view
build_state_view-parts side h old e =
    elim (Option-cases (snap_regions h.cache.regions h.cfg.regions)) [
      | inl n ↦ absurd (cc (rw (n, build_state_view) at e))
      | inr (rs, p) ↦ elim (Option-cases (snap_units h.cache.units h.cfg.units)) [
        | inl n ↦ absurd (cc (rw (p, n, build_state_view) at e))
        | inr (us, q) ↦ elim (Option-cases (snap_paths h.cache.paths h.cfg.paths)) [
          | inl n ↦ absurd (cc (rw (p, q, n, build_state_view) at e))
          | inr (ps, r) ↦ (rs, us, ps, p, q, r, some_eq (rw (p, q, r, build_state_view) at e))
        ]
      ]
    ]

build_state_view-made :
    (side : String) (h : Hub) (rs : List RegionSnap) (us : List UnitSnap) (ps : List PathSnap)
    → snap_regions h.cache.regions h.cfg.regions ≡ some rs
    → snap_units h.cache.units h.cfg.units ≡ some us
    → snap_paths h.cache.paths h.cfg.paths ≡ some ps
    → build_state_view side h ≡ some (shown_state side h rs us ps)
unfolding build_state_view
build_state_view-made side h rs us ps p q r = rw (p, q, r, build_state_view) refl

-- After a leader's snapshot of its world, a hub that could show its state before it shows the turn,
-- the regions and the units of the snapshot, taken from the leader's world; the snapshot of turn 1 also
-- clears the result of the last game, and the ring bearer's region and the paths stay as they were.
pub apply_snapshot-view :
    (side : String) (h : Hub) (now : ℕ) (w : World) (snap : WorldSnapshotMsg) (old : ApiState)
    → build_snapshot h.cfg now (some w) ≡ some snap
    → build_state_view side h ≡ some old
    → build_state_view side (apply_snapshot snap h)
      ≡ some (record old {
        turn = w.turn;
        regions = snap.regions;
        units = snap.units;
        winner = if eqb w.turn 1 then "" else old.winner;
        game_over = if eqb w.turn 1 then false else old.game_over;
        started = true;
      })
unfolding build_snapshot apply_snapshot
apply_snapshot-view side h now w snap old e before =
    let (rs, us, ps, p, q, r, same) = build_state_view-parts side h old before in
    let (regions, units, turn) = snapshot_of-parts h.cfg now w snap e in
    let start : World = record h.cache { turn = snap.turn } in
    let (noted_r, kept_u, kept_p, kept_t) = note_regions-maps snap.regions start in
    let (noted_u, kept_r, kept_q, kept_s) =
      note_units-maps snap.units (note_regions snap.regions start) in
    let shown =
      build_state_view-made side (apply_snapshot snap h) snap.regions snap.units ps
        (subst (λ m. snap_regions m h.cfg.regions ≡ some snap.regions) (sym (kept_r ∙ noted_r))
          (note_regions-reads w.regions h.cache.regions h.cfg.regions snap.regions rs regions p))
        (subst (λ m. snap_units m h.cfg.units ≡ some snap.units)
          (sym (noted_u ∙ ap (noted_units snap.units) kept_u))
          (note_units-reads w.units h.cache.units h.cfg.units snap.units us units q))
        (subst (λ m. snap_paths m h.cfg.paths ≡ some ps) (sym (kept_q ∙ kept_p)) r) in
    rw (turn, sym same)
      (shown
        ∙ ap
            (λ t.
              some (record (shown_state side (apply_snapshot snap h) snap.regions snap.units ps) {
                turn = t;
              }))
            (kept_s ∙ kept_t))
