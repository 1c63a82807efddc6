-- ===== src/Engine/Loop/Running.antt =====
-- The leader's loop (option-b/internal/engine/engine.go) over whatever messages arrive.
use lotr_kafka_strategy_game.Prelude.{
  ℕ, String, ◌≡◌, refl, sym, subst, ◌∙◌, inl, inr, Bool, true, false, Option, none, some, List, All,
  empty, Has, Option-cases, Bool-cases, if◌then◌else◌,
}
use lotr_kafka_strategy_game.Prelude.Steps.Rules.{Gives, Gives-elim, Total, Total-each}
use lotr_kafka_strategy_game.Config.{Config}
use lotr_kafka_strategy_game.Game.State.{World, new_world}
use lotr_kafka_strategy_game.Game.Order.{Event}
use lotr_kafka_strategy_game.Game.WellFormed.{IsWellFormed}
use lotr_kafka_strategy_game.Game.WellFormed.Complete.{IsComplete, All-map, new_world-IsComplete}
use lotr_kafka_strategy_game.Game.Turn.Process.{process_turn}
use lotr_kafka_strategy_game.Game.Turn.Sound.Whole.{process_turn_returns}
use lotr_kafka_strategy_game.Game.Turn.Keys.{
  process_turn-cfg, process_turn-units, process_turn-regions,
}
use lotr_kafka_strategy_game.Engine.Publish.{Json, Publication}
use lotr_kafka_strategy_game.Engine.Publish.Snapshots.{publish_snapshot-returns}
use lotr_kafka_strategy_game.Engine.Validation.{ValidatedOrder}
use lotr_kafka_strategy_game.Engine.Loop.{
  Engine, hold, view_of, promote, start_game, handle_validated, buffered, Ranges, next_turn,
  finish_turn, after_turn, advance_world, advance_turn, LeaderMsg, started, validated, advanced,
  ticked, is_in_progress, leader_step, run_leader,
}

-- A well-formed world of this configuration, with every region and unit of it.
abbrev pub IsFit : Config → World → Type 0
IsFit cfg w = IsWellFormed w × IsComplete cfg w

abbrev pub HoldsFit : Config → Option World → Type 0
HoldsFit cfg none = Unit
HoldsFit cfg (some w) = IsFit cfg w

-- What orders are validated against is a view of the world that the leader holds.
abbrev pub Accords : Engine → Type 0
Accords e = (w : World) → e.world ≡ some w → e.val_state ≡ some (view_of e.cfg w)

abbrev pub IsRunning : Config → Engine → Type 0
IsRunning cfg e = (e.cfg ≡ cfg) × HoldsFit cfg e.world × Accords e

-- `NewWorld` returns a well-formed world.
abbrev pub IsStartable : Config → Type 0
IsStartable cfg = Gives IsWellFormed (new_world cfg)

hold-IsRunning :
    (cfg : Config) (w : World) (e : Engine) → e.cfg ≡ cfg → IsFit cfg w → IsRunning cfg (hold w e)
hold-IsRunning cfg w e same fit =
    (same, fit, λ v q. subst (λ x. some (view_of e.cfg w) ≡ some (view_of e.cfg x)) (cc q) refl)

-- Nothing that a turn's number stands in makes a world unfit.
next_turn-IsFit : (cfg : Config) (w : World) → IsFit cfg w → IsFit cfg (next_turn w)
next_turn-IsFit cfg w h = elim (Bool-cases w.game_over) [
  | inl b ↦ rw (b, next_turn) h
  | inr b ↦ rw (b, next_turn) h
]

process_turn-IsFit :
    (cfg : Config) (ranges : Ranges) (e : Engine) (w : World)
    → IsFit cfg w
    → (r : World × List Event) × (process_turn ranges.schedule
          (buffered e.buffer ranges.buffer_ids)
          w
        ≡ some r)
      × IsFit cfg r.0
process_turn-IsFit cfg ranges e w (sound, (here, regions, units)) =
    let orders = buffered e.buffer ranges.buffer_ids in
    let (r, q, good) = process_turn_returns ranges.schedule orders w sound in
    let step = ranges.schedule in
    (
      r,
      q,
      (
        good,
        (
          (process_turn-cfg step orders w r q).0 ∙ here,
          All-map cfg.regions (λ x h. process_turn-regions step orders w r x.id q h) regions,
          All-map cfg.units (λ x h. process_turn-units step orders w r x.id q h) units,
        ),
      ),
    )

Gives-if :
    {A : Type 0} (P : A → Type 0) (b : Bool) (x y : Option A)
    → Gives P x
    → Gives P y
    → Gives P (if b then x else y)
Gives-if P true x y hx hy = hx
Gives-if P false x y hx hy = hy

module _ (cfg : Config) (json : Json) where
  finish_turn-Gives :
      (now : ℕ) (w : World) (events : List Event) (e : Engine)
      → e.cfg ≡ cfg
      → IsFit cfg w
      → Gives (λ r. IsRunning cfg r.0) (finish_turn json now w events e)
  unfolding finish_turn
  finish_turn-Gives now w events e same (sound, (here, regions, units)) =
      let (ps, q) =
        publish_snapshot-returns e.cfg e.schema_ids now w
          (subst (λ c. All (λ r. Has w.regions r.id) c.regions) (sym same) regions)
          (subst (λ c. All (λ u. Has w.units u.id) c.units) (sym same) units) in
      rw (q, finish_turn)
        (hold-IsRunning cfg (next_turn w) (record e { buffer = empty }) same
          (next_turn-IsFit cfg w (sound, (here, regions, units))))

  start_game-Total : (now : ℕ) → IsStartable cfg → Total (IsRunning cfg) (start_game json now)
  unfolding start_game
  start_game-Total now start = record {
    at = λ e (same, _, _).
        let (w, q, sound) = Gives-elim IsWellFormed (new_world cfg) start in
        let (here, regions, units) = new_world-IsComplete cfg w q in
        let (ps, p) =
          publish_snapshot-returns e.cfg e.schema_ids now w
            (subst (λ c. All (λ r. Has w.regions r.id) c.regions) (sym same) regions)
            (subst (λ c. All (λ u. Has w.units u.id) c.units) (sym same) units) in
        let made : new_world e.cfg ≡ some w = subst (λ c. new_world c ≡ some w) (sym same) q in
        rw (made, start_game)
          (rw p (
            hold-IsRunning cfg w (record e { buffer = empty }) same
              (sound, (here, regions, units))));
  }

  handle_validated-Total :
      (now : ℕ) (ids : List String) (vo : ValidatedOrder)
      → Total (IsRunning cfg) (handle_validated json ids now vo)
  unfolding handle_validated
  handle_validated-Total now ids vo = record {
    at = λ e (same, fit, view). elim (Option-cases e.world) [
      | inl n ↦ rw (n, handle_validated) (same, fit, view)
      | inr (w, q) ↦ rw (q, handle_validated) (same, fit, view)
    ];
  }

  advance_world-Gives :
      (now : ℕ) (ranges : Ranges) (w : World) (e : Engine)
      → IsFit cfg w
      → IsRunning cfg e
      → Gives (λ r. IsRunning cfg r.0) (advance_world json now ranges w e)
  unfolding advance_world after_turn
  advance_world-Gives now ranges w e held running =
      let (r, p, fit) = process_turn-IsFit cfg ranges e w held in
      Gives-if (λ r. IsRunning cfg r.0) w.game_over _ _ running
        (subst (λ o. Gives (λ r. IsRunning cfg r.0) (after_turn json now o e)) (sym p)
          (finish_turn-Gives now r.0 r.1 e running.0 fit))

  advance_turn-Total :
      (now : ℕ) (ranges : Ranges) → Total (IsRunning cfg) (advance_turn json now ranges)
  unfolding advance_turn
  advance_turn-Total now ranges = record {
    at = λ e (same, fit, view). elim (Option-cases e.world) [
      | inl n ↦ rw (n, advance_turn) (same, fit, view)
      | inr (w, q) ↦
          let held : IsFit cfg w = subst (HoldsFit cfg) q fit in
          rw (q, advance_turn) (advance_world-Gives now ranges w e held (same, fit, view))
    ];
  }

  leader_step-Total :
      (msg : LeaderMsg) → IsStartable cfg → Total (IsRunning cfg) (leader_step json msg)
  unfolding leader_step
  leader_step-Total (started now) start = start_game-Total now start
  leader_step-Total (validated now ids vo) start = handle_validated-Total now ids vo
  leader_step-Total (advanced now ranges) start = advance_turn-Total now ranges
  leader_step-Total (ticked now ranges) start = record {
    at = λ e h. elim (Bool-cases (is_in_progress e.world)) [
      | inl b ↦ rw (b, leader_step) ((advance_turn-Total now ranges).at e h)
      | inr b ↦ rw (b, leader_step) h
    ];
  }

  promote-IsRunning :
      (recovered : Option World) (e : Engine)
      → e.cfg ≡ cfg
      → HoldsFit cfg recovered
      → IsRunning cfg (promote recovered e)
  unfolding promote
  promote-IsRunning none e same fit = (same, tt, λ w q. absurd (cc q))
  promote-IsRunning (some w) e same fit =
      hold-IsRunning cfg w (record e { buffer = empty }) same fit

  -- With a configuration from which `NewWorld` returns a well-formed world, and a recovered world, if
  -- any, that is well formed and has every region and unit of the configuration: whatever messages the
  -- leader receives, in whatever order, no handler dereferences nil. The world stays well formed with
  -- every region and unit, and what orders are validated against stays a view of that world.
  pub run_leader_returns :
      (recovered : Option World) (msgs : List LeaderMsg) (e : Engine)
      → e.cfg ≡ cfg
      → IsStartable cfg
      → HoldsFit cfg recovered
      → (r : Engine × List Publication) × (run_leader json recovered msgs e ≡ some r)
        × IsRunning cfg r.0
  unfolding run_leader
  run_leader_returns recovered msgs e same start fit =
      Gives-elim (λ r. IsRunning cfg r.0) (run_leader json recovered msgs e)
        ((Total-each (leader_step json) msgs (λ m. leader_step-Total m start)).at
          (promote recovered e) (promote-IsRunning recovered e same fit))
