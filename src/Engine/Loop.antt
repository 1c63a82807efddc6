-- ===== src/Engine/Loop.antt =====
-- option-b/internal/engine/engine.go: the leader's state and the handlers of its select loop, which is a
-- sequence of messages, in whatever order they arrive.
pub mod Running
pub mod Pipeline
pub mod Failover
use lotr_kafka_strategy_game.Prelude.{
  ℕ, ◌+◌, String, Bool, true, false, Option, none, some, List, [], ◌∷◌, ◌++◌, ◌==◌, if◌then◌else◌,
  Dict, empty, insert, get_or,
}
use lotr_kafka_strategy_game.Prelude.Steps.{Step, done, each}
use lotr_kafka_strategy_game.Config.{Config, unit_at}
use lotr_kafka_strategy_game.Game.State.{
  UnitState, PathState, RegionState, World, is_ring_bearer, new_world,
}
use lotr_kafka_strategy_game.Game.Order.{
  OrderType, assign_route, redirect_unit, destroy_ring, maia_ability, block_path, search_path,
  attack_region, reinforce_region, fortify_region, deploy_nazgul, other, Order, Event,
}
use lotr_kafka_strategy_game.Game.Validate.{UnitView, ValidationState}
use lotr_kafka_strategy_game.Game.Turn.Process.{Schedule, process_turn}
use lotr_kafka_strategy_game.Analysis.{score_route}
use lotr_kafka_strategy_game.Engine.Recover.{each_entry}
use lotr_kafka_strategy_game.Engine.Messages.{
  order_submitted, moved_ring, topic_orders_raw, topic_ring_position,
}
use lotr_kafka_strategy_game.Engine.Publish.{
  Json, Publication, publish, publish_validated, publish_snapshot, publish_session,
}
use lotr_kafka_strategy_game.Engine.Publish.Events.{publish_events}
use lotr_kafka_strategy_game.Engine.Validation.{ValidatedOrder}
use lotr_kafka_strategy_game.Engine.Risk.{compute_risk}

-- The part of `Engine` that the leader's goroutine reads and writes. `val_state` is what the atomic
-- pointer holds.
pub record Engine : Type 0 where
  pub cfg : Config
  pub schema_ids : Dict ℕ
  pub world : Option World
  pub buffer : Dict Order
  pub val_state : Option ValidationState

-- The fields as `New` leaves them.
abbrev pub new_engine : Config → Dict ℕ → Engine
new_engine cfg ids = record {
  cfg = cfg;
  schema_ids = ids;
  world = none;
  buffer = empty;
  val_state = none;
}

abbrev pub view_unit : Config → World → String → UnitState → UnitView
view_unit cfg w id u = record {
  side = (unit_at cfg id).side;
  region = if is_ring_bearer (unit_at cfg id) then w.ring.true_region else u.region;
  status = some u.status;
  cooldown = u.cooldown;
}

-- What `refreshValState` stores, for the world that is there.
unfoldable pub view_of : Config → World → ValidationState
unfolding is_ring_bearer
view_of cfg w = record {
  turn = w.turn;
  units = λ id. elim (w.units id) [ none ↦ none | some u ↦ some (view_unit cfg w id u) ];
  paths = each_entry (λ (p : PathState). p.status) w.paths;
  regions = each_entry (λ (r : RegionState). r.controlled_by) w.regions;
  seen_units = [];
}

-- A world is put in place together with the state that orders are validated against.
abbrev pub hold : World → Engine → Engine
hold w e = record e { world = some w; val_state = some (view_of e.cfg w) }

-- `promote`; the argument is the answer of `RecoverWorld`.
unfoldable pub promote : Option World → Engine → Engine
unfolding view_of
promote none e = record e { world = none }
promote (some w) e = hold w (record e { buffer = empty })

-- `startGame`; `none` is a panic.
unfoldable pub start_game : Json → ℕ → Step Engine Publication
unfolding new_world view_of publish_snapshot publish_session publish
start_game json now e = elim (new_world e.cfg) [
  | none ↦ none
  | some w ↦ elim (publish_snapshot e.cfg e.schema_ids now (some w)) [
    | none ↦ none
    | some snapshot ↦ some (
      hold w (record e { buffer = empty }),
      snapshot
          ++ publish_session json e.schema_ids now w
          ++ publish e.schema_ids topic_ring_position "RingBearerMoved" "light" (
              moved_ring
                (record { true_region = w.ring.true_region; turn = w.turn; timestamp = now })),
    )
  ]
]

abbrev pub is_route_order : OrderType → Bool
is_route_order assign_route = true
is_route_order redirect_unit = true
is_route_order _ = false

abbrev is_unscored : ValidatedOrder → Bool
is_unscored vo = elim vo.risk [ none ↦ is_route_order vo.order.order_type | some _ ↦ false ]

-- `handleValidated`
unfoldable pub handle_validated : Json → List String → ℕ → ValidatedOrder → Step Engine Publication
unfolding compute_risk publish_validated
handle_validated json ids now vo e = elim e.world [
  | none ↦ some (e, [])
  | some w ↦ some (
    record e { buffer = insert e.buffer vo.order.unit_id vo.order },
    if is_unscored vo
        then publish_validated json e.schema_ids now vo.order
            (some (compute_risk ids e.cfg w vo.order))
        else [],
  )
]

-- The orders of a range over the buffer, whose keys come in the order of `ids`.
unfoldable pub buffered : Dict Order → List String → List Order
buffered m [] = []
buffered m (id ∷ ids) = elim (m id) [ none ↦ buffered m ids | some o ↦ o ∷ buffered m ids ]

-- The orders of the ranges of one turn.
pub record Ranges : Type 0 where
  pub buffer_ids : List String
  pub schedule : Schedule

abbrev pub next_turn : World → World
next_turn w = if w.game_over then w else record w { turn = w.turn + 1 }

-- `advanceTurn` after the turn has been processed.
unfoldable pub finish_turn : Json → ℕ → World → List Event → Step Engine Publication
unfolding publish_events publish_snapshot publish_session view_of
finish_turn json now w events e = elim (publish_snapshot e.cfg e.schema_ids now (some w)) [
  | none ↦ none
  | some snapshot ↦ some (
    hold (next_turn w) (record e { buffer = empty }),
    publish_events e.schema_ids now events
        ++ snapshot
        ++ publish_session json e.schema_ids now (next_turn w),
  )
]

unfoldable pub after_turn : Json → ℕ → Option (World × List Event) → Step Engine Publication
unfolding finish_turn
after_turn json now none e = none
after_turn json now (some (w, events)) e = finish_turn json now w events e

-- `advanceTurn` of a world.
unfoldable pub advance_world : Json → ℕ → Ranges → World → Step Engine Publication
unfolding buffered process_turn after_turn
advance_world json now ranges w e =
    if w.game_over
    then some (e, [])
    else after_turn json now (process_turn ranges.schedule (buffered e.buffer ranges.buffer_ids) w)
        e

unfoldable pub advance_turn : Json → ℕ → Ranges → Step Engine Publication
unfolding advance_world
advance_turn json now ranges e = elim e.world [
  | none ↦ some (e, [])
  | some w ↦ advance_world json now ranges w e
]

-- What the select loop of `runLeader` receives, with the readings of the clock and the orders of the
-- ranges. A tick of the timer advances the turn on the same condition as `advanceTurn` itself.
pub data LeaderMsg : Type 0 where
  started : (now : ℕ) → LeaderMsg
  validated : (now : ℕ) → (ids : List String) → ValidatedOrder → LeaderMsg
  advanced ticked : (now : ℕ) → Ranges → LeaderMsg

abbrev pub is_in_progress : Option World → Bool
is_in_progress none = false
is_in_progress (some w) = if w.game_over then false else true

-- One round of the loop.
unfoldable pub leader_step : Json → LeaderMsg → Step Engine Publication
unfolding start_game handle_validated advance_turn
leader_step json (started now) e = start_game json now e
leader_step json (validated now ids vo) e = handle_validated json ids now vo e
leader_step json (advanced now ranges) e = advance_turn json now ranges e
leader_step json (ticked now ranges) e =
    if is_in_progress e.world then advance_turn json now ranges e else some (e, [])

-- `runLeader`, from the promotion on.
unfoldable pub run_leader : Json → Option World → List LeaderMsg → Step Engine Publication
unfolding promote leader_step each
run_leader json recovered msgs e = each (leader_step json) msgs (promote recovered e)
