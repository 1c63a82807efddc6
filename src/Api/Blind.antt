-- ===== src/Api/Blind.antt =====
-- What a player of the dark side learns by asking (option-b/internal/api/server.go and
-- option-b/internal/engine/hub.go).
use lotr_kafka_strategy_game.Prelude.{
  String, ◌≡◌, refl, ◌∙◌, ap, sym, inl, inr, Option-cases, Option, none, some, List,
}
use lotr_kafka_strategy_game.Analysis.Intercept.{InterceptEntry}
use lotr_kafka_strategy_game.Analysis.Intercept.Total.{build_intercept_plan-ring}
use lotr_kafka_strategy_game.Engine.Messages.{Message, moved_ring, topic_ring_position}
use lotr_kafka_strategy_game.Engine.Hub.{Hub, HubEvent, player_dark}
use lotr_kafka_strategy_game.Engine.Hub.Cache.{note_ring, apply_event_to_cache}
use lotr_kafka_strategy_game.Engine.Hub.Views.{
  Analyst, Analysis, plan, analyze, analyze_intercept, build_state_view,
}
use lotr_kafka_strategy_game.Api.{
  Answer, answers, refused, game_state, orders_available, analysis_routes, analysis_intercept,
  player_id,
}

view-blind :
    (m : Message) (h : Hub)
    → build_state_view player_dark (note_ring m h) ≡ build_state_view player_dark h
unfolding note_ring build_state_view
view-blind (moved_ring m) h = refl
view-blind _ h = refl

offers-blind :
    (unit : String) (m : Message) (h : Hub)
    → orders_available unit player_dark (note_ring m h) ≡ orders_available unit player_dark h
unfolding note_ring orders_available player_id
offers-blind unit (moved_ring m) h = refl
offers-blind unit _ h = refl

plan-blind :
    (a : Analyst) (m : Message) (h : Hub)
    → analyze_intercept a (note_ring m h) ≡ analyze_intercept a h
unfolding note_ring analyze_intercept
plan-blind a (moved_ring m) h =
    build_intercept_plan-ring a.floats a.cost_distance a.ids _ h.cache _ _
plan-blind a _ h = refl

abbrev answer_of : Option (List InterceptEntry) → Option (Answer Analysis)
answer_of none = none
answer_of (some p) = some (answers (plan p))

intercept-answer :
    (a : Analyst) (h : Hub) → analysis_intercept player_dark a h ≡ answer_of (analyze_intercept a h)
unfolding analysis_intercept analyze
intercept-answer a h = elim (Option-cases (analyze_intercept a h)) [
  | inl n ↦ rw n refl
  | inr (p, e) ↦ rw e refl
]

noted-ring :
    (ev : HubEvent) (h : Hub)
    → ev.topic ≡ topic_ring_position
    → apply_event_to_cache ev h ≡ note_ring ev.content h
unfolding apply_event_to_cache
noted-ring ev h e = rw (e, apply_event_to_cache) refl

-- A record of the ring bearer's position that the hub hears of changes nothing that a player of the
-- dark side is answered: not the state of the game, not the orders that a unit is offered, not the
-- analysis of interceptions. The analysis of routes is refused.
pub dark-blind :
    (query unit : String) (a : Analyst) (ev : HubEvent) (h : Hub)
    → query ≡ player_dark
    → ev.topic ≡ topic_ring_position
    → let heard = apply_event_to_cache ev h in
      (game_state query heard ≡ game_state query h)
      × (orders_available unit query heard ≡ orders_available unit query h)
      × (analysis_intercept query a heard ≡ analysis_intercept query a h)
      × (analysis_routes query a heard ≡ some refused)
unfolding game_state analysis_routes player_id
dark-blind query unit a ev h e on =
    rw (e, noted-ring ev h on)
      (
        view-blind ev.content h,
        offers-blind unit ev.content h,
        intercept-answer a (note_ring ev.content h)
            ∙ ap answer_of (plan-blind a ev.content h)
            ∙ sym (intercept-answer a h),
        refl,
      )
