-- ===== src/Engine/Hub/Messages.antt =====
-- option-b/internal/engine/hub.go: the consumers, and the messages of the select loop of `run`. A record
-- that cannot be decoded is skipped and does not appear here.
use lotr_kafka_strategy_game.Prelude.{
  String, Option, none, some, List, [], ◌∷◌, ◌++◌, ◌==◌, if◌then◌else◌,
}
use lotr_kafka_strategy_game.Prelude.Steps.{Step, each}
use lotr_kafka_strategy_game.Game.Order.{Audience, aud_all, aud_light, aud_dark}
use lotr_kafka_strategy_game.Engine.Recover.{RecoverState}
use lotr_kafka_strategy_game.Engine.Messages.{
  Message, ended_game, world_snapshot, game_session, WorldSnapshotMsg, topic_events_unit,
  topic_events_region, topic_events_path, topic_session, topic_broadcast, topic_ring_position,
  topic_ring_detection,
}
use lotr_kafka_strategy_game.Engine.Publish.{Json, Publication}
use lotr_kafka_strategy_game.Engine.Hub.{
  SseClient, HubEvent, event_payload, snapshot_payload, keepalive_payload, Delivery, Hub, enter,
  close_stream, drop, fanout,
}
use lotr_kafka_strategy_game.Engine.Hub.Views.{Analyst, build_state_view, analyze, clone_world}
use lotr_kafka_strategy_game.Engine.Hub.Cache.{apply_event_to_cache, apply_snapshot, apply_session}

-- What the loop receives, apart from `ctx.Done()` (`stop`). `ids` gives the order of a range over the
-- units. What is sent back on `reply` is what `buildStateView`, `analyze` and `cloneWorld` return (Views).
pub data HubMsg : Type 0 where
  registers unregisters : SseClient → HubMsg
  receives : HubEvent → HubMsg
  snapshots : WorldSnapshotMsg → HubMsg
  sessions : (ids : List String) → RecoverState → HubMsg
  keeps_alive : HubMsg
  asks_state : (side : String) → HubMsg
  asks_analysis : (kind : String) → Analyst → HubMsg
  asks_world : (ids : List String) → HubMsg

unfoldable pub quietly : Option Hub → Option (Hub × List Delivery)
quietly none = none
quietly (some h) = some (h, [])

-- A request that is answered, if that does not panic; no stream is offered anything.
unfoldable pub replied : {A : Type 0} → Hub → Option A → Option (Hub × List Delivery)
replied h none = none
replied h (some reply) = some (h, [])

unfoldable pub hub_step : HubMsg → Step Hub Delivery
unfolding replied build_state_view analyze clone_world enter drop fanout apply_event_to_cache
    apply_snapshot apply_session quietly
hub_step (registers c) h = some (enter c h, [])
hub_step (unregisters c) h = quietly (drop c h)
hub_step (receives ev) h =
    fanout ev.audience (event_payload ev.topic ev.content) (apply_event_to_cache ev h)
hub_step (snapshots snap) h = fanout aud_all (snapshot_payload snap) (apply_snapshot snap h)
hub_step (sessions ids rs) h = quietly (apply_session ids rs h)
hub_step keeps_alive h = fanout aud_all keepalive_payload h
hub_step (asks_state side) h = replied h (build_state_view side h)
hub_step (asks_analysis kind a) h = replied h (analyze kind a h)
hub_step (asks_world ids) h = replied h (clone_world ids h)

unfoldable pub run_hub : List HubMsg → Step Hub Delivery
unfolding each hub_step
run_hub msgs = each hub_step msgs

-- The case of `ctx.Done()`.
unfoldable pub close_all : List SseClient → Hub → Option Hub
unfolding close_stream
close_all [] h = some h
close_all (c ∷ cs) h = elim (close_stream c h) [ none ↦ none | some h' ↦ close_all cs h' ]

unfoldable pub stop : Hub → Option Hub
unfolding close_all
stop h = elim (close_all h.light h) [ none ↦ none | some h' ↦ close_all h.dark h' ]

-- The consumers that `run` starts with `consumeEvents`: the audience of each topic.
unfoldable pub audience_of : String → Option Audience
audience_of topic =
    if topic == topic_events_unit
    then some aud_all
    else if topic == topic_events_region
    then some aud_all
    else if topic == topic_events_path
    then some aud_all
    else if topic == topic_ring_position
    then some aud_light
    else if topic == topic_ring_detection
    then some aud_dark
    else none

-- One record in `consumeEvents`.
unfoldable pub consume_event : String → Audience → Message → HubMsg
consume_event topic audience m =
    receives (record { audience = audience; topic = topic; content = m })

-- One record in `consumeSnapshots`: the end of a game, or a snapshot that has units.
unfoldable pub consume_broadcast : Message → List HubMsg
consume_broadcast (ended_game m) =
    receives (record { audience = aud_all; topic = "game.over"; content = ended_game m }) ∷ []
consume_broadcast (world_snapshot snap) = elim snap.units [ [] ↦ [] | _ ↦ snapshots snap ∷ [] ]
consume_broadcast _ = []

-- One record in `consumeSession`.
unfoldable pub consume_session : Json → List String → Message → List HubMsg
consume_session json ids (game_session m) = elim m.world_json [
  | none ↦ []
  | some text ↦ elim (json.unmarshal_recover text) [ none ↦ [] | some rs ↦ sessions ids rs ∷ [] ]
]
consume_session json ids _ = []

-- What a publication becomes in the loop of a hub.
unfoldable pub consume : Json → List String → Publication → List HubMsg
unfolding audience_of consume_event consume_broadcast consume_session
consume json ids p = elim (audience_of p.topic) [
  | some audience ↦ consume_event p.topic audience p.value ∷ []
  | none ↦
      if p.topic == topic_broadcast
      then consume_broadcast p.value
      else if p.topic == topic_session
      then consume_session json ids p.value
      else []
]

unfoldable pub consume_all : Json → List String → List Publication → List HubMsg
unfolding consume
consume_all json ids [] = []
consume_all json ids (p ∷ ps) = consume json ids p ++ consume_all json ids ps
