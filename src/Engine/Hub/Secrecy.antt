-- ===== src/Engine/Hub/Secrecy.antt =====
-- What the browsers of the dark side are sent (option-b/internal/engine/hub.go) of what a leader
-- publishes (publish.go).
pub mod Streams
use lotr_kafka_strategy_game.Prelude.{
  ℕ, String, ◌≡◌, ◌≢◌, ◌⊎◌, refl, sym, subst, inl, inr, Bool, true, false, Option, none, some, List,
  [], ◌∷◌, ◌++◌, ◌==◌, arith, List-cases, contains, All, All-append, Dict, Option-cases, Bool-cases,
  if◌then◌else◌, eq_iff,
}
use lotr_kafka_strategy_game.Prelude.Steps.{each}
use lotr_kafka_strategy_game.Prelude.Steps.Rules.{Safe, Safe-done, Safe->>, Safe-each, some_eq}
use lotr_kafka_strategy_game.Game.State.{World}
use lotr_kafka_strategy_game.Game.Order.{
  Order, Event, EventType, Audience, aud_all, aud_light, aud_dark, unit_moved, path_status_changed,
  path_corrupted, region_control, battle_resolved, ring_bearer_moved, ring_bearer_detected,
  ring_bearer_spotted, route_compromised, game_over_event, world_state_snapshot,
}
use lotr_kafka_strategy_game.Game.Turn.Process.{Schedule, process_turn}
use lotr_kafka_strategy_game.Game.Turn.Secrecy.{IsDiscreet}
use lotr_kafka_strategy_game.Game.Turn.Secrecy.Whole.{process_turn-IsDiscreet}
use lotr_kafka_strategy_game.Engine.Messages.{
  Message, moved_ring, moved_unit, ended_game, world_snapshot, game_session, route_topic,
  topic_broadcast, topic_session,
}
use lotr_kafka_strategy_game.Engine.Publish.{Json, Publication, publish}
use lotr_kafka_strategy_game.Engine.Publish.Events.{
  publish_routed, publish_event, publish_events, event_key, event_to_dto,
}
use lotr_kafka_strategy_game.Engine.Hub.{
  player_dark, SseClient, HubEvent, Payload, event_payload, snapshot_payload, keepalive_payload,
  Delivery, Hub, enter, close_stream, drop, offer, send_all, fanout,
}
use lotr_kafka_strategy_game.Engine.Hub.Messages.{
  HubMsg, registers, unregisters, receives, snapshots, sessions, keeps_alive, hub_step, run_hub,
  audience_of, consume, consume_all, consume_event, consume_broadcast, consume_session,
}

-- A record that tells neither a move of the ring bearer nor one of the unit that bears the ring.
abbrev pub KeepsSecret : String → Message → Type 0
KeepsSecret ring (moved_ring m) = ⊥
KeepsSecret ring (moved_unit m) = m.unit_id ≢ ring
KeepsSecret ring _ = Unit

-- A record that only the light side's consumer hands on, or that keeps the secret.
abbrev pub IsHidden : String → Publication → Type 0
IsHidden ring p = (audience_of p.topic ≡ some aud_light) ⊎ KeepsSecret ring p.value

publish-All :
    (Q : Publication → Type 0) (ids : Dict ℕ) (topic schema key : String) (m : Message)
    → ((id : ℕ)
        → Q (record { topic = topic; key = key; schema_id = id; value = m; transactional = false }))
    → All Q (publish ids topic schema key m)
unfolding publish
publish-All Q ids topic schema key m h = elim (Option-cases (ids schema)) [
  | inl n ↦ rw (n, publish) tt
  | inr (id, e) ↦ rw (e, publish) (h id, tt)
]

module _ (ring : String) (ids : Dict ℕ) (now : ℕ) where
  -- What one event is published as, by its type.
  publish_event-IsHidden :
      (t : EventType) (ev : Event)
      → IsDiscreet ring (record ev { type = t })
      → All (IsHidden ring) (publish_event ids now (record ev { type = t }))
  unfolding publish_event publish_routed route_topic audience_of event_to_dto event_key
  publish_event-IsHidden unit_moved ev h =
      publish-All (IsHidden ring) ids _ _ _ _ (λ id. inr (ground arith))
  publish_event-IsHidden path_status_changed ev h =
      publish-All (IsHidden ring) ids _ _ _ _ (λ id. inr tt)
  publish_event-IsHidden path_corrupted ev h =
      publish-All (IsHidden ring) ids _ _ _ _ (λ id. inr tt)
  publish_event-IsHidden region_control ev h =
      publish-All (IsHidden ring) ids _ _ _ _ (λ id. inr tt)
  publish_event-IsHidden battle_resolved ev h =
      publish-All (IsHidden ring) ids _ _ _ _ (λ id. inr tt)
  publish_event-IsHidden ring_bearer_moved ev h =
      publish-All (IsHidden ring) ids _ _ _ _ (λ id. inl refl)
  publish_event-IsHidden ring_bearer_detected ev h =
      publish-All (IsHidden ring) ids _ _ _ _ (λ id. inr tt)
  publish_event-IsHidden ring_bearer_spotted ev h =
      publish-All (IsHidden ring) ids _ _ _ _ (λ id. inr tt)
  publish_event-IsHidden route_compromised ev h = tt
  publish_event-IsHidden game_over_event ev h = (inr tt, tt)
  publish_event-IsHidden world_state_snapshot ev h = tt

  pub publish_events-IsHidden :
      (evs : List Event)
      → All (IsDiscreet ring) evs
      → All (IsHidden ring) (publish_events ids now evs)
  unfolding publish_events
  publish_events-IsHidden [] h = tt
  publish_events-IsHidden (ev ∷ evs) (h, hs) =
      All-append (IsHidden ring) (publish_event ids now ev) _ (publish_event-IsHidden ev.type ev h)
        (publish_events-IsHidden evs hs)

-- What a message of the loop makes known to the dark side keeps the secret.
abbrev pub IsQuiet : String → HubMsg → Type 0
IsQuiet ring (receives ev) = (ev.audience ≡ aud_light) ⊎ KeepsSecret ring ev.content
IsQuiet ring _ = Unit

broadcast-IsQuiet : (ring : String) (m : Message) → All (IsQuiet ring) (consume_broadcast m)
unfolding consume_broadcast
broadcast-IsQuiet ring (ended_game m) = (inr tt, tt)
broadcast-IsQuiet ring (world_snapshot snap) = elim (List-cases snap.units) [
  | inl n ↦ rw (n, consume_broadcast) tt
  | inr (u, us, e) ↦ rw (e, consume_broadcast) (tt, tt)
]
broadcast-IsQuiet ring _ = tt

session-IsQuiet :
    (ring : String) (json : Json) (ids : List String) (m : Message)
    → All (IsQuiet ring) (consume_session json ids m)
unfolding consume_session
session-IsQuiet ring json ids (game_session m) = elim (Option-cases m.world_json) [
  | inl n ↦ rw (n, consume_session) tt
  | inr (text, e) ↦ elim (Option-cases (json.unmarshal_recover text)) [
    | inl n ↦ rw (e, n, consume_session) tt
    | inr (rs, q) ↦ rw (e, q, consume_session) (tt, tt)
  ]
]
session-IsQuiet ring json ids _ = tt

pub if-All :
    {A : Type 0} (P : A → Type 0) (b : Bool) (xs ys : List A)
    → All P xs
    → All P ys
    → All P (if b then xs else ys)
if-All P true xs ys hx hy = hx
if-All P false xs ys hx hy = hy

module _ (ring : String) (json : Json) (ids : List String) where
  consume-IsQuiet : (p : Publication) → IsHidden ring p → All (IsQuiet ring) (consume json ids p)
  unfolding consume consume_event
  consume-IsQuiet p h = elim (Option-cases (audience_of p.topic)) [
    | inr (a, e) ↦
        let light : (audience_of p.topic ≡ some aud_light) → a ≡ aud_light = λ q. cc (e, q) in
        rw (e, consume) (elim h [ inl q ↦ inl (light q) | inr s ↦ inr s ], tt)
    | inl n ↦
        rw (n, consume)
          (if-All (IsQuiet ring) (p.topic == topic_broadcast) _ _ (broadcast-IsQuiet ring p.value) (
            if-All (IsQuiet ring) (p.topic == topic_session) _ []
              (session-IsQuiet ring json ids p.value) tt))
  ]

  pub consume_all-IsQuiet :
      (ps : List Publication)
      → All (IsHidden ring) ps
      → All (IsQuiet ring) (consume_all json ids ps)
  unfolding consume_all
  consume_all-IsQuiet [] h = tt
  consume_all-IsQuiet (p ∷ ps) (h, hs) =
      All-append (IsQuiet ring) (consume json ids p) _ (consume-IsQuiet p h)
        (consume_all-IsQuiet ps hs)
