-- ===== src/Engine/Publish/Topics.antt =====
-- That a turn's events reach their topics (option-b/internal/engine/publish.go), with the schemas that
-- option-b/internal/kafka/registry.go loaded for the subjects of messages.go.
use lotr_kafka_strategy_game.Prelude.{
  ℕ, String, ◌≡◌, refl, inl, inr, ◌↔◌, true, false, some, get_or, Option, List, [], ◌∷◌, ◌++◌, Dict,
  Has, Option-cases,
}
use lotr_kafka_strategy_game.Game.Order.{
  Event, EventType, unit_moved, path_status_changed, path_corrupted, region_control,
  battle_resolved, ring_bearer_moved, ring_bearer_detected, ring_bearer_spotted, route_compromised,
  game_over_event, world_state_snapshot,
}
use lotr_kafka_strategy_game.Kafka.Serde.{Avro}
use lotr_kafka_strategy_game.Kafka.Registry.{
  Latest, Loading, load_schemas, AllNamed, load_schemas-ready,
}
use lotr_kafka_strategy_game.Prelude.Results.{ok}
use lotr_kafka_strategy_game.Engine.Messages.{
  Message, moved_unit, changed_path, corrupted_path, changed_control, resolved_battle, moved_ring,
  detected_ring, spotted_ring, ended_game, schema_subjects, route_topic, topic_events_unit,
  topic_events_region, topic_events_path, topic_broadcast, topic_ring_position,
  topic_ring_detection,
}
use lotr_kafka_strategy_game.Engine.Publish.{Publication, publish}
use lotr_kafka_strategy_game.Engine.Publish.Events.{
  publish_routed, publish_event, publish_events, event_key, event_to_dto,
}

-- The topics that an event of each type is written to.
abbrev pub topics_of : EventType → List String
topics_of unit_moved = topic_events_unit ∷ []
topics_of path_status_changed = topic_events_path ∷ []
topics_of path_corrupted = topic_events_path ∷ []
topics_of region_control = topic_events_region ∷ []
topics_of battle_resolved = topic_events_region ∷ []
topics_of ring_bearer_moved = topic_ring_position ∷ []
topics_of ring_bearer_detected = topic_ring_detection ∷ []
topics_of ring_bearer_spotted = topic_ring_detection ∷ []
topics_of game_over_event = topic_broadcast ∷ []
topics_of route_compromised = []
topics_of world_state_snapshot = []

-- The schema that an event of each type is encoded with.
abbrev pub schema_of : EventType → String
schema_of unit_moved = "UnitMoved"
schema_of path_status_changed = "PathStatusChanged"
schema_of path_corrupted = "PathCorrupted"
schema_of region_control = "RegionControlChanged"
schema_of battle_resolved = "BattleResolved"
schema_of ring_bearer_moved = "RingBearerMoved"
schema_of ring_bearer_detected = "RingBearerDetected"
schema_of ring_bearer_spotted = "RingBearerSpotted"
schema_of game_over_event = "GameOver"
schema_of _ = ""

-- The event that a record tells of: its type, and what the record's fields say.
abbrev pub Tells : Message → Event → Type 0
Tells (moved_unit m) ev =
    (ev.type ≡ unit_moved)
    × (m.unit_id ≡ ev.unit_id)
    × (m.from ≡ ev.from)
    × (m.to ≡ ev.to)
    × (m.turn ≡ ev.turn)
Tells (changed_path m) ev =
    (ev.type ≡ path_status_changed)
    × (m.path_id ≡ ev.path_id)
    × (m.new_status ≡ ev.status)
    × (m.surveillance_level ≡ ev.surveillance_level)
    × (m.temp_open_turns ≡ ev.temp_open_turns)
    × (m.turn ≡ ev.turn)
Tells (corrupted_path m) ev =
    (ev.type ≡ path_corrupted) × (m.path_id ≡ ev.path_id) × (m.turn ≡ ev.turn)
Tells (changed_control m) ev =
    (ev.type ≡ region_control)
    × (m.region_id ≡ ev.region_id)
    × (m.new_controller ≡ ev.new_controller)
    × (m.turn ≡ ev.turn)
Tells (resolved_battle m) ev =
    (ev.type ≡ battle_resolved)
    × (m.region_id ≡ ev.region_id)
    × (m.attacker_won ≡ ev.attacker_won)
    × (m.turn ≡ ev.turn)
Tells (moved_ring m) ev =
    (ev.type ≡ ring_bearer_moved) × (m.true_region ≡ ev.true_region) × (m.turn ≡ ev.turn)
Tells (detected_ring m) ev =
    (ev.type ≡ ring_bearer_detected) × (m.region_id ≡ ev.region_id) × (m.turn ≡ ev.turn)
Tells (spotted_ring m) ev =
    (ev.type ≡ ring_bearer_spotted) × (m.path_id ≡ ev.path_id) × (m.turn ≡ ev.turn)
Tells (ended_game m) ev =
    (ev.type ≡ game_over_event) × (m.winner ≡ ev.winner) × (m.cause ≡ ev.cause) × (m.turn ≡ ev.turn)
Tells _ ev = ⊥

-- The publication of one event: on its topic, under the id of its schema, with a record that tells of
-- it; in a transaction exactly if the event ends the game.
abbrev pub Publishes : Dict ℕ → Publication → Event → Type 0
Publishes ids p ev =
    (topics_of ev.type ≡ p.topic ∷ [])
    × (ids (schema_of ev.type) ≡ some p.schema_id)
    × Tells p.value ev
    × ((p.transactional ≡ true) ↔ (ev.type ≡ game_over_event))

-- The list begins with the publication of the event, if the event has a topic, and `Q` holds of the
-- rest.
abbrev pub Begins :
    List String → Dict ℕ → Event → (List Publication → Type 0) → List Publication → Type 0
Begins [] ids ev Q ps = Q ps
Begins (t ∷ ts) ids ev Q ps =
    (p : Publication) × (rest : List Publication) × (ps ≡ p ∷ rest) × Publishes ids p ev × Q rest

-- The events that have a topic, one by one and in order, with their publications, and nothing else.
abbrev pub AllPublished : Dict ℕ → List Event → List Publication → Type 0
AllPublished ids [] ps = ps ≡ []
AllPublished ids (ev ∷ evs) ps = Begins (topics_of ev.type) ids ev (AllPublished ids evs) ps

Begins-append :
    (ts : List String) (ids : Dict ℕ) (ev : Event) (Q : List Publication → Type 0)
    (out ps : List Publication)
    → Begins ts ids ev (λ rest. rest ≡ []) out
    → Q ps
    → Begins ts ids ev Q (out ++ ps)
Begins-append [] ids ev Q out ps e q = rw e q
Begins-append (t ∷ ts) ids ev Q out ps (p, rest, e, h, none_left) q =
    (p, ps, rw (e, none_left) refl, h, q)

publish-one :
    (ids : Dict ℕ) (topic schema key : String) (m : Message)
    → Has ids schema
    → (id : ℕ) × (ids schema ≡ some id)
      × (publish ids topic schema key m
          ≡ record { topic = topic; key = key; schema_id = id; value = m; transactional = false }
            ∷ [])
unfolding publish
publish-one ids topic schema key m h = elim (Option-cases (ids schema)) [
  | inl n ↦ absurd (h n)
  | inr (id, e) ↦ (id, e, rw (e, publish) refl)
]

module _ (ids : Dict ℕ) (now : ℕ) (named : AllNamed schema_subjects ids) where
  event-Begins :
      (t : EventType) (ev : Event)
      → let of_type = record ev { type = t } in
        Begins (topics_of t) ids of_type (λ rest. rest ≡ []) (publish_event ids now of_type)
  unfolding publish_event publish_routed route_topic event_to_dto event_key
  event-Begins unit_moved ev =
      let (id, e, made) = publish-one ids topic_events_unit "UnitMoved" _ _ named.1.1.0 in
      (
        _,
        [],
        made,
        (refl, e, (refl, refl, refl, refl, refl), (λ x. absurd (cc x), λ x. absurd (cc x))),
        refl,
      )
  event-Begins path_status_changed ev =
      let (id, e, made) = publish-one ids topic_events_path "PathStatusChanged" _ _ named.1.1.1.0 in
      (
        _,
        [],
        made,
        (refl, e, (refl, refl, refl, refl, refl, refl), (λ x. absurd (cc x), λ x. absurd (cc x))),
        refl,
      )
  event-Begins path_corrupted ev =
      let (id, e, made) = publish-one ids topic_events_path "PathCorrupted" _ _ named.1.1.1.1.0 in
      (_, [], made, (refl, e, (refl, refl, refl), (λ x. absurd (cc x), λ x. absurd (cc x))), refl)
  event-Begins region_control ev =
      let (id, e, made) =
        publish-one ids topic_events_region "RegionControlChanged" _ _ named.1.1.1.1.1.0 in
      (
        _,
        [],
        made,
        (refl, e, (refl, refl, refl, refl), (λ x. absurd (cc x), λ x. absurd (cc x))),
        refl,
      )
  event-Begins battle_resolved ev =
      let (id, e, made) =
        publish-one ids topic_events_region "BattleResolved" _ _ named.1.1.1.1.1.1.0 in
      (
        _,
        [],
        made,
        (refl, e, (refl, refl, refl, refl), (λ x. absurd (cc x), λ x. absurd (cc x))),
        refl,
      )
  event-Begins ring_bearer_moved ev =
      let (id, e, made) =
        publish-one ids topic_ring_position "RingBearerMoved" _ _ named.1.1.1.1.1.1.1.0 in
      (_, [], made, (refl, e, (refl, refl, refl), (λ x. absurd (cc x), λ x. absurd (cc x))), refl)
  event-Begins ring_bearer_detected ev =
      let (id, e, made) =
        publish-one ids topic_ring_detection "RingBearerDetected" _ _ named.1.1.1.1.1.1.1.1.0 in
      (_, [], made, (refl, e, (refl, refl, refl), (λ x. absurd (cc x), λ x. absurd (cc x))), refl)
  event-Begins ring_bearer_spotted ev =
      let (id, e, made) =
        publish-one ids topic_ring_detection "RingBearerSpotted" _ _ named.1.1.1.1.1.1.1.1.1.0 in
      (_, [], made, (refl, e, (refl, refl, refl), (λ x. absurd (cc x), λ x. absurd (cc x))), refl)
  event-Begins route_compromised ev = refl
  event-Begins game_over_event ev = elim (Option-cases (ids "GameOver")) [
    | inl n ↦ absurd (named.1.1.1.1.1.1.1.1.1.1.1.0 n)
    | inr (id, e) ↦ (
      _,
      [],
      refl,
      (refl, rw (e, get_or) refl, (refl, refl, refl, refl), (λ x. refl, λ x. refl)),
      refl,
    )
  ]
  event-Begins world_state_snapshot ev = refl

  publish_events-AllPublished :
      (evs : List Event) → AllPublished ids evs (publish_events ids now evs)
  unfolding publish_events
  publish_events-AllPublished [] = refl
  publish_events-AllPublished (ev ∷ evs) =
      Begins-append (topics_of ev.type) ids ev (AllPublished ids evs) (publish_event ids now ev)
        (publish_events ids now evs) (event-Begins ev.type ev) (publish_events-AllPublished evs)

-- With the ids that LoadSchemas returned for the engine's subjects: of a list of events each is
-- published exactly once, in order, on the topic of its type and under the id of its schema, with a
-- record that says what the event says, in a transaction if it is the end of the game and in none
-- otherwise; only the compromised routes and the snapshot marker are not published.
pub loaded-publish_events :
    {Schema Value : Type 0} (avro : Avro Schema Value) (latest : Latest)
    (schemas : ℕ → Option Schema) (l : Loading Schema) (now : ℕ) (evs : List Event)
    → load_schemas avro latest schema_subjects schemas ≡ ok l
    → AllPublished l.ids evs (publish_events l.ids now evs)
loaded-publish_events avro latest schemas l now evs e =
    publish_events-AllPublished l.ids now
      (load_schemas-ready avro latest schema_subjects schemas l e).0 evs
