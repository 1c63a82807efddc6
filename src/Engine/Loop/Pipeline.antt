-- ===== src/Engine/Loop/Pipeline.antt =====
-- An order on its way from a player to the leader's buffer (option-b/internal/engine/engine.go and
-- publish.go).
use lotr_kafka_strategy_game.Prelude.{ℕ, String, ◌≡◌, Option, none, some, List}
use lotr_kafka_strategy_game.Config.{Config}
use lotr_kafka_strategy_game.Game.State.{World}
use lotr_kafka_strategy_game.Game.Order.{Order}
use lotr_kafka_strategy_game.Game.Validate.{Rejection, ValidationState}
use lotr_kafka_strategy_game.Engine.Messages.{
  Message, order_submitted, order_validated, dead_letter, OrderSubmittedMsg, topic_orders_raw,
  topic_orders_validated, topic_dlq,
}
use lotr_kafka_strategy_game.Engine.Publish.{Json, Publication}
use lotr_kafka_strategy_game.Engine.Validation.{
  Sent, publishes, Worker, for_turn, ValidatedOrder, read_validated, code_text,
}
use lotr_kafka_strategy_game.Engine.Loop.{Engine, handle_validated}

-- What the consumer of the raw orders gets from a record's value.
abbrev pub submitted_of : Message → Option OrderSubmittedMsg
submitted_of (order_submitted m) = some m
submitted_of _ = none

-- The order is read back as it was written.
abbrev pub ReadsBack : Json → Order → Type 0
ReadsBack json o = json.unmarshal_order (json.marshal_order o) ≡ some o

-- The record goes to the topic of validated orders, and holds the order: the leader that handles it
-- has it in its buffer under its unit.
abbrev pub IsBuffered : Json → Order → Sent → Type 0
IsBuffered json o (publishes p) = (p.topic ≡ topic_orders_validated) × elim p.value [
  | order_validated m ↦
      (vo : ValidatedOrder) × (read_validated json (some m) ≡ some vo)
      × ((e : Engine) (w : World) (ids : List String) (now : ℕ)
          → e.world ≡ some w
          → (r : Engine × List Publication) × (handle_validated json ids now vo e ≡ some r)
            × (r.0.buffer o.unit_id ≡ some o))
  | _ ↦ ⊥
]
IsBuffered json o _ = ⊥

-- The order goes, as it was written, to the dead-letter topic with the text of its error.
abbrev pub IsRejected : Json → Order → Sent → Rejection → Type 0
IsRejected json o (publishes p) code =
    (p.topic ≡ topic_dlq) × (p.key ≡ code_text code) × elim p.value [
      | dead_letter m ↦
          (m.original_topic ≡ topic_orders_raw)
          × (m.error_code ≡ code_text code)
          × (m.raw_payload ≡ json.marshal_order o)
      | _ ↦ ⊥
    ]
IsRejected json o _ code = ⊥

abbrev pub seen_state : ValidationState → Worker → ValidationState
seen_state st k = record st { seen_units = (for_turn st.turn k).seen }
