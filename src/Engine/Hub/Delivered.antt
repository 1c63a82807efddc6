-- ===== src/Engine/Hub/Delivered.antt =====
-- What of a turn reaches the browsers (option-b/internal/engine/publish.go and hub.go).
use lotr_kafka_strategy_game.Prelude.{
  ℕ, String, ◌≡◌, sym, subst, inl, inr, false, some, List, [], ◌∷◌, ◌==◌, All, All-append, Dict,
  Option-cases, List-cases,
}
use lotr_kafka_strategy_game.Game.State.{World}
use lotr_kafka_strategy_game.Game.Order.{Order, Event}
use lotr_kafka_strategy_game.Game.Turn.Process.{Schedule, process_turn}
use lotr_kafka_strategy_game.Game.Turn.Secrecy.Whole.{process_turn-IsDiscreet}
use lotr_kafka_strategy_game.Engine.Messages.{
  Message, ended_game, world_snapshot, game_session, topic_broadcast, topic_session,
}
use lotr_kafka_strategy_game.Engine.Publish.{Json, Publication}
use lotr_kafka_strategy_game.Engine.Publish.Events.{publish_events}
use lotr_kafka_strategy_game.Engine.Hub.{player_dark, SseClient, Hub, Delivery}
use lotr_kafka_strategy_game.Engine.Hub.Messages.{
  HubMsg, registers, unregisters, asks_state, asks_analysis, asks_world, run_hub, audience_of,
  consume, consume_all, consume_event, consume_broadcast, consume_session,
}
use lotr_kafka_strategy_game.Engine.Hub.Secrecy.{
  publish_events-IsHidden, consume_all-IsQuiet, if-All,
}
use lotr_kafka_strategy_game.Engine.Hub.Secrecy.Streams.{IsUnseen, run_hub-Safe}
use lotr_kafka_strategy_game.Engine.Hub.Orderly.{IsMember, IsOrderly}
use lotr_kafka_strategy_game.Engine.Hub.Orderly.Loop.{IsLegal, Asks, unasked_returns}

-- A message that neither connects nor drops a browser, and asks for nothing.
abbrev IsRead : HubMsg → Type 0
IsRead (registers c) = ⊥
IsRead (unregisters c) = ⊥
IsRead (asks_state side) = ⊥
IsRead (asks_analysis kind a) = ⊥
IsRead (asks_world ids) = ⊥
IsRead _ = Unit

IsRead-IsLegal :
    (sides : String → String) (gone : List String) (ms : List HubMsg)
    → All IsRead ms
    → IsLegal sides gone ms
IsRead-IsLegal sides gone [] h = tt
IsRead-IsLegal sides gone (registers c ∷ ms) (h, hs) = absurd h
IsRead-IsLegal sides gone (unregisters c ∷ ms) (h, hs) = absurd h
IsRead-IsLegal sides gone (_ ∷ ms) (h, hs) = IsRead-IsLegal sides gone ms hs

IsRead-unasked : (ms : List HubMsg) → All IsRead ms → All (λ m. Asks m → ⊥) ms
IsRead-unasked [] h = tt
IsRead-unasked (asks_state side ∷ ms) (h, hs) = absurd h
IsRead-unasked (_ ∷ ms) (h, hs) = (λ a. a, IsRead-unasked ms hs)

broadcast-IsRead : (m : Message) → All IsRead (consume_broadcast m)
unfolding consume_broadcast
broadcast-IsRead (ended_game m) = (tt, tt)
broadcast-IsRead (world_snapshot snap) = elim (List-cases snap.units) [
  | inl n ↦ rw (n, consume_broadcast) tt
  | inr (u, us, e) ↦ rw (e, consume_broadcast) (tt, tt)
]
broadcast-IsRead _ = tt

session-IsRead :
    (json : Json) (ids : List String) (m : Message) → All IsRead (consume_session json ids m)
unfolding consume_session
session-IsRead json ids (game_session m) = elim (Option-cases m.world_json) [
  | inl n ↦ rw (n, consume_session) tt
  | inr (text, e) ↦ elim (Option-cases (json.unmarshal_recover text)) [
    | inl n ↦ rw (e, n, consume_session) tt
    | inr (rs, q) ↦ rw (e, q, consume_session) (tt, tt)
  ]
]
session-IsRead json ids _ = tt

consume-IsRead :
    (json : Json) (ids : List String) (p : Publication) → All IsRead (consume json ids p)
unfolding consume consume_event
consume-IsRead json ids p = elim (Option-cases (audience_of p.topic)) [
  | inr (a, e) ↦ rw (e, consume) (tt, tt)
  | inl n ↦
      rw (n, consume)
        (if-All IsRead (p.topic == topic_broadcast) _ _ (broadcast-IsRead p.value)
          (if-All IsRead (p.topic == topic_session) _ [] (session-IsRead json ids p.value) tt))
]

consume_all-IsRead :
    (json : Json) (ids : List String) (ps : List Publication) → All IsRead (consume_all json ids ps)
unfolding consume_all
consume_all-IsRead json ids [] = tt
consume_all-IsRead json ids (p ∷ ps) =
    All-append IsRead (consume json ids p) _ (consume-IsRead json ids p)
      (consume_all-IsRead json ids ps)

members-light :
    (sides : String → String) (closed : List String) (cs : List SseClient)
    → All (IsMember sides false closed) cs
    → All (λ c. (c.side == player_dark) ≡ false) cs
members-light sides closed [] h = tt
members-light sides closed (c ∷ cs) ((s, d, o), hs) =
    (subst (λ x. (x == player_dark) ≡ false) (sym s) d, members-light sides closed cs hs)

-- Of the events of a turn, published by a leader and read by a hub whose streams are in order: the
-- hub's loop does not panic, and no browser of the dark side is offered a record of a move of the ring
-- bearer, or of a move of the unit that bears the ring.
pub turn-IsUnseen :
    (sch : Schedule) (orders : List Order) (w : World) (r : World × List Event) (json : Json)
    (schemas : Dict ℕ) (now : ℕ) (ids : List String) (sides : String → String) (gone : List String)
    (h : Hub)
    → process_turn sch orders w ≡ some r
    → IsOrderly sides gone h
    → (t : Hub × List Delivery) × (run_hub (consume_all json ids (publish_events schemas now r.1)) h
        ≡ some t)
      × All (IsUnseen w.ring_id) t.1
turn-IsUnseen sch orders w r json schemas now ids sides gone h e orderly =
    let ps = publish_events schemas now r.1 in
    let legal = IsRead-IsLegal sides gone _ (consume_all-IsRead json ids ps) in
    let idle = IsRead-unasked _ (consume_all-IsRead json ids ps) in
    let (t, runs) = unasked_returns sides (consume_all json ids ps) gone h legal idle orderly in
    let hidden =
      publish_events-IsHidden w.ring_id schemas now r.1
        (process_turn-IsDiscreet sch orders w r e) in
    let quiet = consume_all-IsQuiet w.ring_id json ids ps hidden in
    (
      t,
      runs,
      ((run_hub-Safe w.ring_id _ quiet).at h t runs
          (members-light sides h.closed h.light orderly.lights)).1,
    )
