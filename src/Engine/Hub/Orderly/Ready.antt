-- ===== src/Engine/Hub/Orderly/Ready.antt =====
-- What every message of the loop of option-b/internal/engine/hub.go keeps, whatever else is true of the
-- hub: streams with different addresses, and a whole cache.
use lotr_kafka_strategy_game.Prelude.{
  String, ◌≡◌, refl, ◌∙◌, ap, sym, subst, inl, inr, Bool-cases, Option-cases, ◌==◌, Option, none,
  some, List, [], ◌∷◌, arith, contains,
}
use lotr_kafka_strategy_game.Prelude.Steps.{each, ◌>>◌}
use lotr_kafka_strategy_game.Prelude.Steps.Rules.{some_eq}
use lotr_kafka_strategy_game.Game.Order.{Audience, aud_all, aud_light, aud_dark}
use lotr_kafka_strategy_game.Engine.Recover.{RecoverState, build_world_from_recover}
use lotr_kafka_strategy_game.Engine.Hub.{
  player_dark, enter, SseClient, HubEvent, Payload, event_payload, snapshot_payload,
  keepalive_payload, Delivery, Hub, drop, offer, send_all, fanout,
}
use lotr_kafka_strategy_game.Engine.Hub.Cache.{apply_event_to_cache, apply_snapshot, apply_session}
use lotr_kafka_strategy_game.Engine.Hub.Messages.{
  HubMsg, registers, unregisters, receives, snapshots, sessions, keeps_alive, asks_state,
  asks_analysis, asks_world, hub_step, quietly, replied,
}
use lotr_kafka_strategy_game.Engine.Hub.Views.{analyze, build_state_view, clone_world}
use lotr_kafka_strategy_game.Engine.Hub.Orderly.Shown.{
  CanShow, apply_event-CanShow, apply_snapshot-CanShow, apply_session-CanShow,
}
use lotr_kafka_strategy_game.Engine.Hub.Orderly.Streams.{
  AreDistinct, AreApart, enter-AreApart, drop_keeps, drop-AreApart,
}

-- One message keeps the streams apart and the cache whole.
abbrev pub IsReady : Hub → Type 0
IsReady h = AreApart h × CanShow h

send_all-same :
    (p : Payload) (cs : List SseClient) (h : Hub) (r : Hub × List Delivery)
    → send_all p cs h ≡ some r
    → h ≡ r.0
unfolding send_all each offer ◌>>◌
send_all-same p [] h r e = ap (λ x. x.0) (some_eq e)
send_all-same p (c ∷ cs) h r e = elim (Bool-cases (contains h.closed c.address)) [
  | inl b ↦
      let stuck : offer p c h ≡ none = rw (b, offer) refl in
      absurd (cc (rw (stuck, send_all, ◌>>◌) at e))
  | inr b ↦
      let sent : offer p c h ≡ some (h, record { client = c; payload = p } ∷ []) =
        rw (b, offer) refl in
      elim (Option-cases (send_all p cs h)) [
        | inl n ↦ absurd (cc (rw (sent, n, send_all, ◌>>◌) at e))
        | inr (x, q) ↦
            send_all-same p cs h x q ∙ ap (λ y. y.0) (some_eq (rw (sent, q, send_all, ◌>>◌) at e))
      ]
]

fanout-same :
    (a : Audience) (p : Payload) (h : Hub) (r : Hub × List Delivery)
    → fanout a p h ≡ some r
    → h ≡ r.0
unfolding fanout ◌>>◌
fanout-same aud_light p h r e = send_all-same p h.light h r e
fanout-same aud_dark p h r e = send_all-same p h.dark h r e
fanout-same aud_all p h r e = elim (Option-cases (send_all p h.light h)) [
  | inl n ↦ absurd (cc (rw (n, fanout, ◌>>◌) at e))
  | inr (x, q) ↦
      let same = send_all-same p h.light h x q in
      elim (Option-cases (send_all p h.dark x.0)) [
        | inl n ↦ absurd (cc (rw (q, n, fanout, ◌>>◌) at e))
        | inr (y, s) ↦
            same
            ∙ send_all-same p h.dark x.0 y s
            ∙ ap (λ z. z.0) (some_eq (rw (q, s, fanout, ◌>>◌) at e))
      ]
]

fanout_keeps :
    (a : Audience) (p : Payload) (h : Hub) (r : Hub × List Delivery)
    → fanout a p h ≡ some r
    → IsReady h
    → IsReady r.0
fanout_keeps a p h r e ready = subst IsReady (fanout-same a p h r e) ready

quietly_keeps :
    (o : Option Hub) (r : Hub × List Delivery)
    → quietly o ≡ some r
    → ((h : Hub) → o ≡ some h → IsReady h)
    → IsReady r.0
unfolding quietly
quietly_keeps none r e keeps = absurd (cc e)
quietly_keeps (some h) r e keeps = subst (λ t. IsReady t.0) (some_eq e) (keeps h refl)

replied_keeps :
    {A : Type 0} (h : Hub) (a : Option A) (r : Hub × List Delivery)
    → replied h a ≡ some r
    → IsReady h
    → IsReady r.0
unfolding replied
replied_keeps h none r e ready = absurd (cc e)
replied_keeps h (some x) r e ready = subst (λ t. IsReady t.0) (some_eq e) ready

event-light : (ev : HubEvent) (h : Hub) → (apply_event_to_cache ev h).light ≡ h.light
unfolding apply_event_to_cache
event-light ev h = ground arith

event-dark : (ev : HubEvent) (h : Hub) → (apply_event_to_cache ev h).dark ≡ h.dark
unfolding apply_event_to_cache
event-dark ev h = ground arith

session-AreApart :
    (ids : List String) (rs : RecoverState) (h h' : Hub)
    → apply_session ids rs h ≡ some h'
    → AreApart h
    → AreApart h'
unfolding apply_session
session-AreApart ids rs h h' e apart = elim (Option-cases (build_world_from_recover ids h.cfg rs)) [
  | inl n ↦ absurd (cc (rw (n, apply_session) at e))
  | inr (w, q) ↦ subst AreApart (some_eq (rw (q, apply_session) at e)) apart
]

enter-CanShow : (c : SseClient) (h : Hub) → CanShow h → CanShow (enter c h)
unfolding enter
enter-CanShow c h s = elim (Bool-cases (c.side == player_dark)) [
  | inl b ↦ rw (b, enter) s
  | inr b ↦ rw (b, enter) s
]

pub hub_step_keeps :
    (m : HubMsg) (h : Hub) (r : Hub × List Delivery)
    → hub_step m h ≡ some r
    → IsReady h
    → IsReady r.0
unfolding hub_step
hub_step_keeps (registers c) h r e (apart, shows) =
    subst (λ t. IsReady t.0) (some_eq e) (enter-AreApart c h apart, enter-CanShow c h shows)
hub_step_keeps (unregisters c) h r e (apart, shows) =
    quietly_keeps (drop c h) r e
      (λ h' q. (drop-AreApart c h h' q apart, drop_keeps CanShow c h h' q shows shows shows))
hub_step_keeps (receives ev) h r e ((l, d), shows) =
    fanout_keeps ev.audience (event_payload ev.topic ev.content) (apply_event_to_cache ev h) r e (
      (subst AreDistinct (sym (event-light ev h)) l, subst AreDistinct (sym (event-dark ev h)) d),
      apply_event-CanShow ev h shows,
    )
hub_step_keeps (snapshots snap) h r e (apart, shows) =
    fanout_keeps aud_all (snapshot_payload snap) (apply_snapshot snap h) r e
      (apart, apply_snapshot-CanShow snap h shows)
hub_step_keeps (sessions ids rs) h r e (apart, shows) =
    quietly_keeps (apply_session ids rs h) r e
      (λ h' q. (session-AreApart ids rs h h' q apart, apply_session-CanShow ids rs h h' q))
hub_step_keeps keeps_alive h r e ready = fanout_keeps aud_all keepalive_payload h r e ready
hub_step_keeps (asks_state side) h r e ready = replied_keeps h (build_state_view side h) r e ready
hub_step_keeps (asks_analysis kind a) h r e ready = replied_keeps h (analyze kind a h) r e ready
hub_step_keeps (asks_world ids) h r e ready = replied_keeps h (clone_world ids h) r e ready
