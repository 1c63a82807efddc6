-- ===== src/Engine/Hub/Secrecy/Streams.antt =====
-- What the loop of a hub (option-b/internal/engine/hub.go) offers the browsers of the dark side.
use lotr_kafka_strategy_game.Prelude.{
  String, ◌≡◌, ◌⊎◌, sym, subst, inl, inr, true, false, Option, some, List, [], ◌∷◌, ◌==◌, arith,
  contains, All, Option-cases, Bool-cases,
}
use lotr_kafka_strategy_game.Prelude.Steps.{each}
use lotr_kafka_strategy_game.Prelude.Steps.Rules.{Safe, Safe-done, Safe->>, some_eq}
use lotr_kafka_strategy_game.Game.Order.{Audience, aud_all, aud_light, aud_dark}
use lotr_kafka_strategy_game.Engine.Hub.{
  player_dark, SseClient, HubEvent, Payload, event_payload, snapshot_payload, keepalive_payload,
  Delivery, Hub, enter, close_stream, drop, offer, send_all, fanout,
}
use lotr_kafka_strategy_game.Engine.Hub.Views.{build_state_view, analyze, clone_world}
use lotr_kafka_strategy_game.Engine.Hub.Messages.{
  HubMsg, registers, unregisters, receives, snapshots, sessions, keeps_alive, asks_state,
  asks_analysis, asks_world, hub_step, replied, run_hub,
}
use lotr_kafka_strategy_game.Engine.Hub.{has_client, remove_client}
use lotr_kafka_strategy_game.Engine.Hub.Cache.{apply_event_to_cache, apply_snapshot, apply_session}
use lotr_kafka_strategy_game.Engine.Hub.Views.{build_state_view, analyze, clone_world}
use lotr_kafka_strategy_game.Engine.Hub.Messages.{quietly}
use lotr_kafka_strategy_game.Engine.Recover.{RecoverState, build_world_from_recover}
use lotr_kafka_strategy_game.Engine.Hub.Secrecy.{KeepsSecret, IsQuiet}

abbrev pub SecretPayload : String → Payload → Type 0
SecretPayload ring (event_payload topic m) = KeepsSecret ring m
SecretPayload ring _ = Unit

-- What a browser of the dark side is offered keeps the secret.
abbrev pub IsUnseen : String → Delivery → Type 0
IsUnseen ring d = (d.client.side == player_dark) ≡ true → SecretPayload ring d.payload

-- No browser of the dark side stands in the set of the light side.
abbrev pub LightOnly : Hub → Type 0
LightOnly h = All (λ c. (c.side == player_dark) ≡ false) h.light

module _ (ring : String) where
  abbrev Sends : Payload → SseClient → Type 0
  Sends p c = (c.side == player_dark) ≡ true → SecretPayload ring p

  offer-Safe :
      (p : Payload) (c : SseClient) → Sends p c → Safe LightOnly (IsUnseen ring) (offer p c)
  unfolding offer
  offer-Safe p c s = record {
    at = λ h r e light. elim (Bool-cases (contains h.closed c.address)) [
      | inl b ↦ absurd (cc (rw (b, offer) at e))
      | inr b ↦
          subst (λ t. LightOnly t.0 × All (IsUnseen ring) t.1) (some_eq (rw (b, offer) at e))
            (light, (s, tt))
    ];
  }

  send_all-Safe :
      (p : Payload) (cs : List SseClient)
      → All (Sends p) cs
      → Safe LightOnly (IsUnseen ring) (send_all p cs)
  unfolding send_all each
  send_all-Safe p [] s = Safe-done
  send_all-Safe p (c ∷ cs) (s, ss) =
      Safe->> (offer p c) (send_all p cs) (offer-Safe p c s) (send_all-Safe p cs ss)

  everyone : (p : Payload) (cs : List SseClient) → SecretPayload ring p → All (Sends p) cs
  everyone p [] s = tt
  everyone p (c ∷ cs) s = (λ _. s, everyone p cs s)

  lights :
      (p : Payload) (cs : List SseClient)
      → All (λ c. (c.side == player_dark) ≡ false) cs
      → All (Sends p) cs
  lights p [] h = tt
  lights p (c ∷ cs) (h, hs) = (λ b. absurd (cc (h, b)), lights p cs hs)

  -- A payload for the light side alone, or one that keeps the secret.
  fanout-Safe :
      (a : Audience) (p : Payload)
      → (a ≡ aud_light) ⊎ SecretPayload ring p
      → Safe LightOnly (IsUnseen ring) (fanout a p)
  unfolding fanout
  fanout-Safe aud_light p s = record {
    at = λ h r e light. (send_all-Safe p h.light (lights p h.light light)).at h r e light;
  }
  fanout-Safe aud_dark p (inl q) = absurd (cc q)
  fanout-Safe aud_dark p (inr s) = record {
    at = λ h r e light. (send_all-Safe p h.dark (everyone p h.dark s)).at h r e light;
  }
  fanout-Safe aud_all p (inl q) = absurd (cc q)
  fanout-Safe aud_all p (inr s) = record {
    at = λ h r e light.
        (Safe->> (send_all p h.light) (send_all p h.dark)
            (send_all-Safe p h.light (everyone p h.light s))
            (send_all-Safe p h.dark (everyone p h.dark s))).at
          h r e light;
  }

  remove-lights :
      (cs : List SseClient) (c : SseClient)
      → All (λ c. (c.side == player_dark) ≡ false) cs
      → All (λ c. (c.side == player_dark) ≡ false) (remove_client cs c)
  remove-lights [] c h = tt
  remove-lights (x ∷ xs) c (h, hs) = ground (arith, remove-lights xs c hs)

  close_stream-light :
      (c : SseClient) (h h' : Hub) → close_stream c h ≡ some h' → h'.light ≡ h.light
  unfolding close_stream
  close_stream-light c h h' e = ground arith

  drop-LightOnly : (c : SseClient) (h h' : Hub) → drop c h ≡ some h' → LightOnly h → LightOnly h'
  unfolding drop
  drop-LightOnly c h h' e light = elim (Bool-cases (has_client h.light c)) [
    | inl b ↦
        subst (All (λ c. (c.side == player_dark) ≡ false))
          (sym (close_stream-light c _ h' (rw (b, drop) at e))) (remove-lights h.light c light)
    | inr b ↦ elim (Bool-cases (has_client h.dark c)) [
      | inl d ↦
          subst (All (λ c. (c.side == player_dark) ≡ false))
            (sym (close_stream-light c _ h' (rw (b, d, drop) at e))) light
      | inr d ↦ subst LightOnly (some_eq (rw (b, d, drop) at e)) light
    ]
  ]

  enter-LightOnly : (c : SseClient) (h : Hub) → LightOnly h → LightOnly (enter c h)
  unfolding enter
  enter-LightOnly c h light = ground arith

  cached-light : (ev : HubEvent) (h : Hub) → (apply_event_to_cache ev h).light ≡ h.light
  unfolding apply_event_to_cache
  cached-light ev h = ground arith

  session-LightOnly :
      (ids : List String) (rs : RecoverState) (h h' : Hub)
      → apply_session ids rs h ≡ some h'
      → LightOnly h
      → LightOnly h'
  unfolding apply_session
  session-LightOnly ids rs h h' e light =
      elim (Option-cases (build_world_from_recover ids h.cfg rs)) [
        | inl n ↦ absurd (cc (rw (n, apply_session) at e))
        | inr (w, q) ↦ subst LightOnly (some_eq (rw (q, apply_session) at e)) light
      ]

  quietly-Safe :
      (f : Hub → Option Hub)
      → ((h h' : Hub) → f h ≡ some h' → LightOnly h → LightOnly h')
      → Safe LightOnly (IsUnseen ring) (λ h. quietly (f h))
  unfolding quietly
  quietly-Safe f keeps = record {
    at = λ h r e light. elim (Option-cases (f h)) [
      | inl n ↦ absurd (cc (rw (n, quietly) at e))
      | inr (h', q) ↦
          subst (λ t. LightOnly t.0 × All (IsUnseen ring) t.1) (some_eq (rw (q, quietly) at e))
            (keeps h h' q light, tt)
    ];
  }

  replied-Safe :
      {A : Type 0} (f : Hub → Option A) → Safe LightOnly (IsUnseen ring) (λ h. replied h (f h))
  unfolding replied
  replied-Safe f = record {
    at = λ h r e light. elim (Option-cases (f h)) [
      | inl n ↦ absurd (cc (rw (n, replied) at e))
      | inr (reply, q) ↦
          subst (λ t. LightOnly t.0 × All (IsUnseen ring) t.1) (some_eq (rw (q, replied) at e))
            (light, tt)
    ];
  }

  hub_step-Safe : (msg : HubMsg) → IsQuiet ring msg → Safe LightOnly (IsUnseen ring) (hub_step msg)
  unfolding hub_step
  hub_step-Safe (registers c) q = record {
    at = λ h r e light.
        subst (λ t. LightOnly t.0 × All (IsUnseen ring) t.1) (some_eq e)
          (enter-LightOnly c h light, tt);
  }
  hub_step-Safe (unregisters c) q = quietly-Safe (drop c) (drop-LightOnly c)
  hub_step-Safe (receives ev) q = record {
    at = λ h r e light.
        (fanout-Safe ev.audience (event_payload ev.topic ev.content) q).at
          (apply_event_to_cache ev h) r e
          (subst (All (λ c. (c.side == player_dark) ≡ false)) (sym (cached-light ev h)) light);
  }
  hub_step-Safe (snapshots snap) q = record {
    at = λ h r e light.
        (fanout-Safe aud_all (snapshot_payload snap) (inr tt)).at (apply_snapshot snap h) r e light;
  }
  hub_step-Safe (sessions ids rs) q = quietly-Safe (apply_session ids rs) (session-LightOnly ids rs)
  hub_step-Safe keeps_alive q = fanout-Safe aud_all keepalive_payload (inr tt)
  hub_step-Safe (asks_state side) q = replied-Safe (build_state_view side)
  hub_step-Safe (asks_analysis kind a) q = replied-Safe (analyze kind a)
  hub_step-Safe (asks_world ids) q = replied-Safe (clone_world ids)

  pub run_hub-Safe :
      (msgs : List HubMsg) → All (IsQuiet ring) msgs → Safe LightOnly (IsUnseen ring) (run_hub msgs)
  unfolding run_hub each
  run_hub-Safe [] q = Safe-done
  run_hub-Safe (m ∷ ms) (q, qs) =
      Safe->> (hub_step m) (run_hub ms) (hub_step-Safe m q) (run_hub-Safe ms qs)
