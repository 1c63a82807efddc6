-- ===== src/Engine/Hub/Orderly/Loop.antt =====
-- The loop of option-b/internal/engine/hub.go over whatever messages arrive.
use lotr_kafka_strategy_game.Prelude.{
  String, ◌≡◌, refl, sym, subst, inl, inr, Bool-cases, Option-cases, get_or, ◌==◌, Bool, true,
  false, Option, none, some, List, [], ◌∷◌, arith, All, contains,
}
use lotr_kafka_strategy_game.Prelude.Steps.{each, ◌>>◌}
use lotr_kafka_strategy_game.Prelude.Steps.Rules.{Gives, Gives-elim}
use lotr_kafka_strategy_game.Game.State.{World, new_world}
use lotr_kafka_strategy_game.Game.Order.{Audience, aud_all, aud_light, aud_dark}
use lotr_kafka_strategy_game.Engine.Recover.{RecoverState, build_world_from_recover}
use lotr_kafka_strategy_game.Engine.Hub.{
  SseClient, HubEvent, Payload, event_payload, snapshot_payload, keepalive_payload, Delivery, Hub,
  drop, offer, send_all, fanout,
}
use lotr_kafka_strategy_game.Engine.Hub.Cache.{apply_event_to_cache, apply_snapshot, apply_session}
use lotr_kafka_strategy_game.Engine.Hub.Messages.{
  HubMsg, registers, unregisters, receives, snapshots, sessions, keeps_alive, asks_state,
  asks_analysis, asks_world, hub_step, run_hub, quietly, replied,
}
use lotr_kafka_strategy_game.Engine.Messages.{WorldSnapshotMsg}
use lotr_kafka_strategy_game.Analysis.Intercept.Total.{build_intercept_plan_returns}
use lotr_kafka_strategy_game.Engine.Hub.Views.{
  Analyst, Analysis, analyze, analyze_intercept, build_state_view, clone_world, ring_start,
}
use lotr_kafka_strategy_game.Engine.Hub.Orderly.Shown.{CanShow, build_state_view_returns}
use lotr_kafka_strategy_game.Engine.Hub.Orderly.{
  IsMember, IsOrderly, enter-IsOrderly, drop-IsOrderly,
}

-- Every stream that is registered is new: it is of its address's side, and no stream of that address
-- was unregistered before. `gone` lists the addresses that were.
abbrev pub IsLegal : (String → String) → List String → List HubMsg → Type 0
IsLegal sides gone [] = Unit
IsLegal sides gone (registers c ∷ ms) =
    (c.side ≡ sides c.address) × (contains gone c.address ≡ false) × IsLegal sides gone ms
IsLegal sides gone (unregisters c ∷ ms) = IsLegal sides (c.address ∷ gone) ms
IsLegal sides gone (_ ∷ ms) = IsLegal sides gone ms

-- A request for the state of the game, which dereferences the entries of the cache.
abbrev pub Asks : HubMsg → Type 0
Asks (asks_state side) = Unit
Asks _ = ⊥

-- The addresses gone after one message.
abbrev gone_after : HubMsg → List String → List String
gone_after (unregisters c) gone = c.address ∷ gone
gone_after _ gone = gone

module _ (sides : String → String) where
  module _ (gone : List String) where
    -- A change of the cache alone.
    cached-IsOrderly :
        (h h' : Hub)
        → h'.light ≡ h.light
        → h'.dark ≡ h.dark
        → h'.closed ≡ h.closed
        → h'.cfg ≡ h.cfg
        → IsOrderly sides gone h
        → IsOrderly sides gone h'
    cached-IsOrderly h h' l d c g o = record {
      lights = rw (l, c) o.lights;
      darks = rw (d, c) o.darks;
      closes = rw c o.closes;
      starts = subst (λ x. (w : World) × (new_world x ≡ some w)) (sym g) o.starts;
    }

    apply_event-IsOrderly :
        (ev : HubEvent) (h : Hub)
        → IsOrderly sides gone h
        → IsOrderly sides gone (apply_event_to_cache ev h)
    unfolding apply_event_to_cache
    apply_event-IsOrderly ev h o =
        cached-IsOrderly h (apply_event_to_cache ev h) (ground arith) (ground arith) (ground arith)
          (ground arith) o

    snapshot-IsOrderly :
        (snap : WorldSnapshotMsg) (h : Hub)
        → IsOrderly sides gone h
        → IsOrderly sides gone (apply_snapshot snap h)
    unfolding apply_snapshot
    snapshot-IsOrderly snap h o = cached-IsOrderly h (apply_snapshot snap h) refl refl refl refl o

    send_all-Gives :
        (p : Payload) (dark : Bool) (cs : List SseClient) (h : Hub)
        → IsOrderly sides gone h
        → All (IsMember sides dark h.closed) cs
        → (ds : List Delivery) × (send_all p cs h ≡ some (h, ds))
    unfolding send_all each offer ◌>>◌
    send_all-Gives p dark [] h o m = ([], refl)
    send_all-Gives p dark (c ∷ cs) h o ((s, d, q), m) =
        let (ds, e) = send_all-Gives p dark cs h o m in
        let offered : offer p c h ≡ some (h, record { client = c; payload = p } ∷ []) =
          rw (q, offer) refl in
        rw (offered, ◌>>◌) (rw (e, send_all) (_, refl))

    fanout-Gives :
        (a : Audience) (p : Payload) (h : Hub)
        → IsOrderly sides gone h
        → Gives (λ r. IsOrderly sides gone r.0) (fanout a p h)
    unfolding fanout ◌>>◌
    fanout-Gives aud_light p h o =
        let (ds, e) = send_all-Gives p false h.light h o o.lights in rw (e, fanout) o
    fanout-Gives aud_dark p h o =
        let (ds, e) = send_all-Gives p true h.dark h o o.darks in rw (e, fanout) o
    fanout-Gives aud_all p h o =
        let (ds, e) = send_all-Gives p false h.light h o o.lights in
        let (ds', e') = send_all-Gives p true h.dark h o o.darks in rw (e, e', fanout, ◌>>◌) o

    session-Gives :
        (ids : List String) (rs : RecoverState) (h : Hub)
        → IsOrderly sides gone h
        → Gives (IsOrderly sides gone) (apply_session ids rs h)
    unfolding apply_session build_world_from_recover
    session-Gives ids rs h o =
        rw (o.starts.1, apply_session, build_world_from_recover)
          (cached-IsOrderly h _ refl refl refl refl o)

    replied-Gives :
        {A : Type 0} (h : Hub) (a : Option A)
        → ((x : A) × (a ≡ some x))
        → IsOrderly sides gone h
        → Gives (λ r. IsOrderly sides gone r.0) (replied h a)
    unfolding replied
    replied-Gives h a (x, e) o = rw (e, replied) o

    analyze_returns :
        (kind : String) (a : Analyst) (h : Hub) → (x : Analysis) × (analyze kind a h ≡ some x)
    unfolding analyze analyze_intercept
    analyze_returns kind a h = elim (Bool-cases (kind == "intercept")) [
      | inr b ↦ rw (b, analyze) (_, refl)
      | inl b ↦
          let (p, e) =
            build_intercept_plan_returns a.floats a.cost_distance a.ids h.cache
              (ring_start h h.last_detected_region) (get_or h.canonical "Fellowship" []) in
          rw (b, e, analyze, analyze_intercept) (_, refl)
    ]

    clone_world_returns :
        (ids : List String) (h : Hub)
        → IsOrderly sides gone h
        → (x : Option World) × (clone_world ids h ≡ some x)
    unfolding clone_world build_world_from_recover
    clone_world_returns ids h o = elim (Option-cases h.last_recover) [
      | inl n ↦ rw (n, clone_world) (none, refl)
      | inr (rs, e) ↦ rw (e, o.starts.1, clone_world, build_world_from_recover) (_, refl)
    ]

    quietly-Gives : (P : Hub → Type 0) (o : Option Hub) → Gives P o → Gives (λ r. P r.0) (quietly o)
    unfolding quietly
    quietly-Gives P none h = h
    quietly-Gives P (some x) h = h

  hub_step-Gives :
      (msg : HubMsg) (gone : List String) (ms : List HubMsg) (h : Hub)
      → IsLegal sides gone (msg ∷ ms)
      → (Asks msg → CanShow h)
      → IsOrderly sides gone h
      → Gives (λ r. IsOrderly sides (gone_after msg gone) r.0) (hub_step msg h)
        × IsLegal sides (gone_after msg gone) ms
  unfolding hub_step
  hub_step-Gives (registers c) gone ms h (s, new, legal) shows o =
      (enter-IsOrderly sides gone c h s new o, legal)
  hub_step-Gives (unregisters c) gone ms h legal shows o = (
    quietly-Gives gone (IsOrderly sides (c.address ∷ gone)) (drop c h)
        (drop-IsOrderly sides gone c h o),
    legal,
  )
  hub_step-Gives (receives ev) gone ms h legal shows o = (
    fanout-Gives gone ev.audience (event_payload ev.topic ev.content) _
        (apply_event-IsOrderly gone ev h o),
    legal,
  )
  hub_step-Gives (snapshots snap) gone ms h legal shows o = (
    fanout-Gives gone aud_all (snapshot_payload snap) (apply_snapshot snap h)
        (snapshot-IsOrderly gone snap h o),
    legal,
  )
  hub_step-Gives (sessions ids rs) gone ms h legal shows o = (
    quietly-Gives gone (IsOrderly sides gone) (apply_session ids rs h)
        (session-Gives gone ids rs h o),
    legal,
  )
  hub_step-Gives keeps_alive gone ms h legal shows o =
      (fanout-Gives gone aud_all keepalive_payload h o, legal)
  hub_step-Gives (asks_state side) gone ms h legal shows o = (
    replied-Gives gone h (build_state_view side h) (build_state_view_returns side h (shows tt)) o,
    legal,
  )
  hub_step-Gives (asks_analysis kind a) gone ms h legal shows o =
      (replied-Gives gone h (analyze kind a h) (analyze_returns gone kind a h) o, legal)
  hub_step-Gives (asks_world ids) gone ms h legal shows o =
      (replied-Gives gone h (clone_world ids h) (clone_world_returns gone ids h o) o, legal)

  -- A loop that hears no request for the state.
  pub unasked_returns :
      (msgs : List HubMsg) (gone : List String) (h : Hub)
      → IsLegal sides gone msgs
      → All (λ m. Asks m → ⊥) msgs
      → IsOrderly sides gone h
      → (r : Hub × List Delivery) × (run_hub msgs h ≡ some r)
  unfolding run_hub each ◌>>◌
  unasked_returns [] gone h legal idle o = ((h, []), refl)
  unasked_returns (m ∷ ms) gone h legal (quiet, idle) o =
      let (given, legal') = hub_step-Gives m gone ms h legal (λ a. absurd (quiet a)) o in
      let ((h', ds), e, o') =
        Gives-elim (λ r. IsOrderly sides (gone_after m gone) r.0) (hub_step m h) given in
      let ((h'', more), e') = unasked_returns ms (gone_after m gone) h' legal' idle o' in
      rw (e, ◌>>◌) (rw (e', run_hub) (_, refl))
