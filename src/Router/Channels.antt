-- ===== src/Router/Channels.antt =====
-- What the channels of option-b/internal/router/router.go have carried after any sequence of sends.
use lotr_kafka_strategy_game.Prelude.{
  String, ◌≡◌, ◌≢◌, refl, sym, ◌∙◌, ◌⊎◌, some, List, [], ◌∷◌, ◌++◌, arith, All, ap, All-append,
  subst,
}
use lotr_kafka_strategy_game.Game.State.{World}
use lotr_kafka_strategy_game.Game.Order.{
  Order, Event, Audience, aud_all, aud_light, aud_dark, ring_bearer_moved, unit_moved, Order,
}
use lotr_kafka_strategy_game.Game.Turn.Process.{Schedule, process_turn}
use lotr_kafka_strategy_game.Game.Turn.Secrecy.{IsDiscreet}
use lotr_kafka_strategy_game.Game.Turn.Secrecy.Whole.{process_turn-IsDiscreet}
use lotr_kafka_strategy_game.Prelude.Steps.Rules.{some_eq}
use lotr_kafka_strategy_game.Router.{
  Snapshot, Outbound, Router, event_out, snapshot_out, route_to, route_event, strip_for_dark,
  broadcast, new_router,
}

-- What the engine hands to the router.
pub data Message : Type 0 where
  an_event : Event → Message
  a_snapshot : Snapshot → Message

unfoldable pub deliver : Message → Router → Router
unfolding route_event broadcast
deliver (an_event ev) r = route_event ev r
deliver (a_snapshot s) r = broadcast s r

unfoldable pub deliver_all : List Message → Router → Router
unfolding deliver
deliver_all [] r = r
deliver_all (m ∷ ms) r = deliver_all ms (deliver m r)

-- The part of a message that a side may see, as its channel carries it.
abbrev pub light_part : Audience → Outbound → List Outbound
light_part aud_dark out = []
light_part _ out = out ∷ []

abbrev pub dark_part : Audience → Outbound → List Outbound
dark_part aud_light out = []
dark_part _ out = out ∷ []

abbrev pub light_sees : List Message → List Outbound
light_sees [] = []
light_sees (an_event ev ∷ ms) = light_part ev.audience (event_out ev) ++ light_sees ms
light_sees (a_snapshot s ∷ ms) = snapshot_out s ∷ light_sees ms

abbrev pub dark_sees : List Message → List Outbound
dark_sees [] = []
dark_sees (an_event ev ∷ ms) = dark_part ev.audience (event_out ev) ++ dark_sees ms
dark_sees (a_snapshot s ∷ ms) = snapshot_out (record s { ring_bearer_region = "" }) ∷ dark_sees ms

append_assoc {ℓ} : {A : Type ℓ} (xs ys zs : List A) → (xs ++ ys) ++ zs ≡ xs ++ (ys ++ zs)
append_assoc [] ys zs = refl
append_assoc (x ∷ xs) ys zs = ap (λ t. x ∷ t) (append_assoc xs ys zs)

append_nil {ℓ} : {A : Type ℓ} (xs : List A) → xs ++ [] ≡ xs
append_nil [] = refl
append_nil (x ∷ xs) = ap (λ t. x ∷ t) (append_nil xs)

route_to-light :
    (a : Audience) (out : Outbound) (r : Router)
    → (route_to a out r).light ≡ r.light ++ light_part a out
unfolding route_to
route_to-light aud_all out r = refl
route_to-light aud_light out r = refl
route_to-light aud_dark out r = sym (append_nil r.light)

route_to-dark :
    (a : Audience) (out : Outbound) (r : Router)
    → (route_to a out r).dark ≡ r.dark ++ dark_part a out
unfolding route_to
route_to-dark aud_all out r = refl
route_to-dark aud_light out r = sym (append_nil r.dark)
route_to-dark aud_dark out r = refl

-- After any sequence of messages each channel has carried, in the order of the messages, the events
-- of its audience and every snapshot; the snapshots of the dark side have no ring bearer region.
pub deliver_all_lem :
    (ms : List Message) (r : Router)
    → ((deliver_all ms r).light ≡ r.light ++ light_sees ms)
      × ((deliver_all ms r).dark ≡ r.dark ++ dark_sees ms)
unfolding deliver_all
deliver_all_lem [] r = (sym (append_nil r.light), sym (append_nil r.dark))
deliver_all_lem (an_event ev ∷ ms) r =
    let (l, d) = deliver_all_lem ms (route_to ev.audience (event_out ev) r) in
    (
      l
          ∙ ap (λ t. t ++ light_sees ms) (route_to-light ev.audience (event_out ev) r)
          ∙ append_assoc r.light (light_part ev.audience (event_out ev)) (light_sees ms),
      d
          ∙ ap (λ t. t ++ dark_sees ms) (route_to-dark ev.audience (event_out ev) r)
          ∙ append_assoc r.dark (dark_part ev.audience (event_out ev)) (dark_sees ms),
    )
deliver_all_lem (a_snapshot s ∷ ms) r =
    let (l, d) = deliver_all_lem ms (broadcast s r) in
    (
      l ∙ append_assoc r.light (snapshot_out s ∷ []) (light_sees ms),
      d ∙ append_assoc r.dark (snapshot_out (strip_for_dark s) ∷ []) (dark_sees ms),
    )

-- What the dark side may be sent: an event that is not for the light side alone, names no true
-- region and tells no move of the ring bearer `ring`, or a snapshot without its region.
abbrev pub IsSecret : String → Outbound → Type 0
IsSecret ring out =
    ((ev : Event)
      → out.event ≡ some ev
      → (ev.true_region ≡ "")
        × (ev.type ≢ ring_bearer_moved)
        × ((ev.type ≢ unit_moved) ⊎ (ev.unit_id ≢ ring)))
    × ((s : Snapshot) → out.snapshot ≡ some s → s.ring_bearer_region ≡ "")

abbrev pub messages : List Event → List Message
messages [] = []
messages (ev ∷ evs) = an_event ev ∷ messages evs

event_out-IsSecret :
    (ring : String) (ev : Event)
    → IsDiscreet ring ev
    → ev.audience ≢ aud_light
    → IsSecret ring (event_out ev)
event_out-IsSecret ring ev d n = (
  λ e h.
      subst
        (λ x.
          (x.true_region ≡ "")
          × (x.type ≢ ring_bearer_moved)
          × ((x.type ≢ unit_moved) ⊎ (x.unit_id ≢ ring)))
        (some_eq h) (ground (arith, d, n)),
  λ s h. absurd (cc h),
)

dark_part-AllSecret :
    (ring : String) (a : Audience) (ev : Event)
    → ev.audience ≡ a
    → IsDiscreet ring ev
    → All (IsSecret ring) (dark_part a (event_out ev))
dark_part-AllSecret ring aud_all ev e d =
    (event_out-IsSecret ring ev d (λ q. absurd (cc (e, q))), tt)
dark_part-AllSecret ring aud_dark ev e d =
    (event_out-IsSecret ring ev d (λ q. absurd (cc (e, q))), tt)
dark_part-AllSecret ring aud_light ev e d = tt

dark_sees-AllSecret :
    (ring : String) (evs : List Event)
    → All (IsDiscreet ring) evs
    → All (IsSecret ring) (dark_sees (messages evs))
dark_sees-AllSecret ring [] h = tt
dark_sees-AllSecret ring (ev ∷ evs) h =
    All-append (IsSecret ring) (dark_part ev.audience (event_out ev)) (dark_sees (messages evs))
      (dark_part-AllSecret ring ev.audience ev refl h.0) (dark_sees-AllSecret ring evs h.1)

-- When the events of a turn and then a snapshot of the world are handed to a fresh router, no event on
-- the dark channel fills in the field of the ring bearer's true region or tells its moves, and the
-- snapshot there has no ring bearer region.
pub turn-AllSecret :
    (sch : Schedule) (orders : List Order) (w : World) (r : World × List Event) (s : Snapshot)
    → process_turn sch orders w ≡ some r
    → All (IsSecret w.ring_id) (broadcast s (deliver_all (messages r.1) new_router)).dark
unfolding broadcast strip_for_dark
turn-AllSecret sch orders w r s e =
    let sent = (deliver_all_lem (messages r.1) new_router).1 in
    let events = dark_sees-AllSecret w.ring_id r.1 (process_turn-IsDiscreet sch orders w r e) in
    All-append (IsSecret w.ring_id) (deliver_all (messages r.1) new_router).dark
      (snapshot_out (strip_for_dark s) ∷ []) (subst (All (IsSecret w.ring_id)) (sym sent) events)
      ((λ ev h. absurd (cc h), λ t h. ap (λ x. x.ring_bearer_region) (sym (some_eq h))), tt)
