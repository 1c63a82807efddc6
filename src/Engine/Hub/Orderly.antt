-- ===== src/Engine/Hub/Orderly.antt =====
-- The loop of option-b/internal/engine/hub.go does not panic: it sends on no closed stream, closes none
-- twice, and reads no missing entry.
pub mod Shown
pub mod Streams
pub mod Ready
pub mod Loop
use lotr_kafka_strategy_game.Prelude.{
  ℕ, String, ◌≡◌, ◌≢◌, ◌⊎◌, refl, sym, subst, ◌∙◌, ap, inl, inr, Bool, true, false, not, Option,
  none, some, List, [], ◌∷◌, ◌++◌, ◌==◌, arith, All, contains, select, Option-cases, Bool-cases,
  if◌then◌else◌, eq_iff,
}
use lotr_kafka_strategy_game.Prelude.Steps.{Step, each, ◌>>◌}
use lotr_kafka_strategy_game.Prelude.Steps.Rules.{Gives, Gives-elim, Total, Total->>, Total-done}
use lotr_kafka_strategy_game.Config.{Config}
use lotr_kafka_strategy_game.Game.State.{World, new_world}
use lotr_kafka_strategy_game.Game.Order.{Audience, aud_all, aud_light, aud_dark}
use lotr_kafka_strategy_game.Engine.Recover.{RecoverState, build_world_from_recover}
use lotr_kafka_strategy_game.Engine.Hub.{
  player_dark, SseClient, HubEvent, Payload, event_payload, snapshot_payload, keepalive_payload,
  Delivery, Hub, has_client, add_client, remove_client, enter, close_stream, drop, offer, send_all,
  fanout,
}
use lotr_kafka_strategy_game.Engine.Hub.Cache.{apply_event_to_cache, apply_snapshot, apply_session}
use lotr_kafka_strategy_game.Engine.Hub.Messages.{
  HubMsg, registers, unregisters, receives, snapshots, sessions, keeps_alive, hub_step, run_hub,
  quietly,
}

-- `sides` says of every address which side its stream is for. A member of a set is a stream of the
-- set's side, whose channel is open.
abbrev pub IsMember : (String → String) → Bool → List String → SseClient → Type 0
IsMember sides dark closed c =
    (c.side ≡ sides c.address)
    × ((sides c.address == player_dark) ≡ dark)
    × (contains closed c.address ≡ false)

-- The streams of both sets are open, what was closed has gone, and `NewWorld` returns.
pub record IsOrderly (sides : String → String) (gone : List String) (h : Hub) : Type 0 where
  pub lights : All (IsMember sides false h.closed) h.light
  pub darks : All (IsMember sides true h.closed) h.dark
  pub closes : (a : String) → contains h.closed a ≡ true → contains gone a ≡ true
  pub starts : (w : World) × (new_world h.cfg ≡ some w)

not_fixed : (d : Bool) → d ≢ not d
not_fixed true h = cc h
not_fixed false h = cc h

module _ (sides : String → String) where
  add-members :
      (dark : Bool) (closed : List String) (cs : List SseClient) (c : SseClient)
      → IsMember sides dark closed c
      → All (IsMember sides dark closed) cs
      → All (IsMember sides dark closed) (add_client cs c)
  add-members dark closed cs c h hs = elim (Bool-cases (has_client cs c)) [
    | inl b ↦ rw b hs
    | inr b ↦ rw b (h, hs)
  ]

  -- A member of the set stands for whatever is at its address.
  found :
      (dark : Bool) (closed : List String) (cs : List SseClient) (c : SseClient)
      → All (IsMember sides dark closed) cs
      → has_client cs c ≡ true
      → ((sides c.address == player_dark) ≡ dark) × (contains closed c.address ≡ false)
  found dark closed [] c h b = absurd (cc b)
  found dark closed (x ∷ xs) c (h, hs) b = elim (Bool-cases (x.address == c.address)) [
    | inl t ↦
        let same : x.address ≡ c.address = (eq_iff x.address c.address).0 t in
        subst (λ a. ((sides a == player_dark) ≡ dark) × (contains closed a ≡ false)) same (h.1, h.2)
    | inr f ↦ found dark closed xs c hs (rw f at b)
  ]

  -- A close of a stream at another address.
  pub IsMember-closed :
      (dark : Bool) (closed : List String) (a : String) (c : SseClient)
      → IsMember sides dark closed c
      → (a == c.address) ≡ false
      → IsMember sides dark (a ∷ closed) c
  IsMember-closed dark closed a c (s, d, o) n = (s, d, rw n o)

  -- The other side's members, after a close.
  pub others-closed :
      (dark : Bool) (closed : List String) (a : String) (cs : List SseClient)
      → (sides a == player_dark) ≡ not dark
      → All (IsMember sides dark closed) cs
      → All (IsMember sides dark (a ∷ closed)) cs
  others-closed dark closed a [] n h = tt
  others-closed dark closed a (c ∷ cs) n (h, hs) = (
    elim (Bool-cases (a == c.address)) [
      | inl t ↦
          let same : a ≡ c.address = (eq_iff a c.address).0 t in
          absurd
            (not_fixed dark (sym (subst (λ x. (sides x == player_dark) ≡ dark) (sym same) h.1) ∙ n))
      | inr f ↦ IsMember-closed dark closed a c h f
    ],
    others-closed dark closed a cs n hs,
  )

  -- The members of the set that a stream was taken from.
  rest-closed :
      (dark : Bool) (closed : List String) (c : SseClient) (cs : List SseClient)
      → All (IsMember sides dark closed) cs
      → All (IsMember sides dark (c.address ∷ closed)) (remove_client cs c)
  rest-closed dark closed c [] h = tt
  rest-closed dark closed c (x ∷ xs) (h, hs) = elim (Bool-cases (x.address == c.address)) [
    | inl t ↦ rw t (rest-closed dark closed c xs hs)
    | inr f ↦ rw f (
      IsMember-closed dark closed c.address x h
          (ground (arith, eq_iff x.address c.address, eq_iff c.address x.address)),
      rest-closed dark closed c xs hs,
    )
  ]

  module _ (gone : List String) where
    pub enter-IsOrderly :
        (c : SseClient) (h : Hub)
        → c.side ≡ sides c.address
        → contains gone c.address ≡ false
        → IsOrderly sides gone h
        → IsOrderly sides gone (enter c h)
    unfolding enter
    enter-IsOrderly c h s new o =
        let open_ : contains h.closed c.address ≡ false = ground (arith, o.closes c.address) in
        let side =
          λ (d : Bool) (b : (c.side == player_dark) ≡ d). subst (λ x. (x == player_dark) ≡ d) s b in
        elim (Bool-cases (c.side == player_dark)) [
          | inl b ↦
              rw (b, enter)
                (record {
                  lights = o.lights;
                  darks = add-members true h.closed h.dark c (s, side true b, open_) o.darks;
                  closes = o.closes;
                  starts = o.starts;
                })
          | inr b ↦
              rw (b, enter)
                (record {
                  lights = add-members false h.closed h.light c (s, side false b, open_) o.lights;
                  darks = o.darks;
                  closes = o.closes;
                  starts = o.starts;
                })
        ]

    pub drop-IsOrderly :
        (c : SseClient) (h : Hub)
        → IsOrderly sides gone h
        → Gives (IsOrderly sides (c.address ∷ gone)) (drop c h)
    unfolding drop close_stream
    drop-IsOrderly c h o = elim (Bool-cases (has_client h.light c)) [
      | inl b ↦
          let (side, is_open) = found false h.closed h.light c o.lights b in
          rw (b, is_open, drop)
            (record {
              lights = rest-closed false h.closed c h.light o.lights;
              darks = others-closed true h.closed c.address h.dark side o.darks;
              closes = λ a m. ground (arith, o.closes a);
              starts = o.starts;
            })
      | inr b ↦ elim (Bool-cases (has_client h.dark c)) [
        | inl d ↦
            let (side, is_open) = found true h.closed h.dark c o.darks d in
            rw (b, d, is_open, drop)
              (record {
                lights = others-closed false h.closed c.address h.light side o.lights;
                darks = rest-closed true h.closed c h.dark o.darks;
                closes = λ a m. ground (arith, o.closes a);
                starts = o.starts;
              })
        | inr d ↦
            rw (b, d, drop)
              (record {
                lights = o.lights;
                darks = o.darks;
                closes = λ a m. ground (arith, o.closes a);
                starts = o.starts;
              })
      ]
    ]
