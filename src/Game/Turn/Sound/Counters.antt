-- ===== src/Game/Turn/Sound/Counters.antt =====
-- Steps 9 to 13 of the turn (option-b/internal/game/turn.go) in a well-formed world.
use lotr_kafka_strategy_game.Prelude.{
  ℕ, String, ◌≡◌, refl, inl, inr, Bool-cases, Option-cases, not, some, List, [], ◌∷◌, ◌&&◌, ◌==◌,
  ◌-◌, Has_of_some, leb, ltb, if◌then◌else◌,
}
use lotr_kafka_strategy_game.Prelude.Steps.Rules.{Gives, Gives-elim, Total}
use lotr_kafka_strategy_game.Config.{unit_at}
use lotr_kafka_strategy_game.Game.State.{UnitState, World, Status, active, destroyed, respawning}
use lotr_kafka_strategy_game.Game.Order.{Order}
use lotr_kafka_strategy_game.Game.PathMachine.{tick_temp_open}
use lotr_kafka_strategy_game.Game.Units.{place_unit}
use lotr_kafka_strategy_game.Game.Units.Placing.{HasMoved, place_unit-IsWellFormed}
use lotr_kafka_strategy_game.Game.Detection.{eye_active, finds, expose, detect_each, run_detection}
use lotr_kafka_strategy_game.Game.WellFormed.{
  IsWellFormed, insert_region-IsSound, insert_path-IsSound, Stays-IsWellFormed,
}
use lotr_kafka_strategy_game.Game.Turn.Helpers.{shadow_present, nazgul_present}
use lotr_kafka_strategy_game.Game.Turn.Close.{
  revived, tick_path, tick_region, respawn_as, count_respawn, count_cooldown, count_unit, detect,
  any_destroy, finish_game, evaluate_win, close_turn,
}

pub tick_path-Total : (pid : String) → Total IsWellFormed (tick_path pid)
unfolding tick_path
tick_path-Total pid = record {
  at = λ w h. elim (Option-cases (w.paths pid)) [
    | inl n ↦ rw (n, tick_path) h
    | inr (p, e) ↦
        rw (e, tick_path) (insert_path-IsSound h pid (tick_temp_open p) (Has_of_some _ e))
  ];
}

pub tick_region-Total : (rid : String) → Total IsWellFormed (tick_region rid)
unfolding tick_region
tick_region-Total rid = record {
  at = λ w h. elim (Option-cases (w.regions rid)) [
    | inl n ↦ rw (n, tick_region) h
    | inr (r, e) ↦ elim (Bool-cases r.fortified) [
      | inr b ↦ rw (e, tick_region) (rw b h)
      | inl b ↦ elim (Bool-cases (leb (r.fortify_turns - 1) 0)) [
        | inl c ↦
            rw (e, tick_region) (rw b (rw c (insert_region-IsSound h rid _ (h.residents rid r e))))
        | inr c ↦
            rw (e, tick_region) (rw b (rw c (insert_region-IsSound h rid _ (h.residents rid r e))))
      ]
    ]
  ];
}

respawn_as-IsWellFormed :
    (s : Status) (id : String) (u : UnitState) (w : World)
    → IsWellFormed w
    → w.units id ≡ some u
    → Gives IsWellFormed (respawn_as s id u w)
unfolding respawn_as
respawn_as-IsWellFormed respawning id u w h e = elim (Bool-cases (leb (u.respawn_turns - 1) 0)) [
  | inl b ↦
      let home = (unit_at w.cfg id).start_region in
      let (v, ev, (hv, moved)) =
        Gives-elim (HasMoved id (revived w id u) home) (place_unit w id (revived w id u) home) (
          place_unit-IsWellFormed w id (revived w id u) home (h.named id u e) (h.placed id u e)
            (h, Has_of_some _ e, h.starts id (Has_of_some _ e))) in
      rw (b, respawn_as) (rw ev hv)
  | inr b ↦ rw (b, respawn_as) (Stays-IsWellFormed w id u _ h e (refl, inl (refl, refl)))
]
respawn_as-IsWellFormed active id u w h e = h
respawn_as-IsWellFormed destroyed id u w h e = h

count_cooldown-IsWellFormed :
    (id : String) (w : World) → IsWellFormed w → IsWellFormed (count_cooldown id w)
unfolding count_cooldown
count_cooldown-IsWellFormed id w h = elim (Option-cases (w.units id)) [
  | inl n ↦ rw (n, count_cooldown) h
  | inr (u, e) ↦ elim (Bool-cases (ltb 0 u.cooldown)) [
    | inl b ↦
        rw (e, b, count_cooldown)
          (Stays-IsWellFormed w id u (record u { cooldown = u.cooldown - 1 }) h e
            (refl, inl (refl, refl)))
    | inr b ↦ rw (e, b, count_cooldown) h
  ]
]

pub count_unit-Total : (id : String) → Total IsWellFormed (count_unit id)
unfolding count_unit
count_unit-Total id = record {
  at = λ w h. elim (Option-cases (w.units id)) [
    | inl n ↦ rw (n, count_unit) h
    | inr (u, e) ↦
        let (v, ev, hv) =
          Gives-elim IsWellFormed (count_respawn id u w)
            (unfold count_respawn in respawn_as-IsWellFormed u.status id u w h e) in
        rw (e, count_unit) (rw (ev, count_unit) (count_cooldown-IsWellFormed id v hv))
  ];
}

detect_each-IsWellFormed :
    (ids : List String) (amp : ℕ) (rb : String) (w : World)
    → IsWellFormed w
    → IsWellFormed (detect_each ids amp rb w).0
unfolding detect_each
detect_each-IsWellFormed [] amp rb w h = h
detect_each-IsWellFormed (id ∷ ids) amp rb w h = elim (Option-cases (w.units id)) [
  | inl n ↦ rw (n, detect_each) (detect_each-IsWellFormed ids amp rb w h)
  | inr (u, e) ↦ elim (Bool-cases (finds w amp rb id u)) [
    | inl b ↦ rw (e, b, detect_each) (detect_each-IsWellFormed ids amp rb (expose w rb) h)
    | inr b ↦ rw (e, b, detect_each) (detect_each-IsWellFormed ids amp rb w h)
  ]
]

run_detection-IsWellFormed :
    (eye_ids ids : List String) (w : World)
    → IsWellFormed w
    → IsWellFormed (run_detection eye_ids ids w).0
unfolding run_detection
run_detection-IsWellFormed eye_ids ids w h =
    elim (Bool-cases (leb w.turn w.cfg.hidden_until_turn)) [
      | inl b ↦ rw (b, run_detection) h
      | inr b ↦ elim (Bool-cases (w.ring.true_region == "")) [
        | inl c ↦ rw (b, c, run_detection) h
        | inr c ↦
            rw (b, c, run_detection)
              (detect_each-IsWellFormed ids (if eye_active eye_ids w then 1 else 0)
                w.ring.true_region w h)
      ]
    ]

pub detect-Total : (eye_ids ids : List String) → Total IsWellFormed (detect eye_ids ids)
unfolding detect
detect-Total eye_ids ids = record { at = λ w h. run_detection-IsWellFormed eye_ids ids w h }

pub evaluate_win-Total :
    (shadow_ids nazgul_ids : List String) (orders : List Order)
    → Total IsWellFormed (evaluate_win shadow_ids nazgul_ids orders)
unfolding evaluate_win finish_game
evaluate_win-Total shadow_ids nazgul_ids orders = record {
  at = λ w h.
      elim (Bool-cases (
        w.ring.true_region == w.mount_doom_id
        && (any_destroy orders && not (shadow_present shadow_ids w w.mount_doom_id)))) [
          | inl a ↦ rw (a, evaluate_win) h
          | inr a ↦
              elim (Bool-cases (nazgul_present nazgul_ids w w.ring.true_region && w.ring.exposed)) [
                | inl b ↦ rw (a, b, evaluate_win) h
                | inr b ↦ elim (Bool-cases (leb w.cfg.max_turns w.turn)) [
                  | inl c ↦ rw (a, b, c, evaluate_win) h
                  | inr c ↦ rw (a, b, c, evaluate_win) h
                ]
              ]
        ];
}

pub close_turn-Total : Total IsWellFormed close_turn
unfolding close_turn
close_turn-Total = record { at = λ w h. h }
