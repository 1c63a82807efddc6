-- ===== src/Game/Turn/Invariant/Reports.antt =====
-- The steps of a turn (option-b/internal/game/turn.go) that report the events of a loop.
use lotr_kafka_strategy_game.Prelude.{
  ℕ, String, subst, inl, inr, Bool-cases, List, [], ◌∷◌, arith, All, All-append, map, if◌then◌else◌,
}
use lotr_kafka_strategy_game.Prelude.Steps.Rules.{Safe, some_eq}
use lotr_kafka_strategy_game.Game.State.{World}
use lotr_kafka_strategy_game.Game.Order.{Event}
use lotr_kafka_strategy_game.Game.Detection.{
  Detection, eye_active, expose, detect_each, run_detection,
}
use lotr_kafka_strategy_game.Game.Turn.Blocks.{
  Compromised, compromises, next_is, flag_units, flag_ring, flag_paths,
}
use lotr_kafka_strategy_game.Game.Turn.Close.{detection_event, detect}
use lotr_kafka_strategy_game.Game.Turn.Process.{emit}
use lotr_kafka_strategy_game.Game.Turn.Invariant.{IsKept}

module _ {P : World → Type 0} {Q : Event → Type 0} (leaf : IsKept P Q) where
  detect_each-kept :
      (ids : List String) (amp : ℕ) (rb : String) (w : World) → P w → P (detect_each ids amp rb w).0
  unfolding detect_each
  detect_each-kept [] amp rb w h = h
  detect_each-kept (id ∷ ids) amp rb w h = ground (
    arith,
    detect_each-kept ids amp rb w h,
    detect_each-kept ids amp rb (expose w rb) (leaf.exposes rb w h),
  )

  detections-reported :
      (turn : ℕ) (found : List Detection) → All Q (map (detection_event turn) found)
  detections-reported turn [] = tt
  detections-reported turn (d ∷ ds) = (leaf.detections turn d, detections-reported turn ds)

  run_detection-kept :
      (eye_ids ids : List String) (w : World) → P w → P (run_detection eye_ids ids w).0
  unfolding run_detection
  run_detection-kept eye_ids ids w h =
      let amp : ℕ = if eye_active eye_ids w then 1 else 0 in
      ground (arith, detect_each-kept ids amp w.ring.true_region w h)

  pub detect-Safe : (eye_ids ids : List String) → Safe P Q (detect eye_ids ids)
  unfolding detect
  detect-Safe eye_ids ids = record {
    at = λ w r e h.
        subst (λ t. P t.0 × All Q t.1) (some_eq e)
          (
            run_detection-kept eye_ids ids w h,
            detections-reported w.turn (run_detection eye_ids ids w).1,
          );
  }

  module _ (w : World) where
    flag_units-reported :
        (pid : String) (ids : List String) (c : Compromised)
        → All Q c.events
        → All Q (flag_units w pid ids c).events
    unfolding flag_units
    flag_units-reported pid [] c h = h
    flag_units-reported pid (id ∷ ids) c h = elim (Bool-cases (compromises w pid id)) [
      | inl b ↦
          rw (b, flag_units)
            (flag_units-reported pid ids _
              (All-append Q c.events _ h (leaf.unit_flags w.turn pid id, tt)))
      | inr b ↦ rw (b, flag_units) (flag_units-reported pid ids c h)
    ]

    flag_ring-reported :
        (pid : String) (c : Compromised) → All Q c.events → All Q (flag_ring w pid c).events
    unfolding flag_ring
    flag_ring-reported pid c h = elim (Bool-cases (next_is pid w.ring.route w.ring.route_idx)) [
      | inl b ↦
          rw (b, flag_ring) (All-append Q c.events _ h (leaf.ring_flags w.turn pid w.ring_id, tt))
      | inr b ↦ rw (b, flag_ring) h
    ]

    pub flag_paths-reported :
        (ids : String → List String) (pids : List String) (c : Compromised)
        → All Q c.events
        → All Q (flag_paths w ids pids c).events
    unfolding flag_paths
    flag_paths-reported ids [] c h = h
    flag_paths-reported ids (pid ∷ pids) c h =
        flag_paths-reported ids pids (flag_ring w pid (flag_units w pid (ids pid) c)) (
          flag_ring-reported pid (flag_units w pid (ids pid) c)
            (flag_units-reported pid (ids pid) c h))

  pub emit-Safe : (ev : List Event) → All Q ev → Safe P Q (emit ev)
  unfolding emit
  emit-Safe ev a = record { at = λ w r e h. subst (λ t. P t.0 × All Q t.1) (some_eq e) (h, a) }
