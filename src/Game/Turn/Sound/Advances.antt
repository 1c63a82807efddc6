-- ===== src/Game/Turn/Sound/Advances.antt =====
-- Step 7 of the turn (option-b/internal/game/turn.go) in a well-formed world.
use lotr_kafka_strategy_game.Prelude.{
  String, inl, inr, Bool-cases, Option-cases, not, List, ◌&&◌, ◌||◌, contains, leb, ltb, get_elem?,
}
use lotr_kafka_strategy_game.Prelude.Steps.Rules.{Gives-elim, Total}
use lotr_kafka_strategy_game.Config.{path_at}
use lotr_kafka_strategy_game.Game.State.{PathState, is_active, is_blocked, is_ring, nonempty}
use lotr_kafka_strategy_game.Game.Units.{advance_unit, other_end}
use lotr_kafka_strategy_game.Game.Units.Placing.{advance_unit-IsWellFormed}
use lotr_kafka_strategy_game.Game.WellFormed.{IsWellFormed}
use lotr_kafka_strategy_game.Game.Turn.Moves.{advance_one, cross_ring, advance_ring}

pub advance_one-Total :
    (compromised : List String) (id : String) → Total IsWellFormed (advance_one compromised id)
unfolding advance_one
advance_one-Total compromised id = record {
  at = λ w h. elim (Option-cases (w.units id)) [
    | inl n ↦ rw (n, advance_one) h
    | inr (u, e) ↦
        elim (Bool-cases (
          is_ring w id
          || (contains compromised id || (not (is_active u.status) || not (nonempty u.route))))) [
            | inl b ↦ rw (e, b, advance_one) h
            | inr b ↦
                let (r, q, hr) =
                  Gives-elim (λ r. IsWellFormed r.1) (advance_unit w id)
                    (advance_unit-IsWellFormed w id h) in
                rw (e, b, advance_one) (rw (q, advance_one) hr)
          ]
  ];
}

cross_ring-Total : (pid : String) (ps : PathState) → Total IsWellFormed (cross_ring pid ps)
unfolding cross_ring
cross_ring-Total pid ps = record {
  at = λ w h. elim (Option-cases (other_end (path_at w.cfg pid) w.ring.true_region)) [
    | inl n ↦ rw (n, cross_ring) h
    | inr (to, e) ↦
        elim (Bool-cases (leb 1 ps.surveillance_level && ltb w.cfg.hidden_until_turn w.turn)) [
          | inl b ↦ rw (e, cross_ring) (rw b h)
          | inr b ↦ rw (e, cross_ring) (rw b h)
        ]
  ];
}

pub advance_ring-Total : Total IsWellFormed advance_ring
unfolding advance_ring
advance_ring-Total = record {
  at = λ w h. elim (Option-cases (get_elem? w.ring.route w.ring.route_idx)) [
    | inl n ↦ rw (n, advance_ring) h
    | inr (pid, e) ↦ elim (Option-cases (w.paths pid)) [
      | inl n ↦ rw (e, n, advance_ring) h
      | inr (ps, q) ↦ elim (Bool-cases (is_blocked ps.status)) [
        | inl b ↦ rw (e, q, b, advance_ring) h
        | inr b ↦ rw (e, q, b, advance_ring) ((cross_ring-Total pid ps).at w h)
      ]
    ]
  ];
}
