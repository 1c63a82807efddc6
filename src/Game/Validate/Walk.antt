-- ===== src/Game/Validate/Walk.antt =====
-- Rule 4 of option-b/internal/game/validate.go against connected walks on the map.
use lotr_kafka_strategy_game.Prelude.{
  String, ◌≡◌, refl, ◌⊎◌, inl, inr, ◌↔◌, Option-cases, some, List, [], ◌∷◌, arith, eq_iff, subst,
}
use lotr_kafka_strategy_game.Prelude.Steps.Rules.{some_eq}
use lotr_kafka_strategy_game.Game.Validate.{Lookups, walk_step, walk_end}

-- From one end of a path to the other.
abbrev pub Crosses : String → String → String → String → Type 0
Crosses a b cur next = (cur ≡ a) × (next ≡ b) ⊎ (cur ≡ b) × (next ≡ a)

-- The paths lead, one after the other, from the first region to the last.
pub data IsWalk (cfg : Lookups) : String → List String → String → Type 0 where
  stop : (r : String) → IsWalk cfg r [] r
  step :
      {cur next last pid : String} {pids : List String} (a b : String)
      → cfg.path_endpoints pid ≡ some (a, b)
      → Crosses a b cur next
      → IsWalk cfg next pids last
      → IsWalk cfg cur (pid ∷ pids) last

walk_step_iff : (cur a b next : String) → (walk_step cur a b ≡ some next) ↔ Crosses a b cur next
unfolding walk_step
walk_step_iff cur a b next = ground (arith, eq_iff cur a, eq_iff cur b)

walk_end-IsWalk :
    (cfg : Lookups) (cur : String) (pids : List String) (last : String)
    → walk_end cfg cur pids ≡ some last
    → IsWalk cfg cur pids last
unfolding walk_end
walk_end-IsWalk cfg cur [] last h = subst (IsWalk cfg cur []) (some_eq h) (stop cur)
walk_end-IsWalk cfg cur (pid ∷ pids) last h = elim (Option-cases (cfg.path_endpoints pid)) [
  | inl n ↦ absurd (cc (rw (n, walk_end) at h))
  | inr ((a, b), e) ↦ elim (Option-cases (walk_step cur a b)) [
    | inl n ↦ absurd (cc (rw (e, n, walk_end) at h))
    | inr (next, q) ↦
        step a b e ((walk_step_iff cur a b next).0 q)
          (walk_end-IsWalk cfg next pids last (rw (e, q, walk_end) at h))
  ]
]

IsWalk-walk_end :
    (cfg : Lookups) {cur last : String} {pids : List String}
    → IsWalk cfg cur pids last
    → walk_end cfg cur pids ≡ some last
unfolding walk_end
IsWalk-walk_end cfg (stop r) = refl
IsWalk-walk_end cfg (step {cur} {next} a b e c w) =
    rw (e, walk_end) (rw ((walk_step_iff cur a b next).1 c, walk_end) (IsWalk-walk_end cfg w))

-- The loop of rule 4 accepts a route exactly if it is a connected walk from the unit's region, and
-- the region that it computes is where the walk ends.
pub walk_end_iff :
    (cfg : Lookups) (cur last : String) (pids : List String)
    → (walk_end cfg cur pids ≡ some last) ↔ IsWalk cfg cur pids last
walk_end_iff cfg cur last pids = (walk_end-IsWalk cfg cur pids last, IsWalk-walk_end cfg)
