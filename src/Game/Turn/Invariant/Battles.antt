-- ===== src/Game/Turn/Invariant/Battles.antt =====
-- Step 8 of a turn (option-b/internal/game/turn.go) from its smallest steps.
use lotr_kafka_strategy_game.Prelude.{String, inl, inr, Option-cases, List-cases, List, ◌∷◌, select}
use lotr_kafka_strategy_game.Prelude.Steps.Rules.{Safe, Safe-done, Safe->>, Safe-if, Safe-each}
use lotr_kafka_strategy_game.Config.{region_at}
use lotr_kafka_strategy_game.Game.State.{World, RegionState}
use lotr_kafka_strategy_game.Game.Order.{Order, Event}
use lotr_kafka_strategy_game.Game.Combat.{Combatant, CombatResult, resolve_combat}
use lotr_kafka_strategy_game.Game.Turn.Battle.{
  damage_defender, capture, repel, attack_group, gather_attackers, gather_defenders, attacker_side,
  defends, settle, announce, fight, battle,
}
use lotr_kafka_strategy_game.Game.Turn.Invariant.{IsKept}

module _ {P : World → Type 0} {Q : Event → Type 0} (leaf : IsKept P Q) where
  settle-Safe :
      (region side : String) (group : List Order) (ids : List String) (res : CombatResult)
      → Safe P Q (settle region side group ids res)
  unfolding settle
  settle-Safe region side group ids res =
      Safe-if res.attacker_won _ _
        (Safe->> _ (capture region side)
          (Safe-each (damage_defender region res.damage) ids (leaf.damages region res.damage))
          (leaf.captures region side))
        (Safe-each repel group leaf.repels)

  fight-Safe :
      (region : String) (group : List Order) (attackers : List Combatant) (reg : RegionState)
      → Safe P Q (fight region group attackers reg)
  unfolding fight
  fight-Safe region group attackers reg = record {
    at = λ w r e h.
        let side = attacker_side w region group "" in
        let ids = select (defends w side) reg.units in
        elim (Option-cases (gather_defenders w ids)) [
          | inl n ↦ absurd (cc (rw (n, fight) at e))
          | inr (defenders, q) ↦
              let res =
                resolve_combat attackers defenders (region_at w.cfg region).terrain reg.fortified in
              (Safe->> (announce region res) (settle region side group ids res)
                  (leaf.announces region res) (settle-Safe region side group ids res)).at
                w r (rw (q, fight) at e) h
        ];
  }

  pub battle-Safe : (orders : List Order) (region : String) → Safe P Q (battle orders region)
  unfolding battle
  battle-Safe orders region = record {
    at = λ w r e h. elim (Option-cases (w.regions region)) [
      | inl n ↦ (Safe-done {P = P} {Q = Q}).at w r (rw (n, battle) at e) h
      | inr (reg, q) ↦ elim (List-cases (gather_attackers w region (attack_group region orders))) [
        | inl n ↦ (Safe-done {P = P} {Q = Q}).at w r (rw (q, n, battle) at e) h
        | inr (c, cs, p) ↦
            (fight-Safe region (attack_group region orders) (c ∷ cs) reg).at w r
              (rw (q, p, battle) at e) h
      ]
    ];
  }
