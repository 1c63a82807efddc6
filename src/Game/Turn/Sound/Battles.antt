-- ===== src/Game/Turn/Sound/Battles.antt =====
-- Step 8 of the turn (option-b/internal/game/turn.go) in a well-formed world.
use lotr_kafka_strategy_game.Prelude.{
  ℕ, String, ◌≡◌, inl, inr, Bool, Bool-cases, Option-cases, some, List, [], ◌∷◌, ◌&&◌, ◌==◌, arith,
  All, List-cases, Has, Has-insert, Has_of_some, select,
}
use lotr_kafka_strategy_game.Prelude.Steps.{each, ◌>>◌}
use lotr_kafka_strategy_game.Prelude.Steps.Rules.{Gives, Gives-elim, Total, Total-each}
use lotr_kafka_strategy_game.Config.{UnitConfig, unit_at, region_at}
use lotr_kafka_strategy_game.Game.State.{
  UnitState, RegionState, World, is_active, side_free, put_unit,
}
use lotr_kafka_strategy_game.Game.Order.{Order}
use lotr_kafka_strategy_game.Game.Units.{remove_str}
use lotr_kafka_strategy_game.Game.Units.Placing.{All-remove_str}
use lotr_kafka_strategy_game.Game.Combat.{Combatant, CombatResult, resolve_combat, apply_damage}
use lotr_kafka_strategy_game.Game.WellFormed.{
  IsWellFormed, Stays, All-Has-insert, insert_region-IsSound, Stays-IsWellFormed,
}
use lotr_kafka_strategy_game.Game.Turn.Battle.{
  attack_group, gather_attackers, attacker_side, defends, gather_defenders, damage_defender,
  capture, repel, settle, announce, fight, battle,
}

-- Damage leaves a unit where it is, or takes it off the map and makes it inactive.
apply_damage-Stays :
    (u : UnitState) (cfg : UnitConfig) (damage : ℕ) → Stays u (apply_damage u cfg damage)
unfolding apply_damage
apply_damage-Stays u cfg damage = ground arith

-- The world in which the battle for `region` goes on, and the defenders still to be damaged.
abbrev AtWar : String → List String → World → Type 0
AtWar region ids w = IsWellFormed w × Has w.regions region × All (Has w.units) ids

damage_defender-AtWar :
    (region : String) (damage : ℕ) (id : String) (ids : List String) (w : World)
    → AtWar region (id ∷ ids) w
    → Gives (λ r. AtWar region ids r.0) (damage_defender region damage id w)
unfolding damage_defender
damage_defender-AtWar region damage id ids w (h, at_region, (here, rest)) =
    elim (Option-cases (w.units id)) [
      | inl n ↦ absurd (here n)
      | inr (u, e) ↦
          let u' = apply_damage u (unit_at w.cfg id) damage in
          let hv =
            Stays-IsWellFormed w id u u' h e (apply_damage-Stays u (unit_at w.cfg id) damage) in
          let rest' = All-Has-insert w.units id u' ids rest in
          elim (Bool-cases (is_active u'.status)) [
            | inl b ↦ rw (e, damage_defender) (rw b (hv, at_region, rest'))
            | inr b ↦ elim (Option-cases (w.regions region)) [
              | inl n ↦ absurd (at_region n)
              | inr (reg, q) ↦
                  let reg' : RegionState = record reg { units = remove_str reg.units id } in
                  rw (e, damage_defender)
                    (rw b (
                      rw q (
                        insert_region-IsSound hv region reg' (
                            All-remove_str (Has (put_unit w id u').units) reg.units id
                              (hv.residents region reg q)),
                        Has-insert w.regions region region reg' at_region,
                        rest',
                      )))
            ]
          ]
    ]

damage_all-AtWar :
    (region : String) (damage : ℕ) (ids : List String) (w : World)
    → AtWar region ids w
    → Gives (λ r. AtWar region [] r.0) (each (damage_defender region damage) ids w)
unfolding each ◌>>◌
damage_all-AtWar region damage [] w h = h
damage_all-AtWar region damage (id ∷ ids) w h =
    let (r, e, hr) =
      Gives-elim (λ r. AtWar region ids r.0) (damage_defender region damage id w)
        (damage_defender-AtWar region damage id ids w h) in
    let (q, e', hq) =
      Gives-elim (λ r. AtWar region [] r.0) (each (damage_defender region damage) ids r.0)
        (damage_all-AtWar region damage ids r.0 hr) in
    rw (e, each, ◌>>◌) (rw (e', ◌>>◌) hq)

capture-IsWellFormed :
    (region side : String) (w : World)
    → AtWar region [] w
    → Gives (λ r. IsWellFormed r.0) (capture region side w)
unfolding capture
capture-IsWellFormed region side w (h, at_region, _) = elim (Option-cases (w.regions region)) [
  | inl n ↦ absurd (at_region n)
  | inr (reg, e) ↦
      let hv =
        insert_region-IsSound h region (record reg { controlled_by = side })
          (h.residents region reg e) in
      elim (Bool-cases (region == w.saruman_home_id && side == side_free)) [
        | inl b ↦ rw (e, capture) (rw b hv)
        | inr b ↦ rw (e, capture) (rw b hv)
      ]
]

repel-Total : (o : Order) → Total IsWellFormed (repel o)
unfolding repel
repel-Total o = record {
  at = λ w h. elim (Option-cases (w.units o.unit_id)) [
    | inl n ↦ rw (n, repel) h
    | inr (u, e) ↦ elim (Bool-cases (is_active u.status)) [
      | inr b ↦ rw (e, b, repel) h
      | inl b ↦
          rw (e, b, repel)
            (Stays-IsWellFormed w o.unit_id u _ h e
              (apply_damage-Stays u (unit_at w.cfg o.unit_id) 1))
    ]
  ];
}

settle-IsWellFormed :
    (region side : String) (group : List Order) (ids : List String) (res : CombatResult) (w : World)
    → AtWar region ids w
    → Gives (λ r. IsWellFormed r.0) (settle region side group ids res w)
unfolding settle ◌>>◌
settle-IsWellFormed region side group ids res w war = elim (Bool-cases res.attacker_won) [
  | inl b ↦
      let (r, e, hr) =
        Gives-elim (λ r. AtWar region [] r.0) (each (damage_defender region res.damage) ids w)
          (damage_all-AtWar region res.damage ids w war) in
      let (q, e', hq) =
        Gives-elim (λ r. IsWellFormed r.0) (capture region side r.0)
          (capture-IsWellFormed region side r.0 hr) in
      rw (b, settle) (rw (e, ◌>>◌) (rw (e', ◌>>◌) hq))
  | inr b ↦ rw (b, settle) ((Total-each repel group repel-Total).at w war.0)
]

All-select {ℓ} :
    (P : String → Type ℓ) (p : String → Bool) (xs : List String) → All P xs → All P (select p xs)
All-select P p [] h = tt
All-select P p (x ∷ xs) h = elim (Bool-cases (p x)) [
  | inl e ↦ rw e (h.0, All-select P p xs h.1)
  | inr e ↦ rw e (All-select P p xs h.1)
]

gather_defenders-Gives :
    (w : World) (ids : List String)
    → All (Has w.units) ids
    → Gives (λ _. Unit {0}) (gather_defenders w ids)
unfolding gather_defenders
gather_defenders-Gives w [] h = tt
gather_defenders-Gives w (id ∷ ids) (here, rest) = elim (Option-cases (w.units id)) [
  | inl n ↦ absurd (here n)
  | inr (u, e) ↦
      let (cs, q, _) =
        Gives-elim (λ _. Unit {0}) (gather_defenders w ids) (gather_defenders-Gives w ids rest) in
      rw (e, gather_defenders) (rw (q, gather_defenders) tt)
]

fight-IsWellFormed :
    (region : String) (group : List Order) (attackers : List Combatant) (reg : RegionState)
    (w : World)
    → IsWellFormed w
    → w.regions region ≡ some reg
    → Gives (λ r. IsWellFormed r.0) (fight region group attackers reg w)
unfolding fight announce ◌>>◌
fight-IsWellFormed region group attackers reg w h e =
    let side = attacker_side w region group "" in
    let ids = select (defends w side) reg.units in
    let known = All-select (Has w.units) (defends w side) reg.units (h.residents region reg e) in
    let (defenders, q, _) =
      Gives-elim (λ _. Unit {0}) (gather_defenders w ids) (gather_defenders-Gives w ids known) in
    let res = resolve_combat attackers defenders (region_at w.cfg region).terrain reg.fortified in
    let (r, er, hr) =
      Gives-elim (λ r. IsWellFormed r.0) (settle region side group ids res w)
        (settle-IsWellFormed region side group ids res w (h, Has_of_some _ e, known)) in
    rw (q, fight) (rw (er, ◌>>◌) hr)

pub battle-Total :
    (orders : List Order) (region : String) → Total IsWellFormed (battle orders region)
unfolding battle
battle-Total orders region = record {
  at = λ w h. elim (Option-cases (w.regions region)) [
    | inl n ↦ rw (n, battle) h
    | inr (reg, e) ↦ elim (List-cases (gather_attackers w region (attack_group region orders))) [
      | inl n ↦ rw (e, n, battle) h
      | inr (c, cs, q) ↦
          rw (e, q, battle)
            (fight-IsWellFormed region (attack_group region orders) (c ∷ cs) reg w h e)
    ]
  ];
}
