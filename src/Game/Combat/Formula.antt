-- ===== src/Game/Combat/Formula.antt =====
-- The battle formula of option-b/internal/game/combat.go, whose loops give every combatant the
-- bonuses of the other leaders, in closed form.
use lotr_kafka_strategy_game.Prelude.{
  ℕ, zero, suc, ◌+◌, ◌*◌, ◌<◌, ◌-◌, String, ◌≡◌, ◌↔◌, ◌==◌, ap, subst, Bool, true, none, some, List,
  [], ◌∷◌, arith, if◌then◌else◌, length, get_elem?,
}
use lotr_kafka_strategy_game.Game.Combat.{
  Combatant, add_bonuses, strength_at, effective_strength, sum_powers, side_power,
  attack_ignores_fortress, resolve_combat,
}

abbrev pub bonus : Combatant → ℕ
bonus c = if c.cfg.leadership then c.cfg.leadership_bonus else 0

abbrev pub bonuses : List Combatant → ℕ
bonuses [] = 0
bonuses (c ∷ cs) = bonus c + bonuses cs

abbrev pub strengths : List Combatant → ℕ
strengths [] = 0
strengths (c ∷ cs) = c.strength + strengths cs

abbrev bonus_at : List Combatant → ℕ → ℕ
bonus_at side i = elim (get_elem? side i) [ none ↦ 0 | some c ↦ bonus c ]

-- Past its own index a combatant is given every bonus.
add_bonuses_after :
    (i j : ℕ) (cs : List Combatant) (s : ℕ) → i < j → add_bonuses i j cs s ≡ s + bonuses cs
unfolding add_bonuses
add_bonuses_after i j [] s h = omega arith
add_bonuses_after i j (c ∷ cs) s h = ground (
  arith,
  add_bonuses_after i (suc j) cs s,
  add_bonuses_after i (suc j) cs (s + c.cfg.leadership_bonus),
)

-- Up to its own index, every bonus but its own.
add_bonuses_before :
    (k i j : ℕ) (cs : List Combatant) (s : ℕ)
    → i ≡ j + k
    → add_bonuses i j cs s + bonus_at cs k ≡ s + bonuses cs
unfolding add_bonuses
add_bonuses_before k i j [] s e = omega arith
add_bonuses_before zero i j (c ∷ cs) s e = ground (arith, add_bonuses_after i (suc j) cs s)
add_bonuses_before (suc k) i j (c ∷ cs) s e = ground (
  arith,
  add_bonuses_before k i (suc j) cs s,
  add_bonuses_before k i (suc j) cs (s + c.cfg.leadership_bonus),
)

effective_strength_lem :
    (side : List Combatant) (i : ℕ)
    → effective_strength side i + bonus_at side i ≡ strength_at side i + bonuses side
unfolding effective_strength
effective_strength_lem side i = add_bonuses_before i i 0 side (strength_at side i) (omega arith)

-- The list `rest` stands in `side` from the index `i` on.
sum_powers_lem :
    (side : List Combatant) (i : ℕ) (rest : List Combatant) (total : ℕ)
    → ((k : ℕ) → get_elem? side (i + k) ≡ get_elem? rest k)
    → sum_powers side i rest total + bonuses rest
      ≡ total + strengths rest + length rest * bonuses side
unfolding sum_powers
sum_powers_lem side i [] total h = omega arith
sum_powers_lem side i (c ∷ rest) total h =
    let here : get_elem? side i ≡ some c =
      subst (λ k. get_elem? side k ≡ some c) (omega arith) (h 0) in
    let next =
      sum_powers_lem side (suc i) rest (total + effective_strength side i)
        (λ k. subst (λ n. get_elem? side n ≡ get_elem? rest k) (omega arith) (h (suc k))) in
    let own = effective_strength_lem side i in ground arith

-- The power of a side is the sum of its strengths, and each leader's bonus once for every other
-- combatant of the side: sidePower + (all bonuses) = (all strengths) + n * (all bonuses).
pub side_power_lem :
    (side : List Combatant)
    → side_power side + bonuses side ≡ strengths side + length side * bonuses side
unfolding side_power
side_power_lem side =
    omega (arith, sum_powers_lem side 0 side 0 (λ k. ap (get_elem? side) (omega arith)))

-- What the ground adds to the defence: nothing against an attacker that ignores fortresses,
-- otherwise 2 for a fortress and 1 for mountains; and 2 for a fortification in any case.
abbrev pub ground_bonus : Bool → String → Bool → ℕ
ground_bonus ignores terrain fortified =
    (if ignores
      then 0
      else if terrain == "FORTRESS"
      then 2
      else if terrain == "MOUNTAINS"
      then 1
      else 0)
    + (if fortified then 2 else 0)

-- The attackers win exactly if their power passes the defenders' power with terrain and
-- fortification; the damage is the difference if they win, and 0 otherwise.
pub resolve_combat_lem :
    (attackers defenders : List Combatant) (terrain : String) (fortified : Bool)
    → let r = resolve_combat attackers defenders terrain fortified in
      let defence =
        side_power defenders + ground_bonus (attack_ignores_fortress attackers) terrain fortified in
      ((r.attacker_won ≡ true) ↔ (defence < side_power attackers))
      × (r.damage ≡ side_power attackers - defence)
unfolding resolve_combat
resolve_combat_lem attackers defenders terrain fortified = ground arith
