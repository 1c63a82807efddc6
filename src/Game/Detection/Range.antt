-- ===== src/Game/Detection/Range.antt =====
-- When a hunter has the ring bearer in its range (option-b/internal/game/detection.go).
use lotr_kafka_strategy_game.Prelude.{
  ℕ, String, ◌+◌, ◌<◌, ◌≤◌, ◌≡◌, ◌⊎◌, ◌↔◌, refl, arith, eq_iff, true, Bool-cases, Option-cases, inl,
  inr, some, List, [], ◌∷◌, if◌then◌else◌,
}
use lotr_kafka_strategy_game.Game.State.{
  Status, active, destroyed, respawning, UnitState, World, is_active,
}
use lotr_kafka_strategy_game.Config.{unit_at, region_at}
use lotr_kafka_strategy_game.Config.MapGraph.{Hops, hops, unreachable, out_of_fuel, hop_distance}
use lotr_kafka_strategy_game.Game.Detection.{is_mordor, is_eye, eye_active, within, finds}

-- The Eye of Sauron looks out: an active unit stands in the volcanic stronghold of the shadow whose
-- configuration is that of an indestructible Maia of the shadow.
abbrev pub IsEye : World → String → UnitState → Type 0
IsEye w id u =
    (u.status ≡ active)
    × ((unit_at w.cfg id).side ≡ "SHADOW")
    × ((unit_at w.cfg id).maia ≡ true)
    × ((unit_at w.cfg id).indestructible ≡ true)
    × ((region_at w.cfg u.region).special_role ≡ "SHADOW_STRONGHOLD")
    × ((region_at w.cfg u.region).terrain ≡ "VOLCANIC")

abbrev pub LooksOut : List String → World → Type 0
LooksOut [] w = ⊥
LooksOut (id ∷ ids) w = ((u : UnitState) × (w.units id ≡ some u) × IsEye w id u) ⊎ LooksOut ids w

-- The unit `u` is an active hunter, and the ring bearer is within its range, which the Eye extends
-- by one.
abbrev pub HasInRange : List String → World → String → UnitState → Type 0
HasInRange eye_ids w id u =
    let range = (unit_at w.cfg id).detection_range in
    (u.status ≡ active)
    × (0 < range)
    × (d : ℕ) × (hop_distance w.cfg.graph u.region w.ring.true_region ≡ hops d)
    × ((d ≤ range) ⊎ (LooksOut eye_ids w × (d ≤ range + 1)))

is_active_iff : (s : Status) → (is_active s ≡ true) ↔ (s ≡ active)
is_active_iff active = (λ e. refl, λ e. refl)
is_active_iff destroyed = (λ e. absurd (cc e), λ e. absurd (cc e))
is_active_iff respawning = (λ e. absurd (cc e), λ e. absurd (cc e))

is_eye_iff : (w : World) (id : String) (u : UnitState) → (is_eye w id u ≡ true) ↔ IsEye w id u
unfolding is_eye is_mordor
is_eye_iff w id u =
    let cfg = unit_at w.cfg id in
    let reg = region_at w.cfg u.region in
    ground (
      arith,
      is_active_iff u.status,
      eq_iff cfg.side "SHADOW",
      eq_iff reg.special_role "SHADOW_STRONGHOLD",
      eq_iff reg.terrain "VOLCANIC",
    )

eye_active_iff : (ids : List String) (w : World) → (eye_active ids w ≡ true) ↔ LooksOut ids w
unfolding eye_active
eye_active_iff [] w = ground arith
eye_active_iff (id ∷ ids) w = elim (Option-cases (w.units id)) [
  | inl n ↦ rw (n, eye_active) (ground (arith, eye_active_iff ids w))
  | inr (u, e) ↦ rw (e, eye_active) (ground (arith, is_eye_iff w id u, eye_active_iff ids w))
]

within_iff :
    (far : Hops) (range : ℕ) → (within far range ≡ true) ↔ ((d : ℕ) × (far ≡ hops d) × (d ≤ range))
unfolding within
within_iff (hops d) range = (
  λ h. (d, refl, ground (arith, h)),
  λ (k, e, le). let same : d ≡ k = cc e in ground (arith, same, le),
)
within_iff unreachable range = (λ h. absurd (cc h), λ h. absurd (cc h.1))
within_iff out_of_fuel range = (λ h. absurd (cc h), λ h. absurd (cc h.1))

pub finds_iff :
    (eye_ids : List String) (w : World) (id : String) (u : UnitState)
    → (finds w (if eye_active eye_ids w then 1 else 0) w.ring.true_region id u ≡ true)
      ↔ HasInRange eye_ids w id u
unfolding finds within
finds_iff eye_ids w id u =
    let range = (unit_at w.cfg id).detection_range in
    let far = hop_distance w.cfg.graph u.region w.ring.true_region in
    let looks = eye_active_iff eye_ids w in
    let on = is_active_iff u.status in
    elim (Bool-cases (eye_active eye_ids w)) [
      | inl t ↦
          rw (t, finds)
            (
              λ f.
                  let (d, e, le) = (within_iff far (range + 1)).0 (ground (arith, f)) in
                  (ground (arith, f, on), ground (arith, f), d, e, inr (looks.0 t, le)),
              λ (a, near, d, e, le).
                  let seen : within far (range + 1) ≡ true =
                    (within_iff far (range + 1)).1 (d, e, ground (arith, le)) in
                  ground (arith, on, a, near, seen),
            )
      | inr t ↦
          rw (t, finds)
            (
              λ f.
                  let (d, e, le) = (within_iff far (range + 0)).0 (ground (arith, f)) in
                  (ground (arith, f, on), ground (arith, f), d, e, inl (omega arith)),
              λ (a, near, d, e, le).
                  let seen : within far (range + 0) ≡ true =
                    (within_iff far (range + 0)).1 (d, e, ground (arith, le, t, looks)) in
                  ground (arith, on, a, near, seen),
            )
    ]
