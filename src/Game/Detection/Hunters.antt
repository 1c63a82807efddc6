-- ===== src/Game/Detection/Hunters.antt =====
-- Who finds the ring bearer (`RunDetection` of option-b/internal/game/detection.go).
use lotr_kafka_strategy_game.Prelude.{
  ℕ, String, ◌<◌, ◌≡◌, ◌≢◌, ◌⊎◌, ◌↔◌, refl, sym, subst, ◌∙◌, ap, arith, eq_iff, Bool, true, false,
  Bool-cases, Option-cases, inl, inr, none, some, List, [], ◌∷◌, ◌==◌, map, select, leb,
  if◌then◌else◌,
}
use lotr_kafka_strategy_game.Prelude.Steps.Rules.{some_eq}
use lotr_kafka_strategy_game.Game.State.{UnitState, World}
use lotr_kafka_strategy_game.Game.Detection.{
  Detection, eye_active, finds, expose, detect_each, run_detection,
}
use lotr_kafka_strategy_game.Game.Detection.Range.{HasInRange, finds_iff}

-- The unit of that id finds the ring bearer at the end of the turn.
abbrev pub Spots : List String → World → String → Type 0
Spots eye_ids w id =
    (w.cfg.hidden_until_turn < w.turn)
    × (w.ring.true_region ≢ "")
    × (u : UnitState) × (w.units id ≡ some u)
    × HasInRange eye_ids w id u

-- One detection for each of the units that spots, in their order.
abbrev pub Reported : (String → Type 0) → World → List String → List Detection → Type 0
Reported P w [] ds = ds ≡ []
Reported P w (id ∷ ids) ds =
    (P id
      × ((rest : List Detection) × (ds
            ≡ record { unit_id = id; region = w.ring.true_region; turn = w.turn } ∷ rest)
          × Reported P w ids rest))
    ⊎ ((P id → ⊥) × Reported P w ids ds)

-- The world that the detections leave.
abbrev pub exposed_by : List Detection → World → World
exposed_by [] w = w
exposed_by (d ∷ ds) w = record w {
  ring = record w.ring {
    exposed = true;
    last_detected_turn = some w.turn;
    last_detected_region = w.ring.true_region;
  };
}

-- Whether the unit of that id is a hunter that has the ring bearer in range; `amp` is what the Eye
-- adds to every range.
abbrev hunts : World → ℕ → String → String → Bool
hunts w amp rb id = elim (w.units id) [ none ↦ false | some u ↦ finds w amp rb id u ]

abbrev written_by : List String → String → World → World
written_by [] rb w = w
written_by (id ∷ ids) rb w = expose w rb

abbrev report : String → ℕ → String → Detection
report rb turn id = record { unit_id = id; region = rb; turn = turn }

exposed_twice :
    (ids : List String) (rb : String) (w : World) → written_by ids rb (expose w rb) ≡ expose w rb
unfolding expose
exposed_twice [] rb w = refl
exposed_twice (id ∷ ids) rb w = refl

hunters_of_exposed :
    (ids : List String) (amp : ℕ) (rb : String) (w : World)
    → select (hunts (expose w rb) amp rb) ids ≡ select (hunts w amp rb) ids
unfolding expose finds
hunters_of_exposed ids amp rb w = refl

detect_each_lem :
    (ids : List String) (amp : ℕ) (rb : String) (w : World)
    → let found = select (hunts w amp rb) ids in
      detect_each ids amp rb w ≡ (written_by found rb w, map (report rb w.turn) found)
unfolding detect_each expose finds
detect_each_lem [] amp rb w = refl
detect_each_lem (id ∷ ids) amp rb w = elim (Option-cases (w.units id)) [
  | inl n ↦
      let idle : hunts w amp rb id ≡ false = rw (n, hunts) refl in
      rw (n, idle, detect_each) (detect_each_lem ids amp rb w)
  | inr (u, e) ↦ elim (Bool-cases (finds w amp rb id u)) [
    | inl t ↦
        let found : hunts w amp rb id ≡ true = rw (e, hunts) t in
        let more = select (hunts w amp rb) ids in
        let rest = detect_each_lem ids amp rb (expose w rb) in
        let all : detect_each ids amp rb (expose w rb)
            ≡ (expose w rb, map (report rb w.turn) more) =
          rest ∙ ap (λ v. (v, map (report rb w.turn) more)) (exposed_twice more rb w) in
        rw (e, t, found, detect_each) (ap (λ p. (p.0, report rb w.turn id ∷ p.1)) all)
    | inr f ↦
        let missed : hunts w amp rb id ≡ false = rw (e, hunts) f in
        rw (e, f, missed, detect_each) (detect_each_lem ids amp rb w)
  ]
]

Spots-open :
    (eye_ids : List String) (w : World) (id : String)
    → (w.cfg.hidden_until_turn < w.turn)
    → (w.ring.true_region ≢ "")
    → (hunts w (if eye_active eye_ids w then 1 else 0) w.ring.true_region id ≡ true)
      ↔ Spots eye_ids w id
Spots-open eye_ids w id late known = elim (Option-cases (w.units id)) [
  | inl n ↦ rw (n, hunts) (λ h. absurd (cc h), λ h. absurd (cc (n, h.3)))
  | inr (u, e) ↦
      rw (e, hunts)
        (
          λ h. (late, known, u, refl, (finds_iff eye_ids w id u).0 h),
          λ (l, k, v, q, h).
              (finds_iff eye_ids w id u).1 (subst (HasInRange eye_ids w id) (some_eq (sym q)) h),
        )
]

Reported-none :
    (P : String → Type 0) (w : World) (ids : List String)
    → ((id : String) → P id → ⊥)
    → Reported P w ids []
Reported-none P w [] h = refl
Reported-none P w (id ∷ ids) h = inr (h id, Reported-none P w ids h)

Reported-select :
    (P : String → Type 0) (test : String → Bool) (w : World) (ids : List String)
    → ((id : String) → (test id ≡ true) ↔ P id)
    → Reported P w ids (map (report w.ring.true_region w.turn) (select test ids))
Reported-select P test w [] h = refl
Reported-select P test w (id ∷ ids) h = elim (Bool-cases (test id)) [
  | inl t ↦ rw t (inl ((h id).0 t, (_, refl, Reported-select P test w ids h)))
  | inr f ↦ rw f (inr (λ p. absurd (cc (f, (h id).1 p)), Reported-select P test w ids h))
]

noted_by :
    (ids : List String) (w : World)
    → written_by ids w.ring.true_region w
      ≡ exposed_by (map (report w.ring.true_region w.turn) ids) w
unfolding expose
noted_by [] w = refl
noted_by (id ∷ ids) w = refl

-- RunDetection reports one detection, of the ring bearer's region in this turn, for each unit that
-- spots it, in the order of the range, and no other: an active hunter that has the ring bearer within
-- its range, or within one more while the Eye looks out, once the game no longer hides the ring bearer
-- and where its region is known. If one is reported, the ring bearer is exposed and the turn and the
-- region are noted; nothing else of the world changes.
pub run_detection_lem :
    (eye_ids ids : List String) (w : World)
    → let (w', found) = run_detection eye_ids ids w in
      Reported (Spots eye_ids w) w ids found × (w' ≡ exposed_by found w)
unfolding run_detection
run_detection_lem eye_ids ids w = elim (Bool-cases (leb w.turn w.cfg.hidden_until_turn)) [
  | inl t ↦
      rw (t, run_detection)
        (Reported-none (Spots eye_ids w) w ids (λ id h. absurd (ground (arith, t, h.0))), refl)
  | inr f ↦ elim (Bool-cases (w.ring.true_region == "")) [
    | inl t ↦
        rw (f, t, run_detection)
          (
            Reported-none (Spots eye_ids w) w ids
                (λ id h. absurd (h.1 ((eq_iff w.ring.true_region "").0 t))),
            refl,
          )
    | inr g ↦
        let amp : ℕ = if eye_active eye_ids w then 1 else 0 in
        let rb = w.ring.true_region in
        let late : w.cfg.hidden_until_turn < w.turn = ground (arith, f) in
        let known : rb ≢ "" = λ e. absurd (cc (g, (eq_iff rb "").1 e)) in
        rw (f, g, run_detection)
          (rw (detect_each_lem ids amp rb w) (
            Reported-select (Spots eye_ids w) (hunts w amp rb) w ids
                (λ id. Spots-open eye_ids w id late known),
            noted_by (select (hunts w amp rb) ids) w,
          ))
  ]
]
