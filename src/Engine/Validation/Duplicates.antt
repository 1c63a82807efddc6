-- ===== src/Engine/Validation/Duplicates.antt =====
-- The filter of duplicates in `runValidation` (option-b/internal/engine/publish.go).
use lotr_kafka_strategy_game.Prelude.{
  ◌⊎◌, ap, ◌∙◌, ℕ, String, ◌≡◌, refl, sym, subst, true, false, Option, some, List, [], ◌∷◌, ◌++◌,
  Option-cases, inl, inr, arith, contains, Dict, All, map,
}
use mathlib.Core.Logic.{⊎_elim}
use mathlib.Core.List.{append_assoc}
use lotr_kafka_strategy_game.Config.{Config}
use lotr_kafka_strategy_game.Game.Order.{Order, OrderType, other}
use lotr_kafka_strategy_game.Game.Validate.Rules.{validate_iff}
use lotr_kafka_strategy_game.Game.Validate.{ValidationState, validate, lookups}
use lotr_kafka_strategy_game.Engine.Messages.{Message, order_validated}
use lotr_kafka_strategy_game.Engine.Publish.{Json, publish, publish_validated, publish_dlq}
use lotr_kafka_strategy_game.Engine.Validation.{
  Sent, publishes, Worker, Reading, for_turn, is_turn, judge, validate_order, validate_record,
  run_validation, control_of, first_worker, starts, advances,
}

-- The units of the orders published as validated.
abbrev validated_unit : Message → List String
validated_unit (order_validated m) = m.unit_id ∷ []
validated_unit _ = []

abbrev sent_unit : Sent → List String
sent_unit (publishes p) = validated_unit p.value
sent_unit _ = []

abbrev pub validated_units : List Sent → List String
validated_units [] = []
validated_units (s ∷ ss) = sent_unit s ++ validated_units ss

-- No text stands twice in the list, nor in `seen`.
abbrev IsNew : List String → List String → Type 0
IsNew seen [] = Unit
IsNew seen (x ∷ xs) = (contains seen x ≡ false) × IsNew (x ∷ seen) xs

abbrev pub IsDistinct : List String → Type 0
IsDistinct xs = IsNew [] xs

-- The reading's state, if there is one, is of this turn.
abbrev pub IsDuring : ℕ → Reading → Type 0
IsDuring turn r = (st : ValidationState) → r.val_state ≡ some st → st.turn ≡ turn

-- What a worker has seen, in the turn `turn`.
abbrev seen_in : ℕ → Worker → List String
seen_in turn k = (for_turn turn k).seen

-- A step notes no unit, or one that was not noted yet; it validates no other.
abbrev Notes : List String → List String → List String → Type 0
Notes before after units =
    (units ≡ []) × (after ≡ before)
    ⊎ ((u : String) × (contains before u ≡ false)
        × (after ≡ u ∷ before)
        × ((units ≡ []) ⊎ (units ≡ u ∷ [])))

publish-units :
    (ids : Dict ℕ) (topic schema key : String) (m : Message)
    → (validated_units (map publishes (publish ids topic schema key m)) ≡ [])
      ⊎ (validated_units (map publishes (publish ids topic schema key m)) ≡ validated_unit m ++ [])
unfolding publish
publish-units ids topic schema key m = elim (Option-cases (ids schema)) [
  | inl n ↦ inl (rw (n, publish) refl)
  | inr (id, e) ↦ inr (rw (e, publish) refl)
]

control-unit : (t : OrderType) (s : Sent) → control_of t ≡ some s → sent_unit s ++ [] ≡ []
unfolding control_of
control-unit t starts h = refl
control-unit t advances h = refl
control-unit (other x) (publishes p) h = absurd (ground arith)
control-unit _ (publishes p) h = absurd (cc h)

for_turn-settled : (turn : ℕ) (k : Worker) → is_turn (for_turn turn k).cur_turn turn ≡ true
unfolding for_turn
for_turn-settled turn k = ground arith

settled-seen : (turn : ℕ) (k : Worker) → is_turn k.cur_turn turn ≡ true → k.seen ≡ seen_in turn k
unfolding for_turn
settled-seen turn k h = ground arith

module _ (cfg : Config) (json : Json) (ids : Dict ℕ) where
  judge-Notes :
      (now : ℕ) (st : ValidationState) (o : Order) (raw : List ℕ) (k : Worker)
      → ((judge cfg json ids now st o raw k).0.cur_turn ≡ k.cur_turn)
        × Notes k.seen
            (judge cfg json ids now st o raw k).0.seen
            (validated_units (map publishes (judge cfg json ids now st o raw k).1))
  unfolding judge publish_validated publish_dlq
  judge-Notes now st o raw k =
      elim (Option-cases (validate o (record st { seen_units = k.seen }) (lookups cfg))) [
        | inl n ↦
            let new = ((validate_iff o (record st { seen_units = k.seen }) (lookups cfg)).0 n).1 in
            rw (n, judge) (refl, inr (o.unit_id, new, refl, publish-units ids _ _ _ _))
        | inr (code, e) ↦
            rw (e, judge) (refl, inl (⊎_elim (λ h. h) (λ h. h) (publish-units ids _ _ _ _), refl))
      ]

  keep-Notes : (turn : ℕ) (k : Worker) → Notes (seen_in turn k) (seen_in turn k) []
  keep-Notes turn k = inl (refl, refl)

  judged-Notes :
      (now : ℕ) (st : ValidationState) (o : Order) (raw : List ℕ) (k : Worker)
      → Notes
          (seen_in st.turn k)
          (seen_in st.turn (judge cfg json ids now st o raw (for_turn st.turn k)).0)
          (validated_units (map publishes (judge cfg json ids now st o raw (for_turn st.turn k)).1))
  unfolding for_turn
  judged-Notes now st o raw k =
      let (same, notes) = judge-Notes now st o raw (for_turn st.turn k) in
      subst
        (λ xs. Notes (seen_in st.turn k) xs (
          validated_units (map publishes (judge cfg json ids now st o raw (for_turn st.turn k)).1)))
        (settled-seen st.turn _
          (subst (λ c. is_turn c st.turn ≡ true) (sym same) (for_turn-settled st.turn k)))
        notes

  validate_order-Notes :
      (now turn : ℕ) (st : Option ValidationState) (o : Order) (raw : List ℕ) (k : Worker)
      → ((st' : ValidationState) → st ≡ some st' → st'.turn ≡ turn)
      → Notes
          (seen_in turn k)
          (seen_in turn (validate_order cfg json ids now st o raw k).0)
          (validated_units (validate_order cfg json ids now st o raw k).1)
  unfolding validate_order control_of
  validate_order-Notes now turn st o raw k same = elim (Option-cases (control_of o.order_type)) [
    | inr (s, e) ↦ rw (e, validate_order) (inl (control-unit o.order_type s e, refl))
    | inl n ↦ elim (Option-cases st) [
      | inl m ↦ rw (n, validate_order) (rw m (keep-Notes turn k))
      | inr (st', e) ↦
          rw (n, validate_order)
            (rw e (
              subst
                (λ t.
                  Notes (seen_in t k)
                    (seen_in t (judge cfg json ids now st' o raw (for_turn st'.turn k)).0)
                    (validated_units
                      (map publishes (judge cfg json ids now st' o raw (for_turn st'.turn k)).1)))
                (same st' e) (judged-Notes now st' o raw k)))
    ]
  ]

  validate_record-Notes :
      (turn : ℕ) (r : Reading) (k : Worker)
      → IsDuring turn r
      → Notes
          (seen_in turn k)
          (seen_in turn (validate_record cfg json ids r.now r.val_state r.message k).0)
          (validated_units (validate_record cfg json ids r.now r.val_state r.message k).1)
  unfolding validate_record
  validate_record-Notes turn r k during = elim (Option-cases r.message) [
    | inl n ↦ rw (n, validate_record) (keep-Notes turn k)
    | inr (m, e) ↦ elim (Option-cases (json.unmarshal_order m.payload)) [
      | inl n ↦ rw (e, validate_record) (rw n (keep-Notes turn k))
      | inr (o, d) ↦
          rw (e, validate_record)
            (rw d (validate_order-Notes r.now turn r.val_state o m.payload k during))
    ]
  ]

IsNew-weaken :
    (a b xs : List String)
    → ((y : String) → contains a y ≡ false → contains b y ≡ false)
    → IsNew a xs
    → IsNew b xs
IsNew-weaken a b [] h n = tt
IsNew-weaken a b (x ∷ xs) h (n, rest) =
    (h x n, IsNew-weaken (x ∷ a) (x ∷ b) xs (λ y m. ground (arith, h y)) rest)

validated_units-append :
    (xs ys : List Sent) → validated_units (xs ++ ys) ≡ validated_units xs ++ validated_units ys
validated_units-append [] ys = refl
validated_units-append (starts ∷ xs) ys = validated_units-append xs ys
validated_units-append (advances ∷ xs) ys = validated_units-append xs ys
validated_units-append (publishes p ∷ xs) ys =
    ap (λ zs. validated_unit p.value ++ zs) (validated_units-append xs ys)
    ∙ sym (append_assoc (validated_unit p.value) (validated_units xs) (validated_units ys))

-- The units that a step validates are new, and so are those that come later.
Notes-IsNew :
    (before after units rest : List String)
    → Notes before after units
    → IsNew after rest
    → IsNew before (units ++ rest)
Notes-IsNew before after units rest n h = elim n [
  | inl (none_sent, same) ↦ rw none_sent (subst (λ s. IsNew s rest) same h)
  | inr (u, fresh, grown, sent) ↦
      let later : IsNew (u ∷ before) rest = subst (λ s. IsNew s rest) grown h in
      elim sent [
        | inl e ↦ rw e (IsNew-weaken (u ∷ before) before rest (λ y m. ground arith) later)
        | inr e ↦ rw e (fresh, later)
      ]
]

module _ (cfg : Config) (json : Json) (ids : Dict ℕ) where
  run_validation-IsNew :
      (turn : ℕ) (rs : List Reading) (k : Worker)
      → All (IsDuring turn) rs
      → IsNew (seen_in turn k) (validated_units (run_validation cfg json ids rs k).1)
  unfolding run_validation
  run_validation-IsNew turn [] k h = tt
  run_validation-IsNew turn (r ∷ rs) k (during, h) =
      let step = validate_record cfg json ids r.now r.val_state r.message k in
      let more = run_validation cfg json ids rs step.0 in
      subst (IsNew (seen_in turn k)) (sym (validated_units-append step.1 more.1)) (
        Notes-IsNew (seen_in turn k) (seen_in turn step.0) (validated_units step.1) _
          (validate_record-Notes cfg json ids turn r k during)
          (run_validation-IsNew turn rs step.0 h))

  -- While the state that orders are validated against stays of one turn, whatever records arrive, no
  -- unit has two orders that are published as validated.
  pub run_validation-IsDistinct :
      (turn : ℕ) (rs : List Reading)
      → All (IsDuring turn) rs
      → IsDistinct (validated_units (run_validation cfg json ids rs first_worker).1)
  unfolding for_turn
  run_validation-IsDistinct turn rs h = run_validation-IsNew turn rs first_worker h
