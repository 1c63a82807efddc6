-- ===== src/Engine/Validation.antt =====
-- The consumers of option-b/internal/engine/publish.go: `runValidation` reads submitted orders and
-- publishes them as validated or to the dead-letter topic, `runValidatedConsumer` reads what was
-- validated. The loops are taken record by record; polling is left out.
pub mod Duplicates
use lotr_kafka_strategy_game.Prelude.{
  ℕ, String, Bool, true, false, Option, none, some, List, [], ◌∷◌, ◌++◌, ◌==◌, if◌then◌else◌, eqb,
  Dict, map,
}
use lotr_kafka_strategy_game.Config.{Config}
use lotr_kafka_strategy_game.Game.Order.{OrderType, other, Order}
use lotr_kafka_strategy_game.Game.Validate.{
  Rejection, wrong_turn, not_your_unit, invalid_path, path_blocked, unit_not_adjacent,
  invalid_target, on_cooldown, duplicate_order, ValidationState, lookups, validate,
}
use lotr_kafka_strategy_game.Engine.Messages.{OrderSubmittedMsg, OrderValidatedMsg}
use lotr_kafka_strategy_game.Engine.Publish.{Json, Publication, publish_validated, publish_dlq}

-- The texts of the error codes (game/validate.go).
unfoldable pub code_text : Rejection → String
code_text wrong_turn = "WRONG_TURN"
code_text not_your_unit = "NOT_YOUR_UNIT"
code_text invalid_path = "INVALID_PATH"
code_text path_blocked = "PATH_BLOCKED"
code_text unit_not_adjacent = "UNIT_NOT_ADJACENT"
code_text invalid_target = "INVALID_TARGET"
code_text on_cooldown = "ABILITY_ON_COOLDOWN"
code_text duplicate_order = "DUPLICATE_UNIT_ORDER"

abbrev pub ctrl_game_start : String
ctrl_game_start = "GAME_START"

abbrev pub ctrl_turn_advance : String
ctrl_turn_advance = "TURN_ADVANCE"

-- What one record makes the loop do: a send on `startCh` or on `advanceCh`, or a publication.
pub data Sent : Type 0 where
  starts advances : Sent
  publishes : Publication → Sent

-- The local variables of `runValidation`; `cur_turn` is `none` for -1.
pub record Worker : Type 0 where
  pub seen : List String
  pub cur_turn : Option ℕ

abbrev pub first_worker : Worker
first_worker = record { seen = []; cur_turn = none }

-- `TURN_ADVANCE` and `GAME_START` are texts that no other order type has.
unfoldable pub control_of : OrderType → Option Sent
control_of (other s) =
    if s == ctrl_game_start
    then some starts
    else if s == ctrl_turn_advance
    then some advances
    else none
control_of _ = none

abbrev pub is_turn : Option ℕ → ℕ → Bool
is_turn none turn = false
is_turn (some t) turn = eqb t turn

-- The set of the units seen is emptied when the turn has changed.
unfoldable pub for_turn : ℕ → Worker → Worker
for_turn turn k = if is_turn k.cur_turn turn then k else record { seen = []; cur_turn = some turn }

-- The part of the loop after the order is known to be no control action, with a game in progress.
unfoldable pub judge :
    Config
    → Json
    → Dict ℕ
    → ℕ
    → ValidationState
    → Order
    → List ℕ
    → Worker
    → Worker × List Publication
unfolding validate lookups publish_dlq publish_validated code_text
judge cfg json ids now st o raw k =
    elim (validate o (record st { seen_units = k.seen }) (lookups cfg)) [
      | some code ↦ (k, publish_dlq ids now (code_text code) raw)
      | none ↦ (record k { seen = o.unit_id ∷ k.seen }, publish_validated json ids now o none)
    ]

-- The body of the loop, for a record whose payload was read; `st` is what `valState` holds.
unfoldable pub validate_order :
    Config
    → Json
    → Dict ℕ
    → ℕ
    → Option ValidationState
    → Order
    → List ℕ
    → Worker
    → Worker × List Sent
unfolding control_of judge for_turn
validate_order cfg json ids now st o raw k = elim (control_of o.order_type) [
  | some s ↦ (k, s ∷ [])
  | none ↦ elim st [
    | none ↦ (k, [])
    | some st' ↦
        let (k', ps) = judge cfg json ids now st' o raw (for_turn st'.turn k) in
        (k', map publishes ps)
  ]
]

-- The whole body; `m` is `none` for a record that is not decoded.
unfoldable pub validate_record :
    Config
    → Json
    → Dict ℕ
    → ℕ
    → Option ValidationState
    → Option OrderSubmittedMsg
    → Worker
    → Worker × List Sent
unfolding validate_order
validate_record cfg json ids now st none k = (k, [])
validate_record cfg json ids now st (some m) k = elim (json.unmarshal_order m.payload) [
  | none ↦ (k, [])
  | some o ↦ validate_order cfg json ids now st o m.payload k
]

-- A record with the clock and the state that the loop reads with it.
pub record Reading : Type 0 where
  pub now : ℕ
  pub val_state : Option ValidationState
  pub message : Option OrderSubmittedMsg

unfoldable pub run_validation : Config → Json → Dict ℕ → List Reading → Worker → Worker × List Sent
unfolding validate_record
run_validation cfg json ids [] k = (k, [])
run_validation cfg json ids (r ∷ rs) k =
    let (k', sent) = validate_record cfg json ids r.now r.val_state r.message k in
    let (k'', more) = run_validation cfg json ids rs k' in (k'', sent ++ more)

-- What goes to the leader on `validatedCh`.
pub record ValidatedOrder : Type 0 where
  pub order : Order
  pub risk : Option ℕ

-- The body of the loop of `runValidatedConsumer`.
unfoldable pub read_validated : Json → Option OrderValidatedMsg → Option ValidatedOrder
read_validated json none = none
read_validated json (some m) = elim (json.unmarshal_order m.payload) [
  | none ↦ none
  | some o ↦ some (record { order = o; risk = m.route_risk_score })
]
