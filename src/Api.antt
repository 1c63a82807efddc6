-- ===== src/Api.antt =====
-- option-b/internal/api/server.go: what the HTTP handlers compute. Reading requests and writing answers
-- are left out: a handler takes the query's texts and gives what it writes.
pub mod Offers
pub mod Blind
mod Tests
use lotr_kafka_strategy_game.Prelude.{
  ℕ, String, Bool, true, false, not, Option, none, some, List, [], ◌∷◌, ◌++◌, ◌&&◌, ◌||◌, ◌==◌,
  if◌then◌else◌,
}
use lotr_kafka_strategy_game.Config.{UnitConfig, Region, MapPath, Config, unit_at}
use lotr_kafka_strategy_game.Game.State.{side_shadow, side_neutral, is_ring_bearer}
use lotr_kafka_strategy_game.Game.Order.{
  OrderType, assign_route, redirect_unit, destroy_ring, maia_ability, block_path, search_path,
  attack_region, reinforce_region, fortify_region, deploy_nazgul, Order,
}
use lotr_kafka_strategy_game.Game.Validate.{player_side}
use lotr_kafka_strategy_game.Analysis.{RankedRoutes}
use lotr_kafka_strategy_game.Engine.Messages.{RegionSnap, UnitSnap, ApiState}
use lotr_kafka_strategy_game.Engine.Hub.{Hub, player_dark}
use lotr_kafka_strategy_game.Engine.Hub.Views.{build_state_view, Analyst, Analysis, analyze}
use lotr_kafka_strategy_game.Game.State.{World}

-- `playerID`, from the value of `playerId`.
unfoldable pub player_id : String → String
player_id query = if query == player_dark then player_dark else "light"

-- `gameState`; `none` is a panic.
unfoldable pub game_state : String → Hub → Option ApiState
unfolding player_id build_state_view
game_state query h = build_state_view (player_id query) h

-- What a handler answers; `refused` is the answer 403.
pub data Answer {ℓ} (A : Type ℓ) : Type ℓ where
  answers : A → Answer A
  refused : Answer A

-- `analysisRoutes`; `none` is a panic.
unfoldable pub analysis_routes : String → Analyst → Hub → Option (Answer Analysis)
unfolding analyze
analysis_routes query a h =
    if query == player_dark
    then some refused
    else elim (analyze "routes" a h) [ none ↦ none | some x ↦ some (answers x) ]

-- `analysisIntercept`
unfoldable pub analysis_intercept : String → Analyst → Hub → Option (Answer Analysis)
unfolding analyze
analysis_intercept query a h =
    if not (query == player_dark)
    then some refused
    else elim (analyze "intercept" a h) [ none ↦ none | some x ↦ some (answers x) ]

pub record OrderOption : Type 0 where
  pub order_type : OrderType
  pub targets : List String

abbrev pub option_for : OrderType → List String → OrderOption
option_for t targets = record { order_type = t; targets = targets }

unfoldable pub region_in : List UnitSnap → String → String
region_in [] id = ""
region_in (u ∷ us) id = if u.unit_id == id then u.region else region_in us id

-- `unitRegion`
unfoldable pub unit_region : ApiState → Config → String → String
unfolding region_in is_ring_bearer
unit_region st cfg id =
    if is_ring_bearer (unit_at cfg id) then st.ring_bearer_region else region_in st.units id

unfoldable pub controller_in : List RegionSnap → String → String
controller_in [] id = side_neutral
controller_in (r ∷ rs) id = if r.region_id == id then r.controlled_by else controller_in rs id

-- `controllerOf`
unfoldable pub controller_of : ApiState → String → String
unfolding controller_in
controller_of st id = controller_in st.regions id

-- `mountDoomID`
unfoldable pub mount_doom : List Region → String
mount_doom [] = ""
mount_doom (r ∷ rs) = if r.special_role == "RING_DESTRUCTION_SITE" then r.id else mount_doom rs

-- The lists that the loop over the paths fills.
pub record Around : Type 0 where
  pub paths : List String
  pub regions : List String
  pub enemies : List String

abbrev pub touches : String → MapPath → Bool
touches region p = p.from == region || p.to == region

abbrev pub across : String → MapPath → String
across region p = if p.to == region then p.from else p.to

unfoldable pub is_hostile : ApiState → String → String → Bool
unfolding controller_of
is_hostile st side region =
    not (controller_of st region == side) && not (controller_of st region == side_neutral)

-- The rest of the loop, in the order of the paths.
unfoldable pub around : ApiState → String → String → List MapPath → Around
unfolding is_hostile
around st side region [] = record { paths = []; regions = []; enemies = [] }
around st side region (p ∷ ps) =
    let rest = around st side region ps in
    if touches region p
    then record {
      paths = p.id ∷ rest.paths;
      regions = across region p ∷ rest.regions;
      enemies =
          if is_hostile st side (across region p)
          then across region p ∷ rest.enemies
          else rest.enemies;
    }
    else rest

-- The options of a unit that is neither the ring bearer nor a maia.
unfoldable pub common_options : UnitConfig → Around → List OrderOption
common_options u a =
    option_for block_path a.paths
      ∷ option_for attack_region a.enemies
      ∷ option_for reinforce_region a.regions
      ∷ (if u.side == side_shadow
          then option_for search_path a.paths ∷ option_for deploy_nazgul a.regions ∷ []
          else [])
    ++ (if u.can_fortify then option_for fortify_region [] ∷ [] else [])

-- The `switch`.
unfoldable pub class_options : Config → UnitConfig → String → Around → List OrderOption
unfolding mount_doom common_options is_ring_bearer
class_options cfg u region a =
    if is_ring_bearer u
    then (if region == mount_doom cfg.regions then option_for destroy_ring [] ∷ [] else [])
    else if u.maia
    then option_for maia_ability a.paths ∷ []
    else common_options u a

-- The options of a unit in a region.
unfoldable pub options_in : ApiState → Config → UnitConfig → String → List OrderOption
unfolding around class_options
options_in st cfg u region =
    let a = around st u.side region cfg.paths in
    option_for assign_route a.paths
    ∷ option_for redirect_unit a.paths
    ∷ class_options cfg u region a

unfoldable pub available_orders : ApiState → Config → String → String → List OrderOption
unfolding unit_region options_in player_side
available_orders st cfg unit player = elim (cfg.unit_by_id unit) [
  | none ↦ []
  | some u ↦
      if not (u.side == player_side player) || unit_region st cfg unit == ""
      then []
      else options_in st cfg u (unit_region st cfg unit)
]

-- `ordersAvailable`; `none` is a panic.
unfoldable pub orders_available : String → String → Hub → Option (List OrderOption)
unfolding player_id build_state_view available_orders
orders_available unit query h = elim (build_state_view (player_id query) h) [
  | none ↦ none
  | some st ↦ some (available_orders st h.cfg unit (player_id query))
]
