-- ===== src/Api/Tests.antt =====
-- Concrete runs of option-b/internal/api/server.go.
use lotr_kafka_strategy_game.Prelude.{◌≡◌, refl, true, false, none, some, [], ◌∷◌, empty, All, ltb}
use lotr_kafka_strategy_game.Game.Validate.{ValidationState, unit_view}
use lotr_kafka_strategy_game.Game.State.{active}
use lotr_kafka_strategy_game.Game.Samples.{config, start}
use lotr_kafka_strategy_game.Engine.Messages.{ApiState, moved_ring}
use lotr_kafka_strategy_game.Engine.Hub.{Hub, HubEvent}
use lotr_kafka_strategy_game.Engine.Hub.Cache.{apply_event_to_cache}
use lotr_kafka_strategy_game.Engine.Hub.Views.{Analyst}
use lotr_kafka_strategy_game.Game.Order.{aud_light}
use lotr_kafka_strategy_game.Api.{
  refused, game_state, orders_available, analysis_routes, analysis_intercept, available_orders,
  unit_region,
}
use lotr_kafka_strategy_game.Api.Offers.{IsIndexed, IsOffer, available_orders-IsOffer}
use lotr_kafka_strategy_game.Api.Blind.{dark-blind}

abbrev state : ApiState
state = record {
  turn = 1;
  ring_bearer_region = "";
  units = record { unit_id = "witch-king"; region = "bree"; strength = 5; status = active } ∷ [];
  regions = [];
  paths = [];
  winner = "";
  game_over = false;
  started = true;
}

abbrev seen : ValidationState
seen = record {
  turn = 1;
  units =
      λ id. some (record { side = "SHADOW"; region = "bree"; status = some active; cooldown = 0 });
  paths = empty;
  regions = empty;
  seen_units = [];
}

config-IsIndexed : IsIndexed config config.paths
config-IsIndexed = (refl, (refl, tt))

here : (unit_view seen "witch-king").region ≡ unit_region state config "witch-king"
unfolding unit_region
here = refl

available_orders-IsOffer_example :
    All (IsOffer config seen "witch-king") (available_orders state config "witch-king" "dark")
available_orders-IsOffer_example =
    available_orders-IsOffer config seen "witch-king" state "dark" config-IsIndexed here

abbrev hub : Hub
hub = record {
  cfg = config;
  light = [];
  dark = [];
  closed = [];
  cache = start;
  last_recover = none;
  started = true;
  game_over = false;
  winner = "";
  light_ring_region = "shire";
  last_detected_region = "";
  canonical = λ name. none;
}

abbrev analyst : Analyst
analyst = record {
  ids = "witch-king" ∷ [];
  names = [];
  floats = record { zero = 0; minus_one = 0; one_minus_ratio = λ a b. 1; exceeds = λ a b. ltb b a };
  cost_distance = λ g a b. some 1;
}

abbrev move : HubEvent
move = record {
  audience = aud_light;
  topic = "game.ring.position";
  content = moved_ring (record { true_region = "bree"; turn = 2; timestamp = 9 });
}

dark-blind_example :
    let heard = apply_event_to_cache move hub in
    (game_state "dark" heard ≡ game_state "dark" hub)
    × (orders_available "witch-king" "dark" heard ≡ orders_available "witch-king" "dark" hub)
    × (analysis_intercept "dark" analyst heard ≡ analysis_intercept "dark" analyst hub)
    × (analysis_routes "dark" analyst heard ≡ some refused)
dark-blind_example = dark-blind "dark" "witch-king" analyst move hub refl refl
