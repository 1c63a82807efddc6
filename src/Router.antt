-- ===== src/Router.antt =====
-- option-b/internal/router/router.go: what each side's channel carries, and the views that the cache
-- holds. A channel is the sequence of the values sent on it; that a send waits while the buffer is
-- full, and the cache's lock, change no value.
pub mod Channels
pub mod Views
mod Tests
use lotr_kafka_strategy_game.Prelude.{ℕ, String, Option, none, some, List, [], ◌∷◌, ◌++◌, Dict}
use lotr_kafka_strategy_game.Game.State.{Status, RegionState, PathState}
use lotr_kafka_strategy_game.Game.Order.{Event, Audience, aud_all, aud_light, aud_dark}

pub record UnitView : Type 0 where
  pub id : String
  pub region : String
  pub strength : ℕ
  pub status : Status

pub record Snapshot : Type 0 where
  pub turn : ℕ
  pub ring_bearer_region : String
  pub units : Dict UnitView
  pub regions : Dict RegionState
  pub paths : Dict PathState

-- `none` is a nil pointer.
pub record Outbound : Type 0 where
  pub event : Option Event
  pub snapshot : Option Snapshot

pub record Router : Type 0 where
  pub light : List Outbound
  pub dark : List Outbound

-- `New`
abbrev pub new_router : Router
new_router = record { light = []; dark = [] }

abbrev pub event_out : Event → Outbound
event_out ev = record { event = some ev; snapshot = none }

abbrev pub snapshot_out : Snapshot → Outbound
snapshot_out s = record { event = none; snapshot = some s }

-- `r.Light <- out` and `r.Dark <- out`
abbrev pub send_light : Outbound → Router → Router
send_light out r = record r { light = r.light ++ out ∷ [] }

abbrev pub send_dark : Outbound → Router → Router
send_dark out r = record r { dark = r.dark ++ out ∷ [] }

-- The `switch` of `RouteEvent` on the audience.
unfoldable pub route_to : Audience → Outbound → Router → Router
route_to aud_light out r = send_light out r
route_to aud_dark out r = send_dark out r
route_to aud_all out r = send_dark out (send_light out r)

unfoldable pub route_event : Event → Router → Router
unfolding route_to
route_event ev r = route_to ev.audience (event_out ev) r

unfoldable pub strip_for_dark : Snapshot → Snapshot
strip_for_dark s = record s { ring_bearer_region = "" }

unfoldable pub broadcast : Snapshot → Router → Router
unfolding strip_for_dark
broadcast s r = send_dark (snapshot_out (strip_for_dark s)) (send_light (snapshot_out s) r)

pub record LightView : Type 0 where
  pub ring_bearer_region : String
  pub assigned_route : List String
  pub route_idx : ℕ

pub record DarkView : Type 0 where
  pub ring_bearer_region : String
  pub last_detected_region : String
  pub last_detected_turn : ℕ

pub record Cache : Type 0 where
  pub turn : ℕ
  pub light : LightView
  pub dark : DarkView

-- The zero value.
abbrev pub zero_cache : Cache
zero_cache = record {
  turn = 0;
  light = record { ring_bearer_region = ""; assigned_route = []; route_idx = 0 };
  dark = record { ring_bearer_region = ""; last_detected_region = ""; last_detected_turn = 0 };
}

unfoldable pub update : Cache → ℕ → String → List String → ℕ → Cache
update c turn ring_region route route_idx = record c {
  turn = turn;
  light = record {
    ring_bearer_region = ring_region;
    assigned_route = route;
    route_idx = route_idx;
  };
}

unfoldable pub record_detection : Cache → ℕ → String → Cache
record_detection c turn region = record c {
  dark = record c.dark { last_detected_region = region; last_detected_turn = turn };
}

unfoldable pub dark_ring_region : Cache → String
dark_ring_region c = c.dark.ring_bearer_region
