-- ===== src/Engine/Hub.antt =====
-- option-b/internal/engine/hub.go: the read side of every instance. One loop owns the state: the
-- streams of the browsers, the cache rebuilt from Kafka, and the answers to requests. A stream is told
-- apart by its address; a send to a full stream is dropped, so a delivery is what a stream is offered.
-- `none` is a panic: a nil dereference, a send on a closed channel, or a second close.
pub mod Cache
pub mod Views
pub mod Messages
pub mod Secrecy
pub mod Orderly
pub mod Delivered
pub mod Agreement
use lotr_kafka_strategy_game.Prelude.{
  ℕ, String, Bool, true, false, not, Option, none, some, List, [], ◌∷◌, ◌++◌, ◌&&◌, ◌==◌,
  if◌then◌else◌, eqb, contains, insert, get_or, select, Dict,
}
use lotr_kafka_strategy_game.Prelude.Steps.{Step, done, each, ◌>>◌}
use lotr_kafka_strategy_game.Config.{MapPath, Config, Edge, unit_at}
use lotr_kafka_strategy_game.Config.MapGraph.{edge_between}
use lotr_kafka_strategy_game.Game.State.{
  PathStatus, UnitState, RegionState, PathState, World, new_world, put_unit, put_region, put_path,
  nonempty,
}
use lotr_kafka_strategy_game.Game.Order.{Audience, aud_all, aud_light, aud_dark}
use lotr_kafka_strategy_game.Analysis.{RankedRoutes, rank_routes}
use lotr_kafka_strategy_game.Engine.Recover.{RecoverState, build_world_from_recover}
use lotr_kafka_strategy_game.Engine.Messages.{
  Message, changed_path, corrupted_path, changed_control, resolved_battle, moved_ring,
  detected_ring, spotted_ring, ended_game, world_snapshot, game_session, RegionSnap, UnitSnap,
  PathSnap, ApiState, WorldSnapshotMsg, topic_events_unit, topic_events_region, topic_events_path,
  topic_session, topic_broadcast, topic_ring_position, topic_ring_detection,
}
use lotr_kafka_strategy_game.Engine.Publish.{Json, snap_regions, snap_units}

abbrev pub player_dark : String
player_dark = "dark"

-- `SSEClient`, with the address of the object.
pub record SseClient : Type 0 where
  pub address : String
  pub side : String

-- The payload `{"topic": …, "data": …}` stands for its topic and the record that was read.
pub record HubEvent : Type 0 where
  pub audience : Audience
  pub topic : String
  pub content : Message

pub data Payload : Type 0 where
  event_payload : (topic : String) → Message → Payload
  snapshot_payload : WorldSnapshotMsg → Payload
  keepalive_payload : Payload

pub record Delivery : Type 0 where
  pub client : SseClient
  pub payload : Payload

-- The sets `light` and `dark` list their members. `closed` lists the addresses of the streams whose
-- channel is closed.
pub record Hub : Type 0 where
  pub cfg : Config
  pub light : List SseClient
  pub dark : List SseClient
  pub closed : List String
  pub cache : World
  pub last_recover : Option RecoverState
  pub started : Bool
  pub game_over : Bool
  pub winner : String
  pub light_ring_region : String
  pub last_detected_region : String
  pub canonical : Dict (List String)

abbrev pub has_client : List SseClient → SseClient → Bool
has_client [] c = false
has_client (x ∷ xs) c = if x.address == c.address then true else has_client xs c

abbrev pub add_client : List SseClient → SseClient → List SseClient
add_client xs c = if has_client xs c then xs else c ∷ xs

abbrev pub remove_client : List SseClient → SseClient → List SseClient
remove_client xs c = select (λ x. not (x.address == c.address)) xs

-- The case of `register`.
unfoldable pub enter : SseClient → Hub → Hub
enter c h =
    if c.side == player_dark
    then record h { dark = add_client h.dark c }
    else record h { light = add_client h.light c }

-- `close(c.Ch)`
unfoldable pub close_stream : SseClient → Hub → Option Hub
close_stream c h =
    if contains h.closed c.address then none else some (record h { closed = c.address ∷ h.closed })

unfoldable pub drop : SseClient → Hub → Option Hub
unfolding close_stream
drop c h =
    if has_client h.light c
    then close_stream c (record h { light = remove_client h.light c })
    else if has_client h.dark c
    then close_stream c (record h { dark = remove_client h.dark c })
    else some h

-- `c.Ch <- payload` under a `select` with a default.
unfoldable pub offer : Payload → SseClient → Step Hub Delivery
offer p c h =
    if contains h.closed c.address then none else some (h, record { client = c; payload = p } ∷ [])

unfoldable pub send_all : Payload → List SseClient → Step Hub Delivery
unfolding each offer
send_all p clients = each (offer p) clients

unfoldable pub fanout : Audience → Payload → Step Hub Delivery
unfolding send_all ◌>>◌
fanout aud_light p h = send_all p h.light h
fanout aud_dark p h = send_all p h.dark h
fanout aud_all p h = (send_all p h.light >> send_all p h.dark) h
