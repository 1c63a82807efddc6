-- ===== src/Lib.antt =====
-- The rules engine of the strategy game (option-b/internal): a Go service that turns the orders of a
-- light and a dark player into turns of a hidden-movement board game.
--
-- Parts, and the files that model them:
--   Config, Config/Load, Config/MapGraph: option-b/internal/config/config.go and graph.go. `load` is
--     `Load` after the two files are decoded; `hop_distance` is `HopDistance` (its fuel, two more than
--     there are keys, is the number of rounds that can each mark a new key, and two).
--   Game/State, Game/Order: option-b/internal/game/state.go and order.go, the world and its events.
--   Game/PathMachine: path.go. Game/Units: unit.go. Game/Combat: combat.go.
--   Game/Validate: validate.go, over a snapshot. Game/Detection: detection.go.
--   Game/Turn: turn.go. Its steps are functions from a world to a world and the events they report
--     (Prelude/Steps); Turn/Blocks has steps 2 and 3, Turn/Moves 4 to 7, Turn/Battle 8, Turn/Close 9 to
--     13, and Turn/Process puts them together as `ProcessTurn`.
--   Router: option-b/internal/router/router.go.
--   Engine, for option-b/internal/engine: Messages (messages.go) has the records that Kafka carries and
--     the topics, Publish (publish.go) what is handed to the producer, Validation (publish.go) the two
--     consumers of orders, Loop, Risk and Submit (engine.go) the leader's state and its loop, the risk
--     of a route and how an order enters Kafka, Leader (leader.go) the election, Recover (recover.go)
--     the record for a failover, Loop/Failover the way through one. Hub (hub.go) has the streams of the
--     browsers, Hub/Cache the cache, Hub/Views the answers, Hub/Messages the consumers and the loop,
--     Hub/Agreement what the cache shows of a leader's world.
--   Kafka, for option-b/internal/kafka: Serde (serde.go) the wire format, Registry (registry.go) the
--     schemas loaded at the start, Producer (client.go) the two calls that write.
--   Api: option-b/internal/api/server.go, what the handlers compute.
--   Analysis: option-b/internal/analysis/pipeline.go and the route costs of intercept.go;
--     Analysis/Intercept its interception plan.
--   Game/Turn/Invariant: what a whole turn keeps, from what its smallest steps keep; Secrecy, Keys and
--     Surveillance use it.
--   Config/MapGraph/Shortest: `HopDistance` against the walks of the graph, its fuel in Rounds.
--   Prelude: shared names, maps, lists and steps. The Tests modules hold concrete runs.
--
-- How the code is read. A map is the function of its look-ups (`Dict`), a pointer into the world is an
-- entry of its map, and dereferencing a nil pointer is `none`. Go ranges over a map in any order: a loop
-- over a map goes over a list of keys, which the `Schedule` of a turn gives, and a theorem holds for
-- every such list. Integers are naturals: no field of the shipped files is negative, and where a
-- subtraction could pass below 0 the model says why the code reads the two results alike. Strings that
-- stand for a constant are constructors.
--
-- How the parts interact. A player's order is a publication of `submit_raw`; `validate_record` reads it
-- against the view of the world that the leader keeps, and publishes it again; `read_validated` brings it
-- to `handle_validated`, which buffers it until `advance_turn` runs `process_turn` on the buffer. The
-- events go through `publish_events` to their topics, which `consume` turns into messages of the hub's
-- loop. A loop over a channel is a list of messages, in whatever order they arrive. The JSON of orders and
-- records, the Avro library, the registry's answers and the Kafka client are parameters.
--
-- Not modelled: reading files, writing and reading JSON, polling and the construction of Kafka clients,
-- HTTP requests and answers, the dropping of payloads by full channels, the arithmetic of float64 (a
-- parameter of the interception plan), `CostDistance` (on a heap of the standard library: the plan takes
-- any function in its place), the commands and the browser's files: input and output, or calls of
-- libraries.
pub mod Prelude
pub mod Config
pub mod Game
pub mod Router
pub mod Engine
pub mod Analysis
pub mod Kafka
pub mod Api
