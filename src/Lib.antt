-- ===== src/Lib.antt =====
-- Critical Path: a board of tasks with dependencies, served by api/ and drawn by web/.
--
-- Dependencies (api/src/services/dependencies.ts) is the search for the loop that a new
-- dependency would close, and Dependencies/Client the copy of it that web/src/lib/graph.ts keeps.
-- The queue of the code is a list of what is still to be expanded, and the walk back over
-- `predecessors` and the two loops run on fuel: one unit for each entry of the map of targets,
-- and two more, which is enough since each round takes one task from the queue and a task is
-- queued once.
-- Graph (web/src/lib/graph.ts) is the order of the drawn graph, which also finds its cycles; its
-- loop takes one unit of fuel for each node and one for the last test.
-- RateLimit (api/src/services/rateLimit.ts) is the limiter of attempts, with the limits that
-- routes enforce (RateLimit/Enforce). Time is an argument. Redis is not modelled: the reply to a
-- script is an argument, and the theorems are about the process on its own.
-- Authorization (api/src/services/authorization.ts) is who may see and change a project. A query
-- is a lookup or a filter of tables that are an argument.
-- Realtime (api/src/services/realtime/state.ts) is the registry of sockets and rooms, a socket
-- being a number. Realtime/Transport is what transport.ts does to it at a handshake, a revocation
-- and the ceiling on a user's sockets, and Realtime/Deliver (delivery.ts) the sockets that an
-- event is sent to, which uses Authorization's tables and the registry. Frames, timers and the
-- bus between replicas are input and output and not modelled.
-- SortKey (api/src/services/sortKey.ts) is how a row gets its place among its neighbours. The
-- fractional-indexing package is a parameter with laws, which SortKey/TreeKeys satisfies; a scope
-- is the list of its rows' keys. The law that there is room above every key is an assumption on
-- the package; a comment in sortKey.ts says otherwise of the largest key.
-- Ranks (web/src/lib/ranks.ts) is the same places as the web client picks them, with Ranks/Drops
-- for drops that are named by the cards around them, and Ranks/Positions (cli/src/positions.ts)
-- as the command line does. They use SortKey's parameter; `localeCompare` is another, to which
-- different ids can be the same, and which Ranks/Collation satisfies by comparing codes.
-- Jobs (api/src/services/jobs/queue.ts) is the table of jobs with the statements on it, `now()`
-- and the locks of other statements being arguments; Jobs/Worker is the slots of worker.ts, whose
-- counter can be reset, and whose handlers can run on after their timeout without a slot.
-- Outbox (web/src/lib/outbox.svelte.ts, outbox-ops.ts) is the queue of changes that wait for the
-- server. Outbox/Queue is what happens to the queue, Outbox/Hydrate the read of the stored queue,
-- and Outbox/Replay the verdicts, the drain and the actions that can interleave at its waits. The
-- drain runs on fuel: three rounds for each op are enough, since an op that fails is sent at most
-- three times. The rekeying of moves, the timers and the writes of the durable copy are not
-- modelled: what is read back of it is an argument.
-- Sync (web/src/lib/sync-state.ts) is the state that the indicator of that queue shows.
-- Csv (api/src/services/export/csv.ts) is the text of an export; Csv/Reader is a reader of its
-- format.
--
-- Prelude holds the shared tests, lists, maps and sets. Ids are uuids or other texts that the
-- code only compares: numbers in Dependencies, Jobs and for the ops of Outbox, any type with an
-- equality test in Graph, texts elsewhere.
mod Prelude
pub mod Graph
pub mod Dependencies
pub mod RateLimit
pub mod Realtime
pub mod Authorization
pub mod SortKey
pub mod Ranks
pub mod Jobs
pub mod Outbox
pub mod Csv
pub mod Sync
