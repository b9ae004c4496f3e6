-- ===== src/Lib.antt =====
-- A model of goscheduler, a scheduler of callbacks that runs on a cluster: clients register apps
-- and schedules over HTTP, each app has partitions, a poller for each partition runs on the node
-- that a hash ring names, and the state is in Cassandra.
--
-- The parts, and the files that model them:
--
-- * Cron models cron/cron.go: the five field parsers, `Parse` and `Match`. Fields and Expression
--   hold the parsers in the order of the source, Steps the loops for steps and ranges. A Go `int`
--   is an integer that wraps at 64 bits (Shared/Int), a text is a list of character codes
--   (Shared/Text). A call returns, fails with a message, panics or runs on (Cron/Outcome). The one
--   loop without a bound, `steps`, has fuel: one round for each value below the range's end, which
--   a positive step cannot use up; a zero step does, and is then reported as running on. A negative
--   step has one round more than there are 64-bit integers, so that one that wraps around to a value
--   past the end still gives its list.
-- * Entity models cluster_entity/entity_info.go and the factory in poller/poller_factory.go: the
--   ids of entities and how they are taken apart. Polling has the minutes that poller/poller.go fetches
--   and those that `fetchAndRetrySchedule` of cluster/supervisor.go takes again; the ticker is a
--   parameter.
-- * Store/App models store/app.go and store/configuration.go.
-- * Dao models dao/cluster_dao_impl.go. Session has the state (`Dao`: the cache `AppMap` and the
--   tables `apps` and `entity`) and the sequencing of calls with errors; Apps, Configurations and
--   Entities have one function for each method. A list says how the next queries end: served,
--   failed, or written and yet reported as failed. A write makes the row if it is missing, as
--   Cassandra's does. JSON texts of configurations are kept as they decode. `mergo.Merge` is a
--   parameter of `update_configuration`.
-- * Supervisor models cluster/supervisor.go. Cluster has the state (for each address the map of
--   entities and the cache, one database, and the network as a list of what becomes of the next
--   requests) and calls that return, panic or end the process; `recover` keeps the state. Entities
--   has `StartEntity`, `StopEntity`, the registered handlers and forwarding, Apps has activation,
--   deactivation and the broadcast, Boot has booting, taking over and stopping a node. The ring is
--   ringpop's and a parameter (`Ring`): who owns an id and who is reachable, as a node sees it, and
--   if an error of a handler reaches the caller. A chain of forwards is bounded by a number; one
--   forward is enough where the nodes agree on the owners. Starting, Stopping and Broadcast follow
--   the rounds of the loops, for Activation, Deactivation and Shutdown.
-- * Store/Schedule, Callbacks, Validation and Partition model store/schedule.go and the `Validate` of
--   the callbacks. A UUID is its text; the checks of URLs are Go's, a parameter. Registry models
--   store/registry.go and the decoding of callbacks, Columns the columns of a row and how they are
--   read; JSON is a parameter, what decoding makes of a text, and so is the number of seconds that a
--   time of the driver has. A map of Go is a list in the order in which `range` meets its keys.
-- * Schedules models dao/schedule_dao_impl.go. Session has the tables of schedules, with the replies
--   of the next queries as in Dao. Rows creates and reads, Recurring deletes and changes recurring
--   schedules, Runs has the loop over the pages of runs, Enrich the statuses of many schedules. A
--   query with pages is a parameter: a function from a page state and a page size to a page. Its loop
--   has fuel, and the rank of a page state, which falls from page to page, says how much is enough.
--   Steps is the step relation of the tables of recurring schedules; Changes, Sync and Statuses follow
--   the operations through it. Windows has the walk over the hours of a range in
--   `getFilteredSchedules`, with times in seconds; its loop has fuel, and the ranks of the pages and the
--   number of windows say how much is enough (Hours, Listing); Resuming has the next call. Batching
--   and BulkActing have the dao's `BulkAction`. FutureRuns and Cleared follow the runs that a change
--   of a recurring schedule takes away. A row keeps a schedule with its callback and its times in
--   seconds; Columns has the columns that are written for it, in milliseconds, and Stored what is
--   created and read back. A schedule without a callback, for which the dao panics when it writes,
--   makes the handlers panic before, in the validation; the functions of the dao here take a schedule
--   as if it had one.
-- * Retrievers models retrievers/: the choice of a retriever, the loops over pages and the tasks of
--   recurring schedules (Fetching), and the action on a batch (Acting). A callback that is invoked,
--   and a batch that is acted on, are outputs of the model.
-- * Service models error/error.go, service/app_registration.go and the four handlers of
--   configurations in service/, behind the decoding of requests. Registration calls the dao and
--   then boots each entity through the supervisor; activation and deactivation write the status
--   and then call the supervisor, which tells all nodes to drop the app from their caches.
--   Lifecycle models post.go, get.go, delete.go, pause.go, resume.go and update_recurring_schedule.go
--   in service/, on both daos: a reply is a value or the code of an error, or the handler panics or
--   runs on. Histories puts requests in sequence; requests that overlap are not modelled. Queries
--   models the parsing of parameters in get_app_schedules.go and get_runs.go, Listings the handlers of
--   these files and of get_cron_schedules.go and get_apps.go, BulkActions bulk_action.go with the tasks
--   that it pushes as an output. Hexadecimal texts, dates and the number that `strconv.ParseInt` gives
--   besides an error are parameters.
-- * Connectors models connectors/: Http the attempts of a callback and what their answer leaves,
--   Headers the headers of its request, Aggregate the statuses that wait for a batch, with each
--   turn of a loop under the lock as one event, Cron the runs that are made of a recurring
--   schedule. The HTTP client, the calendar and the new UUIDs are parameters. A callback has three
--   attempts, which is the fuel of its loop.
--
-- Shared has what they have in common: tests, lists, 64-bit integers, texts with `split`, `Itoa`
-- and `Atoi`, and association lists for maps and tables (Dict). A module whose name ends in
-- Examples holds theorems of its part at concrete inputs.
--
-- Not modelled: JSON itself and the encoding of responses; the raw callback and the deprecated fields
-- that a schedule carries along; in dao/schedule_dao_impl.go the times to live of rows and the texts of
-- queries; in connectors/ the pools of workers; in cluster/supervisor.go the start of ringpop and the
-- signals; set-up (scheduler/, server/, conf/); metrics and logs; the driver and its wrapper
-- (cassandra/, db_wrapper/); dummies and mocks.
mod Shared
pub mod Cron
pub mod Entity
pub mod Store
pub mod Schedules
pub mod Dao
pub mod Supervisor
pub mod Retrievers
pub mod Service
pub mod Connectors
