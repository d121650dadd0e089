-- ===== src/Lib.antt =====
-- Verification of pub-crawler, a crawler of the ActivityPub network.
--
-- The crawler keeps its jobs in Redis. A dispatcher (pub_crawler/dispatcher.py) puts jobs into a
-- queue, hands them to workers, and knows which are in flight, which failed and which were seen.
-- Workers send requests by way of rate limiters (pub_crawler/fixed_window_counter.py).
--
-- Modules:
-- - Base: names that the others share, tests into Bool, lists, integers, and texts (split, formats).
-- - Exec: coroutines that change a state and may raise. What was done before an exception stays done.
-- - Json: the values of job dictionaries and documents.
-- - Redis: the server, a parameter: its commands with what Redis documents of them. Redis.Memory is a
--   store in memory that meets these laws.
-- - Platform: the libraries' functions, a parameter, with what is used of them: orjson (a dumped value
--   is read back with its keys sorted), crc32, blake2b, isoformat (its text has no bar). Platform.Plain
--   meets these laws.
-- - Job: pub_crawler/job_id.py. Job.Identity says what an identity determines.
-- - Throttle: pub_crawler/throttle.py.
-- - Dispatcher: pub_crawler/dispatcher.py. `get`, `done` and so on are the methods of that name; a
--   method's first argument is what the clock reads in it. Dispatcher.Member has _job_to_member,
--   _member_to_job and _job_to_hash. `join_round` is one round of the loop of `join`. BZPOPMIN blocks on
--   an empty queue, and so `get` may wait; `pop` is where a call that waited goes on.
--   Dispatcher.View sees the store as four maps, Dispatcher.Methods has each method as a change of
--   these maps, Dispatcher.Codec the queue's members, Dispatcher.Invariant and Dispatcher.Runs what
--   holds in runs of calls, Dispatcher.Priority the order of jobs, Dispatcher.Lifecycle and
--   Dispatcher.Expiry what becomes of a job, Dispatcher.Draining of the whole queue.
--   Dispatcher.Offered is about a single `enqueue_if_unseen`.
-- - FixedWindowCounter: pub_crawler/fixed_window_counter.py, the class FixedWindowCounter. Times are
--   whole milliseconds. `acquire_round` is the body of the loop of `acquire`, between two points where
--   another task may run. `acquire` is the loop on fuel; two rounds suffice where the sleep lasts
--   till the window's end, unless other tasks take all the tokens in it; what they do in a sleep is an
--   argument. Log, Ensure and Rate follow an origin's requests through any sequence of rounds, Sleeping
--   and Waiting the counter through a sleep.
-- - Graph: pub_crawler/database_graph.py, the class DatabaseGraph. Graph.Schema has the tables of
--   pub_crawler/database.py as lists of rows, Graph.Statements the statements on several rows,
--   Graph.Properties and Graph.Queries the methods on properties and on the whole graph. The caches of
--   cachetools and PostgreSQL's types VARCHAR and JSONB are parameters (Graph.Libraries), which
--   Graph.Plain meets. A statement that raises changes nothing; the identities that it drew are not
--   counted. The rows of a query stand in the order of the table. Graph.Lookup, Graph.RoundTrip,
--   Graph.Nodes and Graph.Edges say what the methods do.
-- - Json.Python: what Python's operators do with values of any type (truth, `in`, `+ 1`, `<`, `for`).
-- - World: the dispatcher and the graph in one state, and the setting they run in.
-- - Handlers: pub_crawler/handle_items.py and what the handlers share. Handlers.Actor,
--   Handlers.Collection, Handlers.Page and Handlers.Webfinger are the method `handle` of the class in
--   the file of that name (pub_crawler/actor_handler.py and so on); pub_crawler/handler.py is beside
--   the last. Handlers.Failures follows the requests that fail,
--   Handlers.Items, Handlers.Kept and Handlers.Handling the items of a collection.
-- - Crawler: pub_crawler/crawler.py. `work` is a round of the loop in `worker`, `reap_round` one of
--   `reap_worker`. A round may wait in `get`; `resume` is the rest of it. Crawler.Work follows a job through a round.
-- - Nodeinfo: pub_crawler/nodeinfo_client.py. Nodeinfo has the bounds and coercions of values,
--   Nodeinfo.Client the class NodeinfoClient, Nodeinfo.Bounds what holds of what it takes from a server.
-- - ActivityPub: pub_crawler/activity_pub_client.py and pub_crawler/signature.py. `get_from` is
--   _get_with_headers, by recursion on the redirects left. ActivityPub.Redirects counts the requests.
-- - HostSurvey: pub_crawler/database_host_survey.py, the class DatabaseHostSurvey, in the manner of
--   Graph: HostSurvey.Schema has the tables and the statements. HostSurvey.Sound, HostSurvey.Statements
--   and HostSurvey.Invariant follow the tables' keys and the cache through the calls,
--   HostSurvey.Deletion, HostSurvey.Hosts and HostSurvey.Values say what the methods do.
-- - SurveyHosts: bin/survey_hosts.py without `main`. `survey_round` is a round of `survey_worker`,
--   `gather` the loop that chooses the hosts; the rounds follow one another.
-- - Batches: the loop that gathers items in batches, which the next two share. Batches.Joined says that
--   the size of a batch makes no difference, Batches.Kept what the batches are.
-- - Fixups: fixup/fixup_zero_score.py, fixup/fixup_seen_hash.py and fixup/fixup_crc_tiebreak.py.
--   What SCAN yields is an argument, and so is the size of a batch. Fixups.Member has the members in
--   the old and the new format.
-- - Snapshot: bin/snapshot.py and bin/host_snapshot.py without `main`. A Parquet file is the list of
--   the batches that are written to it; `datetime.fromisoformat` and `int` of a text are arguments.
-- - Migrations: database_setup of pub_crawler/database.py and what it calls. Migrations.Ddl has the
--   statements; what running one makes of the database is an argument. Migrations.Order and
--   Migrations.Again follow a run and the one after it.
-- - Recovery: bin/recover_failed.py without `main`. Recovery.Choice says which failed jobs are
--   recovered, Recovery.Failed where they are afterwards. Recovery.Status is
--   bin/recover_http_status.py without `main` and the reading of its file of seeds;
--   Recovery.Depths, Recovery.Growth
--   and Recovery.Actors follow the jobs that it makes for actors.
-- - HostSurveyor: pub_crawler/host_surveyor.py. HostSurveyor.Chain follows an exception's causes.
-- - Tests: the theorems at concrete inputs.
--
-- A method of the dispatcher is one step, though other tasks may run between its commands. Scores and
-- times of expiry are natural numbers. A sum of a float and one is not rounded. `worker` runs on fuel,
-- and gives none where the worker still runs or waits; what other tasks do before each of its rounds, and
-- while it waits, is an argument. The class Crawler, `next_available` of the handlers and
-- clients and the Webfinger client are not modelled, nor are the other programs
-- under bin and fixup, most of which parse arguments and connect.
pub mod Base
pub mod Exec
pub mod Json
pub mod Redis
pub mod Platform
pub mod Job
pub mod Dispatcher
pub mod Throttle
pub mod FixedWindowCounter
pub mod Graph
pub mod World
pub mod Handlers
pub mod Crawler
pub mod Nodeinfo
pub mod ActivityPub
pub mod HostSurvey
pub mod HostSurveyor
pub mod SurveyHosts
pub mod Batches
pub mod Fixups
pub mod Snapshot
pub mod Migrations
pub mod Recovery
mod Tests
