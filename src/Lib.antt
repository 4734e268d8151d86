-- ===== src/Lib.antt =====
-- Metroflow AI backend: a model of its coordination, caching, live-update and journey code.
--
-- The backend is a set of FastAPI processes over PostgreSQL and, if there is one, Redis. Each
-- process keeps a cache with a local fall-back, takes part in the election of the one process that
-- runs each background loop, and holds the WebSocket connections of its clients; the processes tell
-- each other of events over a Redis channel. Journeys change the live crowd counts, and the counts
-- are broadcast to the clients. The modules follow these parts:
--
-- - Cache: app/core/cache.py. Cache/Local is the local LRU store (_local_get_raw, _local_set_raw,
--   _local_set_nx); Cache/Client the Redis client's state and its back-off (_get_client, _mark_down,
--   redis_status); Cache/Json the calls get_json, set_json, set_json_persistent, set_nx and delete;
--   Cache/Lease the two Lua scripts and try_acquire_or_renew_lock and release_lock. A Redis server is
--   the interface of Cache/Redis, whose laws are what its commands are documented to do;
--   Cache/Memory fills it. json is a parameter (Codec), with no law.
-- - Election/LocalLock: app/simulator/local_lock.py. The host gives an exclusive flock to one open
--   file at a time; the results of os.open and of other flock failures are inputs.
-- - Election/Elector: class LeaderElection of app/simulator/leader_election.py. An asyncio task is its
--   state: running, crashed or exited. Elector/Fleet has several processes and one server, as a
--   relation of steps; the local locks of the hosts change at any time.
-- - Websocket: app/websocket/events.py and app/websocket/manager.py. Websocket/Manager has the state
--   and the calls of one connection, Websocket/Broadcast the broadcasts, the relay's messages and the
--   reaper, Websocket/Coalesce the buffers of notify, Websocket/RelayLoop the retries of the relay
--   thread. Which sends succeed is an input (Net).
-- - Journeys: app/services/journey_service.py, apply_live_state_delta of
--   app/services/crowd_service.py and app/enums/crowd_level.py. A request is given the tables that it
--   read and the tables that it commits to, so that reads may be stale; the unique index of
--   app/models/journey.py is tested at the commit, and a row locked by with_for_update is read at the
--   commit.
-- - Notifications: app/services/notification_dispatch_queue.py and app/core/notification_executor.py.
--   A process's pool is the list of the ids that its threads have not taken yet; run_job is two steps,
--   before and after the dispatch, so that a restart can come between them.
--   Notifications/Inbox: app/services/notification_service.py, its two tables and its queries. ORDER BY
--   keeps the table's order of rows that are equal.
-- - Alerts: app/services/alert_service.py. Alerts/Actions has the requests, each given the tables that
--   it read, so that reads may be stale; Alerts/Email the retries of app/core/email.py and
--   app/core/sms.py, where the answers of smtplib and of the provider are a parameter (MailServer);
--   Alerts/Dispatch the dispatch of a job up to its rows in notification_logs. A Cut is the place where
--   the process ends between the commits of a dispatch.
-- - Schedules: app/services/schedule_service.py. Schedules/Actions has the requests,
--   Schedules/Cached the list that goes through the cache, Schedules/Lists the lists that a miss
--   computes, Schedules/Upcoming the choice of the next departures. Times of day are to the
--   second.
-- - Simulators: app/simulator/csv_replay_simulator.py. The file is the list of its rows, read in chunks
--   by the load and in windows by a refill; entries and exits are whole numbers. Replay/Load and
--   Replay/Chunks follow the load, Replay/Cycle and Replay/Rounds the reads, Replay/Whole both.
-- - Retention: app/simulator/retention.py and app/utils/db_batch.py. Retention/Batch has the loop of
--   batched_delete with one more round than the table has rows, Retention/Rollup the pass.
-- - Users: app/core/security.py and update_user of app/api/v1/users.py. Users/Auth has the dependencies
--   of the routes over the table and the profile cache, which is Redis and a local store of each
--   process; Links says which calls of a request reach Redis (app/core/cache.py). A request reads and
--   writes table and cache in one step. A token's check by jose is a parameter (Verifier), as are the
--   ids of the uuid module.
-- - Enquiries: app/services/enquiry_service.py, over the users' roles and the inbox.
-- - Geo: app/utils/geo.py.
-- - Trains: app/services/train_tracking.py. The walk of walk_eta_seconds runs 2 * len(route) rounds, as
--   in the code; durations, which are floats, are a parameter with the sum that the walk takes.
--   Trains/Simulator: app/simulator/train_simulator.py, whose arithmetic of floats is a parameter
--   (Motor) that may divide by zero; an exception ends the tick and rolls back the rows, but not
--   _train_state.
-- - Middleware: app/core/request_limits.py and app/core/log_buffer.py.
-- - Common: Python's ordered dictionaries, lists and tests.
--
-- Numbers are natural numbers without a bound, as Python's integers; times are milliseconds, and
-- one clock serves time.monotonic, time.time and the Redis server. A call reads the clock once.
-- The while loops that drop the oldest entries are recursions over the entries, so they need no
-- fuel. A coroutine that awaits is one step, but for the calls of ConnectionManager.connect that
-- wait for websocket.accept at one time: Websocket/Limits/Overlap has what they record afterwards.
-- Keys, texts, sockets, users and JSON values are open types with a decidable equality; ids and
-- texts are never the empty string where the code tests them for truth. Logging is left out.
--
-- Not modelled: fares (trigonometry on floats, a parameter of the journeys), the live
-- simulator, the ticks of the CSV replay, the lists of alerts, events and logs, the
-- preferences, and the services for train records, reports, analytics, predictions and the chatbot,
-- with the HTTP routes, the settings and the migrations.
pub mod Common
pub mod Cache
pub mod Alerts
pub mod Election
pub mod Geo
pub mod Websocket
pub mod Journeys
pub mod Notifications
pub mod Retention
pub mod Schedules
pub mod Simulators
pub mod Trains
pub mod Users
pub mod Enquiries
pub mod Middleware
