-- ===== src/Lib.antt =====
-- A service that keeps for each user of a platform a "tape", a list of documents to score. An HTTP
-- API and a worker share it: the API writes a user's configuration, reads pages and removes what
-- was scored; the worker fills the tape from the platform's PostgreSQL database, under a lock, and
-- tells the user's clients on a Redis channel what it does. This library models the API's routes
-- with the login throttle, sessions and the WebSocket, the store in Redis, and the worker's runs.
--
-- Code that may fail or that talks to Redis is a state-passing function over the server
-- (Action.antt), with a result that may be an exception of Python (Method.antt, Errors.antt).
-- What is not part of the repository is a parameter:
--   * Redis (Redis.antt): a server with the commands that the service calls. Each command has to do
--     to the observable keyspace (Redis/Data.antt) what its documentation says
--     (Redis/Command.antt), and may do anything to the rest of the server. A command runs without
--     another in between. Times in Redis are whole seconds.
--   * PostgreSQL (Database.antt): one operation for each statement, which may fail; on success the
--     WHERE and ORDER BY of the statement hold of the rows.
--   * json, datetime and hashlib (Stdlib.antt): texts are read back as they were written.
-- The members of a set and the fields of a hash come in no particular order. The clock, random tokens,
-- settings, the keys that SCAN finds and the messages of a subscription are arguments.
--
-- The files, and what they model, with paths from the root of the repository:
--   Prelude and below         texts as lists of code points, str and int, list lemmas
--   RateLimit.antt            src/tape_service/auth/rate_limit.py, class TokenBucket; allow is the
--                             method, prune its loop. RateLimit/Window and RateLimit/Refinement
--                             bound it and compare it with a log
--   Errors.antt               src/tape_service/errors.py; Errors/Answer is what a client sees of it
--   Settings.antt             src/tape_service/settings.py, the fields that are read and a validator
--   Keys.antt                 the names of keys and channels, in store/*.py
--   Store/Tape/Config.antt    src/tape_service/store/tape.py, configuration and dirty flag;
--                             Store/Tape/RoundTrip is about writing and reading it
--   Store/Tape/Entries.antt   the same file, the sorted set of entries; Store/Tape/View is the
--                             abstract tape, Append, Operations and Laws the refinement;
--                             Store/Tape/Sources is about the set of sources, Users
--                             the list of users
--   Store/Tape/Runs.antt      the same file, the log of runs
--   Store/Events.antt         src/tape_service/store/events.py
--   Store/Lock.antt           src/tape_service/store/lock.py; per_user_lock is acquire and hold, the
--                             part before the yield and the part around it
--   Store/Sessions.antt       src/tape_service/store/sessions.py; validate is split where it
--                             returns early: check_blob, check_payload, check_dates, refresh
--   Auth.antt                 src/tape_service/auth/dependencies.py
--   Db/Candidates.antt        src/tape_service/db/candidates.py
--   Db/Users.antt             src/tape_service/db/users.py, all of it
--   Db/Documents, Db/Names,   src/tape_service/db/documents.py, roles.py and sources.py, score.py
--     Db/Score.antt
--   Api/Tape.antt             src/tape_service/api/tape.py, read_tape, cut where it returns early,
--                             with Api/Roles and Api/Pages; Api/Tape/Answer describes a page, Page
--                             says what a request does, Locked what it is told under a lock, Client
--                             and Paging what a client reads from page to page
--   Api/Score.antt            the same file, submit_score; Api/Score/Laws also follows a score into
--                             the next run of the generator, Again into the next request
--   Api/Auth.antt             src/tape_service/api/auth.py and schemas/auth.py, with the throttle's state;
--                             Api/Auth/Laws follows a login to the requests after it
--   Api/Ws.antt               src/tape_service/api/ws.py, as the list of what the handler does
--   Api/Config.antt           src/tape_service/api/config.py and schemas/config.py, cut at the check of
--                             the sources; Api/Config/Written says what is stored and answered
--   Pools.antt                src/tape_service/db/pool.py, store/client.py and store/async_client.py
--   Logging.antt              src/tape_service/logging_setup.py, the redaction of secrets;
--                             Logging/Format is format, Logging/Setup configure_logging
--   App.antt                  src/tape_service/main.py, lifespan, and api/health.py; App/Create is
--                             create_app, App/Lifespan says what lifespan leaves behind
--   Db/Probe.antt             src/tape_service/db/probe.py
--   Api/Cors.antt             src/tape_service/main.py, the origins that are let in
--   Worker/Generator.antt     src/tape_service/worker/generator.py, generate_for_user, cut at its
--                             branches and its try statements; Worker/Generator/Granted follows a
--                             run through its lock, Outcome says what a run leaves behind, Wanted
--                             which documents it finds, Order in which order, Skipped when it does
--                             nothing, Overtaken what it does to a configuration that is written
--                             meanwhile, Phases and Turns what a run is to the lock of its user
--   Worker/Listener.antt      src/tape_service/worker/listener.py, the handler of a notification;
--                             Worker/Listener/Thread is the rest of the class, Unscored and Heard
--                             say what a thread makes of all that it gets
--   Worker/Scheduler.antt     src/tape_service/worker/scheduler.py
--   Worker/Entry.antt         src/tape_service/worker_entry.py
--   Worker/Tick.antt          src/tape_service/worker/generator.py, tick; Worker/Tick/Fair follows one user
--                             through it, Configured from PUT /config on
--   Service and below         the whole: Steps lists the commands that the service sends for a user,
--                             Operations what clients, worker and platform can ask of it, Reachable
--                             the states between any two commands, Untouched what other users see,
--                             Recovery what becomes of work that stopped half-way, Turns and
--                             Exclusion the lock among everything else
--   Tests and below           instances of the parameters, and the theorems at concrete inputs
--
-- Every loop of the program is over a list. Only the client of Api/Tape/Client, who asks for page after
-- page, takes fuel, and the length of the tape plus one is enough. Numbers that Python keeps as int (ids,
-- positions, times in ticks, microseconds or seconds) are natural numbers without a bound. An
-- unknown position, -1 in the source, is none.
--
-- Not modelled: what the libraries do with threads, timers and signals, and FastAPI's own handling of
-- requests, which are parameters; the start of uvicorn; constant_time_equal of store/sessions.py, a
-- call of hmac that nothing uses; and failures of Redis itself: a call of Redis does not raise here,
-- so the last except clause of the listener is not reached.
pub mod Prelude
pub mod RateLimit
pub mod Action
pub mod Redis
pub mod Stdlib
pub mod Keys
pub mod Errors
pub mod Store
pub mod Method
pub mod Settings
pub mod Database
pub mod Db
pub mod Auth
pub mod Api
pub mod Worker
pub mod Pools
pub mod Logging
pub mod App
pub mod Service
mod Tests
