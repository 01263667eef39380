-- ===== src/Lib.antt =====
-- Janus server: an LLM gateway with quotas, rate limits and an admin console, in Python.
--
-- This library models the parts of the server that carry its own rules, and proves what makes
-- each of them correct. Paths are from the root of the repository.
--
-- Parts and files:
--   * Core/Snowflake.antt: src/core/snowflake.py, the generator of ids. `next_id` takes the
--     generator and the readings that its clock will show, and returns an id with the new
--     generator, or ClockRollbackError (`rolled_back`), or `waiting` if the readings run out in a
--     loop of the code. Step.antt says what one call does; Order.antt, Fields.antt, Progress.antt
--     and Worker.antt hold the theorems.
--   * Core/ClientIp.antt: src/core/client_ip.py, the address of a caller behind trusted proxies.
--   * Core/LoginThrottle.antt: src/core/login_throttle.py, the lock of a user name after failed
--     logins.
--   * Core/Sessions: src/core/session_store.py. Defs.antt has the keys and records, Store.antt
--     the class SessionStore, Runs.antt the calls in a row. Spent.antt, Once.antt, Sweep.antt,
--     Named.antt, Revoked.antt and Rotation.antt hold the lemmas and theorems. JSON is a
--     parameter: a codec whose loads undoes its dumps.
--   * Core/WorkerId: src/core/worker_id.py. Leases.antt has the keys with their expiry, the two
--     Lua scripts and acquire_worker_id, Heartbeat.antt the heartbeat, Cluster.antt the steps of
--     several processes and of time. Exclusion.antt, Unique.antt and Fence.antt hold the
--     theorems.
--   * Core/Redis.antt: the connection. A service is a function from a connection to a result and
--     the connection behind it. Each command, and each Lua script as a whole, is one round trip;
--     the list `up` of the connection says which of the round trips to come fail with RedisError.
--     A `command` that fails has not run; a `late_command`, as enqueue_event and the quota check
--     without a script send it, may have. What the server does is an interface:
--     Core/Redis/Counters.antt for integer keys, Core/Redis/Windows.antt for sorted sets and
--     hashes, Core/Redis/Values.antt for the keys of the login throttle, Core/Redis/Records.antt
--     for texts and sets of members, Core/Redis/Queues.antt for lists. The laws there are those
--     of the Redis documentation, and a plain map meets them. Core/Redis/Rules.antt has the rules
--     for postconditions of client code.
--   * Gateway/Quota: src/gateway/quota.py. Defs.antt has the data, Amounts.antt the static
--     methods, Script.antt the Lua script, Enforcer.antt the class QuotaEnforcer with
--     `check_and_increment`, `settle_reservations` and `compensate_reservations`, Fallback.antt
--     the check without a script. The other files hold the theorems. The calendar is a parameter.
--     A Decimal is a whole number of its smallest parts.
--   * Gateway/RateLimit: src/gateway/rate_limit.py. Estimate.antt has the token estimate,
--     Scripts.antt the four Lua scripts, Gates.antt `check_rate_limits` with its rollback and the
--     releases, and Emergency.antt the limiter of one process for the time that Redis is down.
--     Shapes.antt, Releases.antt, Rollback.antt, TokenGate.antt, SlotGate.antt, Denials.antt,
--     Buckets.antt, Repayment.antt and Degraded.antt hold the theorems.
--   * Gateway/Events: src/gateway/events.py and src/gateway/usage_batch.py. Defs.antt has keys
--     and JSON, Outbox.antt enqueue_event with the outbox of one process, Pipeline.antt claims,
--     retries, the dead-letter queue and the two Lua scripts, UsageBatch.antt the batch writer.
--     JSON, the database and the clock are parameters. Replay.antt, Stutters.antt and Log.antt
--     are about the outbox. Rows.antt, Copies.antt, Held.antt, Moves.antt, Claims.antt, Kept.antt
--     and Flush.antt hold the lemmas and theorems about usage events.
--   * Auth/PermCache: src/auth/perm_cache.py with get_or_load of src/core/cache.py. Defs.antt has
--     the keys and the read path as a machine, one step for each round trip and each load;
--     Readers.antt the steps of many readers and writers. A database is its versions.
--     Generations.antt, Fresh.antt, Invalidation.antt and Served.antt hold the lemmas and the
--     theorem.
--   * Admin/Departments.antt: src/admin/departments/service.py, the tree of departments. The rows
--     that are not deleted are a list; an operation is one transaction. Trees.antt and Walk.antt
--     are about chains of parents, Handlers.antt, Forest.antt and Creation.antt about the
--     operations, Batch.antt and Asked.antt about batch_delete_departments, Listing.antt,
--     Kept.antt and Listed.antt about list_departments.
--
-- The gateway checks the rate limits and then the quotas of a request, and settles or returns
-- what these hold when the request ends; both keep their counts in Redis. Ids come from the
-- generator.
--
-- Bounds and fuel: the loops of the generator run over the clock readings given, and
-- Core/Snowflake/Progress.antt says how many are enough. The walk over the ancestors of a
-- department has two more steps than there are rows; Admin/Departments/Walk.antt proves that this
-- is enough, and so has the walk of a listing. Numbers are unbounded, as in Python; the numbers
-- of a Lua script are whole and exact up to 2 ^ 53.
--
-- Not modelled: that keys of Redis vanish as their expiry passes, but for the leases of worker
-- numbers, the runs of the session store and the permission cache (elsewhere an expiry is only
-- set); other clients in the middle of a quota check without scripts; logs and metrics;
-- interleavings of database transactions; writers of usage events that interleave, channel
-- health, routing, and the HTTP, ORM and vendor layers.
pub mod Prelude
pub mod Core
pub mod Gateway
pub mod Admin
pub mod Auth
