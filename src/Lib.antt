-- ===== src/Lib.antt =====
-- Verification of the team tasks API: a NestJS service with organizations, users, projects and
-- tasks in PostgreSQL, sessions and a cache of task lists in Redis, a nightly job, a queue of reports
-- and a websocket gateway.
--
-- How the program is put together, and which file models which part:
-- - Entities: the rows of src/modules/*/*.entity.ts and the token payload of
--   src/modules/auth/types/jwt-payload.ts. A date is a number of milliseconds.
-- - Js: what the code uses of JavaScript: properties that may be absent, `undefined` or `null`,
--   object spread, truthiness, template literals, `Number.parseInt`, sorting,
--   splitting, trimming and the case of texts, and doubles (Js.Double), whose arithmetic is a parameter.
-- - Exec: async methods as actions on a world that may throw; what was written before a throw stays.
-- - Platform: TypeORM's repositories, the Redis client, JSON, and hashes, as a record of operations
--   that every service takes as a parameter. Platform.Laws states what TypeORM and PostgreSQL
--   document of them: what a `where` selects, what a save, an update and a soft delete leave in a
--   table. Platform.Rows says so for each table. Platform.Frame holds the lemma the services share:
--   a write leaves alone the rows that pass a test which no changed row passes.
-- - Guards: `RolesGuard` (src/common/guards/roles.guard.ts) behind `@Auth(...)`.
-- - Queries: conditions and the handler of unique violations that services write alike.
-- - Tasks: src/modules/tasks. Policy is tasks.policy.ts, Cache is tasks-list-cache.service.ts, Service
--   and Objects are tasks.service.ts, Controller is tasks.controller.ts, Cron is
--   crons/task-overdue.cron.service.ts, Dto is the directory dto. A write saves the row and then
--   increments the version of the organization's lists, which is a part of every cache key;
--   Writes and Cache.Invalidation are about this.
-- - Users, Projects, Organizations: the modules of the same names in src/modules, each with its
--   service, its policy and its controller.
-- - Reports: src/modules/reports. Service is reports.policy.ts, report.service.ts and
--   reports.controller.ts, with BullMQ's queue as a parameter. Report and Processor are
--   processors/tasks-report-processor.ts and reports-events.service.ts: Report has the figures,
--   Processor the job. Median, Counts, Scope, Contents and Delivery are what is proved of them.
-- - Auth: src/modules/auth. Service is refresh, logout and me of auth.service.ts, Accounts is register
--   and login, Controller is auth.controller.ts with its cookies, Bearer is strategies/jwt.strategy.ts.
--   Handlers, Cookies, Opening, Login, Account, Register and Laws are what is proved of them. The JWT
--   library with its clock, bcrypt, the random id of a token and the commit of a transaction are parameters.
--   Sessions is what the operations promise without the stores, Refinement that they keep to it.
-- - Events: src/modules/events, over a server of socket.io (Events.Server) with its documented laws.
--   Events.Reports puts the gateway and the reports job together.
-- - Errors: src/common/filters/http-exception.filter.ts. Every failure of a service passes through it.
-- - Swagger: src/swagger/setup-swagger.ts, behind the test of src/main.ts. Config: src/config.
--   Express's test whether the gate's paths are those of a request is a parameter, and `next` is that the
--   request goes on to the routes that `SwaggerModule` makes, `/docs-yaml` among them.
-- - Memory: a platform in memory, with proofs that it has the laws. Tests runs the theorems on it.
--
-- A name is the source's in snake case: `getOne` of `TasksService` is `get_one` of Tasks.Service.
-- A request is a value of `Request`, already validated, with the payload of its access token; `serve`
-- runs a list of them one after the other. Requests do not interleave in the model. Nothing here runs
-- on fuel, but for decimal texts, where the fuel is one more than the number.
--
-- Numbers of pages are natural numbers: the code takes any number from 1 on, and fractions are left
-- out. JavaScript's rounding past 2^53 is left out. The order of a page is left to the database.
-- A job of the queue reads the database several times; the model runs it without other writes between
-- these reads. A call of the auth module has one time, at which it signs and verifies tokens; Auth.Tokens
-- states what jsonwebtoken documents of tokens at several times. A key of Redis stays until it is deleted
-- in the model: the theorem on a refresh within the session's lifetime speaks of a time before it expires.
-- Not modelled: the migrations, which are SQL that is run once; the health check, which returns a
-- constant; and the wiring of modules, the documentation's decorators and the start-up and shutdown of the
-- server, which only call libraries.
mod Prelude
pub mod Js
pub mod Entities
pub mod Exec
pub mod Platform
pub mod Queries
pub mod Guards
pub mod Tasks
pub mod Users
pub mod Projects
pub mod Organizations
pub mod Reports
pub mod Events
pub mod Errors
pub mod Swagger
pub mod Config
pub mod Auth
pub mod Memory
pub mod Tests
