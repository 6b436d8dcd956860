-- ===== src/Lib.antt =====
-- go_admin: a verification library of the back end of an administration console.
--
-- The program keeps users, roles, permissions and the links between them in a database behind a
-- generic repository, signs users in with JSON web tokens, and checks every request under a
-- middleware against the permissions of its user, which it caches in the process.
--
-- Files and what they model:
--   Common (with Tests, Lists, Int, Strings, StringLaws, Assoc): Boolean tests, lists, Go strings
--     as bytes, maps.
--   Outcome: Go's errors and panics, and methods over a state, as values.
--   Store: pkg/store/memory.go. `Memory` is the map with its default time to live; every method is
--     a function of the clock readings that it makes. Store/View has the partial map that a reader
--     at a given time sees, Store/Writes the writes, Store/Race the two critical sections of Get.
--   Repository: pkg/repository. Quote and Query are query.go (conditions, groups, the builder, what
--     it hands to xorm), Query/Meaning what the conditions select, Meta is meta.go and the filters
--     built from tagged models, Db is db.go, Db/Atomic its transactions, Crud is repository.go,
--     Crud/Laws what is assumed of the database, Crud/Statements and Crud/Rows what the operations
--     do and return.
--   Iam: internal/modules/iam. Model has the tables and requests, Links the replacement of links
--     that assignUserRoles and AssignRolePermissions share, Links/Exact and Links/Assign its
--     theorems, RoleService and UserRoleService the services, UserRoleService/Priority a theorem on
--     the choice of a role, Checker is permission_checker.go with its cache, Checker/Match,
--     Checker/Unique and Checker/Cache (with Checker/Reads) its theorems, PermissionService and
--     PermissionHandler are permission_service.go and permission_handler.go,
--     PermissionHandler/Fresh what a change leaves in the cache, RoleHandler is role_handler.go and
--     user_role_handler.go.
--   Auth: Tokens is internal/modules/iam/tokenstore, Jwt is pkg/jwtauth/jwtauth.go, Middleware is
--     internal/platform/middleware/jwt.go, Service is auth_service.go and the logout handler,
--     Revocation, Guard, Admit and Issue have the theorems across them.
--   Settings: internal/modules/systemsetting. Model has the table and requests, Values the types of
--     values, Service the writes of system_setting_service.go, Reads its reads with GetValue,
--     Handler is system_setting_handler.go, Keys has the theorems.
--   Users: internal/modules/user. Model has the table and requests, Service is user_service.go,
--     Handler is user_handler.go, Passwords and Argon2 have the theorems on passwords.
--   Crypter: pkg/crypter/password_hasher.go and argon2_hasher.go; Crypter/Hashes has the theorems.
--   Api: pkg/api/response.go, the codes and responses of the handlers.
--   Redis: pkg/redis. Client is client.go, Lock is lock.go: `Lock` is the lock, `Server` the node
--     and the link to it, `lock_from` the loop of Lock. Lock/Laws has what is assumed of Redis,
--     Lock/Exclusion, Lock/Attempts and Lock/Created the theorems.
--   Cron: pkg/cron/cron.go. `TaskManager` is the manager with its jobs, `Scheduler` robfig/cron;
--     Cron/Steps has the steps in which goroutines interleave, Cron/Sound (with Jobs, Removal,
--     Adding) what every step keeps, Cron/Runs and Cron/Load the theorems.
--   Router: internal/platform/router. Paths is how register.go infers a route from a name, Group is
--     group.go, Register the register of register.go and the table of route_table.go; RoundTrip,
--     Chain and Register/Table have the theorems.
--   RateLimit: internal/platform/middleware/sentinel. Ip is the limiter by address of limiter.go,
--     with the map of its buckets; Ip/Steps has the steps of the requests and of the cleaner,
--     Ip/Sound what every step keeps, Ip/Serves what a request does to its own address, Ip/Cleaned
--     what the cleaner takes. Distributed is the limiter on Redis with its script,
--     Distributed/Bound and Distributed/Opens have its theorems. Config is
--     internal/platform/config/sentinel.go, Rules is sentinel.go, Rules/Loaded and Rules/Breakers
--     have the theorems.
--   HttpClient: pkg/httpclient/httpclient.go. Client has the options and the errors that are tried
--     again, Request the requests with their retries, with the network as a function of the
--     attempt, Json the calls that decode an answer; Delay, Events, Answers and Bodies have the
--     theorems.
--   Validate: internal/platform/validate/validate.go. Validate has the tags and the walk through a
--     value, Binder the methods of DecimalBinder, Fields the theorems.
--   Reflect: pkg/reflectutil/reflect_utils.go. Reflect has the invoker, Methods the cache and the
--     proxy, Cache the theorems.
--   Config: internal/platform/config/config.go and env.go; Config/Once has the theorems.
--   Pathutil: pkg/pathutil/path.go; Pathutil/Nearest has the theorems.
--   Tests: a database in memory that meets the assumed laws, tests, and the theorems at it.
--
-- How they interact: the middleware parses a token, asks the token store and then the checker; the
-- checker reads roles and permissions through the repository and keeps the keys in a store; the
-- in-memory token store is the same store at other types; the services write through the repository
-- inside transactions, and the handlers of roles and permissions empty the checker's cache behind
-- them. The router mounts handlers behind the middleware of their group. The limiters and the guard
-- of sentinel stand in front of the handlers; the decimal binder fills a request before its handler
-- runs.
--
-- Parameters: xorm and its database (`Session`, `Table`, with laws where a theorem needs them), the
-- SQL builder's And and Or, golang-jwt (`JwtLibrary`), the Redis server and client, robfig/cron,
-- Hertz and its binder, copier, argon2, base64, rand, fmt, package unicode, ParseFloat and
-- json.Unmarshal, the recursive query of child permissions, net/http, rate.Limiter, sentinel,
-- shopspring/decimal, package reflect, the YAML decoder, the environment and the file system. Times
-- are readings of the clock in nanoseconds. Loops over slices are recursion on lists. There is fuel
-- in `format_uint`, 20, where a uint64 has at most 20 decimal digits, and in `lock_from`, one for
-- each attempt; Redis/Lock/Attempts shows how much is enough. The loop of the HTTP client recurses
-- on the attempts that are left, the search of Pathutil on the names of the directory. A hash of a
-- password is given the numbers with which IDKey does not panic. Durations of the HTTP client wrap
-- around at 64 bits; the numbers of the Lua script are natural numbers, which Lua holds exactly up
-- to 2^53.
--
-- Not modelled: logging, metrics, the HTTP framework, the generator of the route table and the
-- table that it writes, the encryption of pkg/crypter (calls of the standard library), the start of
-- sentinel, AsyncInvoke, the wiring of internal/bootstrap, internal/platform/app and
-- internal/platform/db.
pub mod Api
pub mod Auth
pub mod Common
pub mod Config
pub mod Cron
pub mod Crypter
pub mod HttpClient
pub mod Iam
pub mod Outcome
pub mod Pathutil
pub mod RateLimit
pub mod Redis
pub mod Reflect
pub mod Repository
pub mod Router
pub mod Settings
pub mod Store
pub mod Tests
pub mod Users
pub mod Validate
