-- ===== src/Lib.antt =====
-- Hermet (go), an instant messaging backend: users apply for contacts, sign in with sessions and
-- tokens, and are stored in sharded databases under snowflake ids. This library models its core and
-- proves what makes it correct. Paths are the repository's.
--
-- The parts and how they meet:
--   Base        shared: lists over native numbers, texts, bits, Go's errors (internal/errs/error.go),
--               outcomes (a value, an error, a panic, or still waiting) and calls on a state.
--   Snowflake   internal/pkg/sharding/idgen/snowflake/snowflake_generator.go. `next_id` is `NextID`, on a
--               generator and the list of what the clock will show; a call that waits for a reading
--               that the list does not hold is `pending`. Layout: the bits of an id. Calls: one call.
--               Runs: many. Tickets: the abstract machine that runs refine.
--   Sharding    internal/pkg/sharding: types.go, Sharder (sharder.go, xxhash as a parameter), Modulo
--               (modulo_sharding.go), Balanced (balanced_sharding.go) and Helper (helper.go), which joins
--               a generator and a strategy. uint64 wraps, and a zero divisor or an index out of range
--               panics. Modulo.Routing and Modulo.Grid, Balanced.Rounds, Balanced.Groups,
--               Balanced.Names, Balanced.Order and Balanced.Even, and Helper.Consistency hold the proofs.
--   Domain      internal/domain: records, constants and validity tests.
--   Dao         internal/repo/dao: places rows by the helper. gorm, the map of databases, mongo and the
--               clock are parameters; Dao.Gorm.Reliable is what gorm and the database document.
--   Repo        internal/repo: conversions (Convert) and repositories over the data access objects.
--   Service     internal/service: Application, Auth, Channel, User. bcrypt, the token managers and the
--               uuids are parameters. What the source leaves as a panic is one here.
--   Web         internal/pkg/xgin and internal/api/session: the handler wrappers, the jwt middleware,
--               CORS, and sessions in Redis, whose commands are parameters (Session.Life.Reliable is
--               what Redis documents). Engine is gin as the program uses it, an interface with the laws
--               that gin documents; Engine.Table holds what follows from them for a list of routes.
--   Api         internal/api: the handlers, over services and sessions, and their routes (Routes).
--   Mq          internal/pkg/xmq: messages, the producer and the consumer. The consumer's goroutine, its
--               clients and Close are the steps of a relation, in any order. Order and Fifo say what
--               every run keeps and the queue that it refines, Progress what can still happen, and
--               Clients what a client is answered.
--   Log         internal/pkg/xgorm/zap_logger.go: what is written at which level.
--   Providers   internal/pkg/providers: Shards (shard_helper.go), Kafka (kafka.go), OAuth (the cached
--               token of kafka_oauth.go), Databases (db.go), Mongo (mongodb.go and
--               internal/pkg/xmongo), Clients (redis.go, zap_logger.go, session_handler.go), Tokens
--               (jwt_manager.go and the token's middleware of middleware.go); the hooks of the life
--               cycle are a list that they append to (Hooks).
--   App         internal/app/app.go, and cmd/main.go in Config: the engine with its middleware and its
--               routes, the server and its hooks. Wiring: what is served. Guarded: what a request must
--               hold. Applications: one request on its way from the engine to the database. Libraries
--               and Assembly: the whole program as fx puts it together over the libraries, with what
--               follows for a request to it (Assembly.Served).
--   Tests       runs and examples at concrete inputs.
--
-- A handler calls a service, a service its repositories, a repository a data access object, and this
-- the shard helper and gorm; each of these calls is a function on one state, so that what a call
-- changed stays changed where it returns an error.
--
-- Bounds and fuel: the only recursion on a bound is the decimal print, with one round more than the
-- number, and the rounds of the round robin, which are the size of the largest group. The loop that
-- waits for the next millisecond reads a finite list of clock readings, and it ends where one of them
-- lies later. Numbers of the program that are 64 bits wide wrap where the code computes with them; a
-- slice of destinations is at most 2 ^ 48 bytes, as on linux/amd64, and `make` panics beyond.
--
-- Not modelled: the texts of log calls; fx itself, whose graph is written out in App.Assembly in one
-- order that fx may take, and the order in which it runs hooks; how viper decodes a file; internal/repo/dao/channel_member_dao.go, channel_read_record.go and
-- user_channel.go, and internal/api/message_handler.go, which hold no operation.
pub mod Base
pub mod Snowflake
pub mod Sharding
pub mod Domain
pub mod Dao
pub mod Repo
pub mod Web
pub mod Api
pub mod Mq
pub mod Service
pub mod Log
pub mod Providers
pub mod App
pub mod Tests
