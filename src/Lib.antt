-- ===== src/Lib.antt =====
-- The backend of hateblog: a server that lists entries of Hatena Bookmark by day, by tag and by
-- popularity, with PostgreSQL behind it and Redis as cache, rate limiter and store of API keys.
--
-- A request passes the middleware (internal/platform/server/middleware.go): the rate limiter counts
-- it in Redis, and some routes demand an API key. A handler then calls a use case
-- (internal/usecase), which normalises what it was given, looks into its cache, and on a miss asks
-- the repository and fills the cache. The domain layer (internal/domain) holds the records and their
-- validation; internal/pkg holds helpers.
--
-- Files and the code they are about, where a definition has the name of the Go function in snake
-- case and a record the name of the Go struct:
--   Common        numbers of 64 bits, results, byte strings, strings.TrimSpace
--   Domain/Tag    internal/domain/tag/tag.go
--   Domain/Entry, Domain/ListQuery
--                 internal/domain/entry/entry.go
--   Domain/ApiKey internal/domain/api_key/api_key.go
--   Pkg/Hostname, Pkg/LockId, Pkg/Apptime, Pkg/ApiKeyHash
--                 internal/pkg/hostname, batchutil, apptime, apikeyhash
--   Usecase/Ports internal/domain/repository/repository.go and the cache interfaces of the use cases
--   Usecase/Ranking, Usecase/Entries, Usecase/Archive, Usecase/Search, Usecase/Tags
--                 internal/usecase/ranking, entry, archive, search, tag (service.go)
--   Usecase/ApiKeys
--                 internal/usecase/api_key/service.go, internal/infra/redis/api_key_repository.go
--   Usecase/Favicon
--                 internal/usecase/favicon/service.go, internal/infra/redis/favicon_cache.go and
--                 favicon_ratelimiter.go
--   Usecase/Clicks
--                 internal/usecase/metrics/service.go and the click_metrics_repository.go
--   Server/RateLimit
--                 RateLimit of middleware.go, IncrementWithTTL of internal/platform/cache/cache.go
--   Server/Auth   APIKeyAuth and DynamicAPIKeyAuth of middleware.go
--   Server/Guard  cmd/app/main.go: the routes that need an API key, the base path, the health check
--                 and, of internal/infra/handler/router.go, the path under which the health is served
--   Server/Config Validate of internal/platform/config/config.go
--   Handler/Params
--                 internal/infra/handler/params.go, buildDayListParams of entry_handler.go
--   Handler/Paths internal/infra/handler/paths.go
--   Handler/Responses, Entries, Rankings, Tags, Search, Archive, ApiKeys
--                 the handlers of internal/infra/handler with the responses they share
--   Handler/Other favicon_handler.go, metrics_handler.go and health_handler.go
--   Infra/Hatena  internal/infra/external/hatena (bookmark_count.go, NewClient of client.go)
--   Infra/Postgres
--                 internal/infra/postgres/entry_repository.go: the SQL texts, Search for the keyword
--                 search, Repository for List, Count and ListAndCount
--                 Tags for internal/infra/postgres/tag_repository.go
--   Infra/Decimal the decimal text of a number, strconv.Itoa
--   Infra/Redis   internal/infra/redis/api_caches.go and snappy_json_cache.go: Keys, Lawful and
--                 Rankings for their theorems
--   Batch/Entries, Batch/Updater
--                 cmd/updater/main.go, with the table of entries that it writes
--   Batch/Fetcher fetchEntries of cmd/fetcher/main.go, and in Tagging attachTags
--   Batch/Migrator
--                 cmd/migrator/main.go: Rows for the rows, Tags for ensureTags
-- A module of tests stands beside each part, as Examples; Usecase/Samples holds what they share.
--
-- How state is modelled: a method that writes to a cache or to Redis takes the store and gives the
-- store after it, beside its result. A cache and Redis are records of operations with their laws; a
-- value may be gone from a cache at any time, except where a law says that it is kept. The repository
-- answers for one state of the database. The batch programs change tables that are lists of rows; a
-- statement may fail wherever an argument says so, and a transaction that fails leaves the tables as
-- they were. Errors are values of a data type for each part; the text of
-- a message is left out. A panic is an error of its own. Loggers, contexts and metrics are left out.
-- What Normalize has written to a query before it fails is left out too: the callers drop the query.
--
-- Numbers: int is Z, with the wrap to 64 bits written out where a sum may leave it (the end of a
-- page). An instant is a number of nanoseconds since the zero time.Time, in ℕ; time.Local is in the
-- calendar. Texts are byte strings.
-- Loops are recursions on the list they run over, or on fuel: the chunks of the bookmark counts and the
-- batches of the migrator, with one round for each URL or bookmark and one more, and a theorem each
-- that this is enough.
--
-- Parameters, for code outside the repository: strings.ToLower, url.Parse, url.ParseRequestURI,
-- url.QueryEscape, SHA-256, sort.Slice, the calendar of the package time, encoding/json at an API key
-- and at the values of the caches, snappy, the path parameters of chi, the text form of a UUID,
-- time.Parse, the Redis server. What is relied on stands as a law in a record beside the theorem.
--
-- Not modelled: the table of routes and the JSON text of a response, which are calls of chi and
-- encoding/json; what PostgreSQL answers to a text (an argument) and the repositories' other
-- statements, among them the rankings of tags; of the programs under cmd all but the updater, the
-- migrator, two functions of the fetcher and the guard of the server, and of these the wiring, the
-- flags and the position of a resumed migration; logging, panic recovery and the CORS headers; the
-- other clients of other services. internal/infra/handler/openapi is generated code.
pub mod Common
pub mod Domain
pub mod Pkg
pub mod Usecase
pub mod Server
pub mod Handler
pub mod Batch
pub mod Infra
