-- ===== src/Server/Guard.antt =====
-- cmd/app/main.go: the base path of the API, and which requests need an API key; with the path of the
-- health in internal/infra/handler/router.go.
pub mod Open
use hateblog_backend.Common.{
  ◌+◌, ◌-◌, ◌/◌, ap, Bool, true, not, ◌&&◌, ◌||◌, ◌++◌, if◌then◌else◌, all, Bytes, codes, bytes_eq,
  is_empty, trim_space, has_prefix,
}
use hateblog_backend.Domain.Entry.{Time}
use hateblog_backend.Usecase.ApiKeys.{Redis, Codec}
use hateblog_backend.Server.Auth.{AuthResponse, allowed, dynamic_api_key_auth}
use hateblog_backend.Handler.Paths.{normalize_api_base_path, slash, with_slash, trim_slashes}

-- `apiBasePath` in run.
unfoldable pub app_base_path : Bytes → Bytes
unfolding with_slash
app_base_path configured =
    let trimmed = trim_space configured in
    let rooted = with_slash trimmed in
    if is_empty trimmed
    then slash
    else if bytes_eq rooted slash
    then rooted
    else trim_slashes rooted

-- `healthPath`, `apiKeysPath` and `faviconsPath`, for a route with its slash.
unfoldable pub below : Bytes → Bytes → Bytes
below base route = if bytes_eq base slash then route else base ++ route

unfoldable pub is_exempt : Bytes → Bytes → Bool
unfolding below
is_exempt base path =
    bytes_eq path (below base (codes "/health"))
    || bytes_eq path (below base (codes "/api-keys"))
    || bytes_eq path (below base (codes "/favicons"))

-- The requests that pass without a key.
unfoldable pub is_open : Bytes → Bytes → Bool
unfolding is_exempt
is_open base path =
    (not (bytes_eq base slash) && not (has_prefix path (base ++ slash))) || is_exempt base path

-- `Skip` of the rate limiter.
unfoldable pub is_unlimited : Bytes → Bytes → Bool
unfolding below
is_unlimited base path = bytes_eq path (below base (codes "/health"))

-- NewRouter of internal/infra/handler/router.go: the base path under which it registers the routes,
-- and the path of the health. chi's Route puts a route behind its base path, and behind "/" as it is.
unfoldable pub router_base_path : Bytes → Bytes
router_base_path given =
    let normalized = normalize_api_base_path given in
    if is_empty normalized then slash else normalized

unfoldable pub served_health_path : Bytes → Bytes
unfolding router_base_path below
served_health_path given = below (router_base_path given) (codes "/health")

-- `healthPath` in healthcheck, which reads the configured path from the environment.
unfoldable pub healthcheck_path : Bytes → Bytes
unfolding with_slash
healthcheck_path configured =
    let trimmed = trim_space configured in
    let given = if is_empty trimmed then codes "/api/v1" else trimmed in
    let rooted = with_slash given in
    (if bytes_eq rooted slash then rooted else trim_slashes rooted) ++ codes "/health"

-- The middleware that asks for a key where keys are required.
module _ (redis : Redis) (codec : Codec) (sha256 : Bytes → Bytes) where
  unfoldable pub guard : Bytes → Bytes → Bytes → Bytes → Time → redis.State → AuthResponse
  unfolding is_open
  guard base path key_id api_key now st =
      if is_open base path
      then allowed
      else dynamic_api_key_auth redis codec sha256 true key_id api_key now st
