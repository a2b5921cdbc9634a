-- ===== src/Server/Config.antt =====
-- internal/platform/config/config.go: the fields of the configuration that Validate tests, and the
-- addresses made of them. Reading the environment is left out.
pub mod Valid
use hateblog_backend.Common.{
  ◌+◌, ◌-◌, ◌/◌, ap, Bool, not, ◌||◌, List, [], ◌∷◌, ◌++◌, ltb, leb, if◌then◌else◌, ℤ, pos, ltb_ℤ,
  leb_ℤ, Result, ok, err, ◌>>=◌, ◌>>◌, reject_if, Bytes, codes, is_empty, has_text, min,
}
use hateblog_backend.Infra.Decimal.{itoa}

pub record ServerConfig : Type 0 where
  pub host : Bytes
  pub port : ℤ

pub record DatabaseConfig : Type 0 where
  pub host : Bytes
  pub user : Bytes
  pub database : Bytes
  pub max_conns : ℤ
  pub min_conns : ℤ

pub record RedisConfig : Type 0 where
  pub host : Bytes
  pub port : ℤ
  pub db : ℤ

pub record AppConfig : Type 0 where
  pub log_level : Bytes
  pub log_format : Bytes
  pub rate_limit_enabled : Bool
  pub rate_limit_window : ℤ
  pub rate_limit_max_requests : ℤ

pub record Config : Type 0 where
  pub server : ServerConfig
  pub database : DatabaseConfig
  pub redis : RedisConfig
  pub app : AppConfig

pub data ConfigError : Type 0 where
  invalid_server_port : ConfigError
  database_host_required : ConfigError
  database_user_required : ConfigError
  database_name_required : ConfigError
  too_few_connections : ConfigError
  redis_host_required : ConfigError
  invalid_redis_database : ConfigError
  invalid_log_level : ConfigError
  invalid_log_format : ConfigError
  window_not_positive : ConfigError
  max_requests_not_positive : ConfigError

abbrev pub valid_log_levels : List Bytes
valid_log_levels = codes "debug" ∷ codes "info" ∷ codes "warn" ∷ codes "error" ∷ []

abbrev pub valid_log_formats : List Bytes
valid_log_formats = codes "text" ∷ codes "json" ∷ []

unfoldable pub check_rate_limit : AppConfig → Result ConfigError (Unit {0})
check_rate_limit a =
    if a.rate_limit_enabled
    then (do
      reject_if (leb_ℤ a.rate_limit_window (pos 0)) window_not_positive
      reject_if (leb_ℤ a.rate_limit_max_requests (pos 0)) max_requests_not_positive)
    else ok tt

unfoldable pub validate : Config → Result ConfigError (Unit {0})
unfolding check_rate_limit
validate c = do
  reject_if (ltb_ℤ c.server.port (pos 1) || ltb_ℤ (pos 65_535) c.server.port) invalid_server_port
  reject_if (is_empty c.database.host) database_host_required
  reject_if (is_empty c.database.user) database_user_required
  reject_if (is_empty c.database.database) database_name_required
  reject_if (ltb_ℤ c.database.max_conns c.database.min_conns) too_few_connections
  reject_if (is_empty c.redis.host) redis_host_required
  reject_if (ltb_ℤ c.redis.db (pos 0) || ltb_ℤ (pos 15) c.redis.db) invalid_redis_database
  reject_if (not (has_text c.app.log_level valid_log_levels)) invalid_log_level
  reject_if (not (has_text c.app.log_format valid_log_formats)) invalid_log_format
  check_rate_limit c.app

-- `Address` of the server and of Redis.
unfoldable pub address : Bytes → ℤ → Bytes
unfolding itoa
address host port = host ++ (codes ":" ++ itoa port)
