-- ===== src/Server/Guard/Open/Examples.antt =====
-- The guard and the health check at concrete requests.
use hateblog_backend.Common.{
  ◌≡◌, refl, ◌≢◌, ◌⊎◌, false, some, [], ◌++◌, ok, Bytes, codes, trim_space, has_prefix,
}
use hateblog_backend.Domain.Tag.{Uuid}
use hateblog_backend.Domain.ApiKey.{ApiKey}
use hateblog_backend.Pkg.ApiKeyHash.{hash}
use hateblog_backend.Usecase.ApiKeys.{get_by_id}
use hateblog_backend.Server.Auth.{allowed, is_expired}
use hateblog_backend.Server.Auth.Examples.{checksum, plain_codec, plain_redis}
use hateblog_backend.Handler.Paths.{normalize_api_base_path, trim_slashes, with_slash, slash}
use hateblog_backend.Server.Guard.{
  router_base_path, served_health_path, app_base_path, below, healthcheck_path, guard, is_open,
  is_exempt,
}
use hateblog_backend.Server.Guard.Open.{guard-allowed, healthcheck_path_lem}

health_open :
    guard plain_redis plain_codec (checksum 0) (codes "/api") (codes "/api/health") [] [] 5 []
    ≡ allowed
unfolding guard is_open is_exempt below has_prefix
health_open = refl

guard-allowed_example :
    ((codes "/api" ≢ slash) × (has_prefix (codes "/api/health") (codes "/api" ++ slash) ≡ false))
    ⊎ (((codes "/api/health" ≡ below (codes "/api") (codes "/health"))
          ⊎ ((codes "/api/health" ≡ below (codes "/api") (codes "/api-keys"))
              ⊎ (codes "/api/health" ≡ below (codes "/api") (codes "/favicons"))))
        ⊎ ((id : Uuid) × (k : ApiKey) × (plain_codec.parse_id [] ≡ some id)
            × (get_by_id plain_redis plain_codec id 5 [] ≡ ok k)
            × (k.key_hash ≡ hash (checksum 0) [])
            × (is_expired k.expires_at 5 ≡ false)))
guard-allowed_example =
    guard-allowed plain_redis plain_codec (checksum 0) (codes "/api") (codes "/api/health") [] [] 5
      [] health_open

abbrev configured : Bytes
configured = codes " api/"

not_blank : trim_space configured ≢ []
unfolding trim_space
not_blank h = cc h

plain_end : trim_space (app_base_path configured) ≡ app_base_path configured
unfolding app_base_path trim_space with_slash trim_slashes has_prefix
plain_end = refl

healthcheck_path_lem_example :
    ((app_base_path configured ≡ slash)
      × (healthcheck_path configured ≡ codes "//health")
      × (served_health_path (app_base_path configured) ≡ codes "/health"))
    ⊎ ((app_base_path configured ≢ slash)
        × (healthcheck_path configured ≡ served_health_path (app_base_path configured))
        × (healthcheck_path configured ≡ below (app_base_path configured) (codes "/health")))
healthcheck_path_lem_example = healthcheck_path_lem configured not_blank plain_end

-- Behind a base path with a blank before its last slash, the health check asks for another path than
-- the router serves.
blank_before_slash :
    (healthcheck_path (codes "/api /") ≡ codes "/api /health")
    × (served_health_path (app_base_path (codes "/api /")) ≡ codes "/api/health")
unfolding healthcheck_path app_base_path served_health_path router_base_path below
    normalize_api_base_path trim_space with_slash trim_slashes has_prefix
blank_before_slash = (refl, refl)
