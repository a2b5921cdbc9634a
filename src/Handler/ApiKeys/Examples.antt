-- ===== src/Handler/ApiKeys/Examples.antt =====
-- The handler of new keys, and what a key opens, at concrete requests.
use hateblog_backend.Common.{◌≡◌, refl, true, none, some, [], arith, pos, Result, ok, codes}
use hateblog_backend.Usecase.Ports.{Fault}
use hateblog_backend.Pkg.ApiKeyHash.{hash, hex_encode, hex_digit}
use hateblog_backend.Domain.ApiKey.{new, validate_params, is_longer, expires_before}
use hateblog_backend.Usecase.ApiKeys.{generate_api_key, store, time_to_live, service_prefix}
use hateblog_backend.Usecase.ApiKeys.Stored.{IsKept}
use hateblog_backend.Server.Auth.Examples.{
  checksum, plain_codec, plain_codec-IsCodec, plain_redis, plain_redis-IsRedis, sample_random,
}
use hateblog_backend.Handler.Responses.{write_json}
use hateblog_backend.Handler.ApiKeys.{
  CreateApiKeyRequest, check_request, is_too_long, Origin, expiry, generate_params, extract_ip,
  before_last_colon, create_key, write_key, handle_create_api_key,
}
use hateblog_backend.Handler.ApiKeys.Usable.{IsUsable, handle_create_api_key_lem}

abbrev body : Result Fault CreateApiKeyRequest
body = ok (record { name = some (codes "ci"); description = none })

abbrev from : Origin
from = record { remote_addr = codes "[::1]:8080"; user_agent = codes "curl"; referrer = [] }

created :
    (handle_create_api_key plain_redis plain_codec
      (checksum 0)
      []
      true
      (pos 900_000_000)
      body
      from
      7
      (some sample_random)
      50
      100
      200
      []).0.status
    ≡ 201
unfolding handle_create_api_key check_request is_too_long create_key write_key write_json
    generate_params expiry extract_ip before_last_colon generate_api_key new validate_params
    is_longer expires_before store time_to_live service_prefix hex_encode hex_digit hash
created = refl

handle_create_api_key_lem_example :
    let out =
      handle_create_api_key plain_redis plain_codec
        (checksum 0)
        []
        true
        (pos 900_000_000)
        body
        from
        7
        (some sample_random)
        50
        100
        200
        [] in
    IsUsable plain_redis plain_codec (checksum 0) out.0 (codes "/api") (codes "/api/tags") 300 out.1
handle_create_api_key_lem_example =
    handle_create_api_key_lem plain_redis plain_codec (checksum 0) [] true (pos 900_000_000)
      plain_redis-IsRedis plain_codec-IsCodec body from 7 (some sample_random) 50 100 200 300 []
      (codes "/api") (codes "/api/tags") (omega arith) kept created
  where
    kept : IsKept (expiry (pos 900_000_000) 50) 200 300
    kept = unfold expiry in omega arith
