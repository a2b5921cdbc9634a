-- ===== src/Server/Auth.antt =====
-- The two authentications by API key: a fixed key, and the keys stored in Redis. A request is let
-- through or answered with status 401 and a message.
pub mod Keys
pub mod Examples
use hateblog_backend.Common.{
  ◌-◌, ◌*◌, ap, Bool, false, not, ◌&&◌, ◌||◌, Option, none, some, ltb, if◌then◌else◌, all, pos,
  Result, ok, err, Bytes, bytes_eq, is_empty,
}
use hateblog_backend.Domain.Tag.{Uuid}
use hateblog_backend.Domain.Entry.{Time}
use hateblog_backend.Domain.ApiKey.{ApiKey}
use hateblog_backend.Pkg.ApiKeyHash.{verify}
use hateblog_backend.Usecase.ApiKeys.{Redis, Codec, GetError, get_by_id}

pub data AuthResponse : Type 0 where
  -- next.ServeHTTP
  allowed : AuthResponse
  missing_key : AuthResponse
  invalid_id_format : AuthResponse
  not_available : AuthResponse
  invalid_key : AuthResponse
  key_expired : AuthResponse

-- `APIKeyAuth` with the valid key and the header X-API-Key.
unfoldable pub api_key_auth : Bytes → Bytes → AuthResponse
api_key_auth valid_key api_key =
    if is_empty api_key
    then missing_key
    else if not (bytes_eq api_key valid_key)
    then invalid_key
    else allowed

-- `ExpiresAt != nil && time.Now().After(*ExpiresAt)`
unfoldable pub is_expired : Option Time → Time → Bool
is_expired none now = false
is_expired (some t) now = ltb t now

-- `has_repo` tells that the repository is given and has the method `GetByID`.
module _ (redis : Redis) (codec : Codec) (sha256 : Bytes → Bytes) (has_repo : Bool) where
  check_stored : Result GetError ApiKey → Bytes → Time → AuthResponse
  check_stored (err e) api_key now = invalid_key
  check_stored (ok k) api_key now =
      if not (verify sha256 k.key_hash api_key)
      then invalid_key
      else if is_expired k.expires_at now
      then key_expired
      else allowed

  check_id : Option Uuid → Bytes → Time → redis.State → AuthResponse
  unfolding check_stored
  check_id none api_key now st = invalid_id_format
  check_id (some id) api_key now st =
      if not has_repo
      then not_available
      else check_stored (get_by_id redis codec id now st) api_key now

  -- `DynamicAPIKeyAuth` with the headers X-API-Key-ID and X-API-Key.
  unfoldable pub dynamic_api_key_auth : Bytes → Bytes → Time → redis.State → AuthResponse
  unfolding check_id
  dynamic_api_key_auth key_id api_key now st =
      if is_empty key_id || is_empty api_key
      then missing_key
      else check_id (codec.parse_id key_id) api_key now st
