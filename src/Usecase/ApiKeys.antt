-- ===== src/Usecase/ApiKeys.antt =====
-- internal/usecase/api_key/service.go and internal/infra/redis/api_key_repository.go: keys are made,
-- and stored in Redis under their identifier. The random parts and the clock are arguments.
pub mod Stored
use hateblog_backend.Common.{
  ℕ, ◌+◌, ◌-◌, ◌*◌, ◌/◌, ap, Bool, true, false, not, Option, none, some, ◌++◌, leb, if◌then◌else◌,
  keep, all, pos, Result, ok, err, Bytes, codes, is_empty,
}
use hateblog_backend.Domain.Tag.{Uuid}
use hateblog_backend.Domain.Entry.{Time}
use hateblog_backend.Domain.ApiKey.{ApiKey, ApiKeyError, validate_params}
use hateblog_backend.Domain.ApiKey as ApiKey
use hateblog_backend.Pkg.ApiKeyHash.{hash, hex_encode}
use hateblog_backend.Usecase.Ports.{Fault}

-- A Redis server: `set st key data ttl now` keeps the data for `ttl` nanoseconds from `now` on, or
-- for good if that is 0, and tells whether it did; `get st key now` finds nothing or the data.
pub record Redis : Type 1 where
  pub State : Type 0
  pub set : State → Bytes → Bytes → ℕ → Time → State × Bool
  pub get : State → Bytes → Time → Result Fault (Option Bytes)

-- The text form of a uuid.UUID and encoding/json at `APIKey`.
pub record Codec : Type 0 where
  pub show_id : Uuid → Bytes
  pub parse_id : Bytes → Option Uuid
  pub marshal : ApiKey → Result Fault Bytes
  pub unmarshal : Bytes → Option ApiKey

pub data StoreError : Type 0 where
  marshal_failed : Fault → StoreError
  already_expired : StoreError
  set_failed : StoreError

pub data GetError : Type 0 where
  cache_miss : GetError
  get_failed : Fault → GetError
  unmarshal_failed : GetError

pub record GenerateParams : Type 0 where
  pub name : Option Bytes
  pub description : Option Bytes
  pub expires_at : Option Time
  pub created_ip : Option Bytes
  pub created_ua : Option Bytes
  pub created_ref : Option Bytes

pub record GeneratedApiKey : Type 0 where
  pub id : Uuid
  pub key : Bytes
  pub name : Option Bytes
  pub description : Option Bytes
  pub created_at : Time
  pub expires_at : Option Time

pub data GenerateError : Type 0 where
  random_failed : GenerateError
  invalid : ApiKeyError → GenerateError
  store_failed : StoreError → GenerateError

-- `NewService` replaces an empty prefix.
unfoldable pub service_prefix : Bytes → Bytes
service_prefix key_prefix = if is_empty key_prefix then codes "hb_live_" else key_prefix

-- time.Until(*k.ExpiresAt), `none` if it is not positive; 0 without an expiry.
unfoldable pub time_to_live : Option Time → Time → Option ℕ
time_to_live none now = some 0
time_to_live (some t) now = if leb t now then none else some (t - now)

module _ (redis : Redis) (codec : Codec) where
  abbrev pub redis_key : Uuid → Bytes
  redis_key id = codes "api_key:id:" ++ codec.show_id id

  -- The outcome of the client's Set.
  set_done : redis.State × Bool → Result StoreError (Unit {0}) × redis.State
  set_done (st, true) = (ok tt, st)
  set_done (st, false) = (err set_failed, st)

  -- The part of Store behind json.Marshal.
  store_data : ApiKey → Bytes → Time → redis.State → Result StoreError (Unit {0}) × redis.State
  unfolding set_done
  store_data k json now st = elim (time_to_live k.expires_at now) [
    | none ↦ (err already_expired, st)
    | some ttl ↦ set_done (redis.set st (redis_key k.id) json ttl now)
  ]

  unfoldable pub store : ApiKey → Time → redis.State → Result StoreError (Unit {0}) × redis.State
  unfolding store_data
  store k now st = elim (codec.marshal k) [
    | err f ↦ (err (marshal_failed f), st)
    | ok json ↦ store_data k json now st
  ]

  unmarshalled : Option ApiKey → Result GetError ApiKey
  unmarshalled none = err unmarshal_failed
  unmarshalled (some k) = ok k

  decode : Result Fault (Option Bytes) → Result GetError ApiKey
  unfolding unmarshalled
  decode (err f) = err (get_failed f)
  decode (ok none) = err cache_miss
  decode (ok (some json)) = unmarshalled (codec.unmarshal json)

  unfoldable pub get_by_id : Uuid → Time → redis.State → Result GetError ApiKey
  unfolding decode
  get_by_id id now st = decode (redis.get st (redis_key id) now)

  module _ (sha256 : Bytes → Bytes) (key_prefix : Bytes) where
    abbrev pub plaintext : Bytes → Bytes
    plaintext random = service_prefix key_prefix ++ hex_encode random

    abbrev pub key_params : GenerateParams → Uuid → Bytes → Time → ApiKey
    key_params p id random now = record {
      id = id;
      key_hash = hash sha256 (plaintext random);
      name = p.name;
      description = p.description;
      created_at = now;
      expires_at = p.expires_at;
      created_ip = p.created_ip;
      created_user_agent = p.created_ua;
      created_referrer = p.created_ref;
    }

    stored_key :
        Result StoreError (Unit {0}) × redis.State
        → GeneratedApiKey
        → Result GenerateError GeneratedApiKey × redis.State
    stored_key (ok u, st) g = (ok g, st)
    stored_key (err e, st) g = (err (store_failed e), st)

    store_new :
        Result ApiKeyError ApiKey
        → Bytes
        → Time
        → redis.State
        → Result GenerateError GeneratedApiKey × redis.State
    unfolding stored_key
    store_new (err e) random later st = (err (invalid e), st)
    store_new (ok k) random later st = stored_key (store k later st) (record {
      id = k.id;
      key = plaintext random;
      name = k.name;
      description = k.description;
      created_at = k.created_at;
      expires_at = k.expires_at;
    })

    -- `random` is what rand.Read gives, `now` the time of creation, `later` that of the storing.
    unfoldable pub generate_api_key :
        GenerateParams
        → Uuid
        → Option Bytes
        → Time
        → Time
        → redis.State
        → Result GenerateError GeneratedApiKey × redis.State
    unfolding store_new
    generate_api_key p id none now later st = (err random_failed, st)
    generate_api_key p id (some random) now later st =
        store_new (ApiKey.new (key_params p id random now)) random later st
