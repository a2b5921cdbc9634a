-- ===== src/Handler/ApiKeys.antt =====
-- internal/infra/handler/api_key_handler.go: POST /api-keys. The decoded body, the random parts and
-- the three readings of the clock are arguments.
pub mod Usable
pub mod Examples
use hateblog_backend.Common.{
  ℕ, ◌+◌, ◌-◌, ◌/◌, ap, Bool, false, not, Option, none, some, [], ◌∷◌, ltb, ◌==◌, if◌then◌else◌,
  length, ℤ, pos, pos_part, ltb_ℤ, Result, ok, err, ◌>>=◌, ◌>>◌, reject_if, Bytes,
}
use hateblog_backend.Domain.Tag.{Uuid}
use hateblog_backend.Domain.Entry.{Time}
use hateblog_backend.Usecase.Ports.{Fault}
use hateblog_backend.Usecase.ApiKeys.{
  Redis, Codec, GenerateParams, GeneratedApiKey, GenerateError, generate_api_key,
}
use hateblog_backend.Handler.Responses.{Response, payload, no_headers, write_json, write_error}

pub record CreateApiKeyRequest : Type 0 where
  pub name : Option Bytes
  pub description : Option Bytes

pub record ApiKeyResponse : Type 0 where
  pub id : Uuid
  pub key : Bytes
  pub name : Option Bytes
  pub description : Option Bytes
  pub created_at : Time

pub data HandlerError : Type 0 where
  service_unavailable : HandlerError
  bad_body : Fault → HandlerError
  name_too_long : HandlerError
  description_too_long : HandlerError
  not_generated : GenerateError → HandlerError

-- The part of a text before its last colon.
unfoldable pub before_last_colon : Bytes → Option Bytes
before_last_colon [] = none
before_last_colon (c ∷ s) = elim (before_last_colon s) [
  | some rest ↦ some (c ∷ rest)
  | none ↦ if c == b':' then some [] else none
]

unfoldable pub extract_ip : Bytes → Bytes
unfolding before_last_colon
extract_ip remote_addr = elim (before_last_colon remote_addr) [ some ip ↦ ip | none ↦ remote_addr ]

unfoldable pub is_too_long : Option Bytes → ℕ → Bool
is_too_long none most = false
is_too_long (some s) most = ltb most (length s)

unfoldable pub check_request :
    Result Fault CreateApiKeyRequest → Result HandlerError CreateApiKeyRequest
unfolding is_too_long
check_request (err f) = err (bad_body f)
check_request (ok req) = do
  reject_if (is_too_long req.name 100) name_too_long
  reject_if (is_too_long req.description 500) description_too_long
  ok req

-- `h.apiKeyTTL` in nanoseconds; without a positive one a key does not expire.
unfoldable pub expiry : ℤ → Time → Option Time
expiry ttl now = if ltb_ℤ (pos 0) ttl then some (now + pos_part ttl) else none

-- The headers of the request that are kept with the key.
pub record Origin : Type 0 where
  pub remote_addr : Bytes
  pub user_agent : Bytes
  pub referrer : Bytes

unfoldable pub generate_params : CreateApiKeyRequest → Origin → ℤ → Time → GenerateParams
unfolding extract_ip expiry
generate_params req from ttl now = record {
  name = req.name;
  description = req.description;
  expires_at = expiry ttl now;
  created_ip = some (extract_ip from.remote_addr);
  created_ua = some from.user_agent;
  created_ref = some from.referrer;
}

abbrev pub Created : Type 0
Created = Response HandlerError ApiKeyResponse

unfoldable pub write_key : Result GenerateError GeneratedApiKey → Created
unfolding write_json write_error
write_key (err e) = write_error no_headers 500 (not_generated e)
write_key (ok g) = write_json no_headers 201 (
    payload (record {
      id = g.id;
      key = g.key;
      name = g.name;
      description = g.description;
      created_at = g.created_at;
    }))

module _ (redis : Redis) (codec : Codec) (sha256 : Bytes → Bytes) (key_prefix : Bytes)
    (has_service : Bool) (ttl : ℤ) where
  unfoldable pub create_key :
      Result HandlerError CreateApiKeyRequest
      → Origin
      → Uuid
      → Option Bytes
      → Time
      → Time
      → Time
      → redis.State
      → Created × redis.State
  unfolding write_key write_error generate_params
  create_key (err e) from id random asked now later st = (write_error no_headers 400 e, st)
  create_key (ok req) from id random asked now later st =
      let (result, st') =
        generate_api_key redis codec sha256 key_prefix (generate_params req from ttl asked) id
          random now later st in
      (write_key result, st')

  unfoldable pub handle_create_api_key :
      Result Fault CreateApiKeyRequest
      → Origin
      → Uuid
      → Option Bytes
      → Time
      → Time
      → Time
      → redis.State
      → Created × redis.State
  unfolding create_key
  handle_create_api_key decoded from id random asked now later st =
      if not has_service
      then (write_error no_headers 500 service_unavailable, st)
      else create_key (check_request decoded) from id random asked now later st
