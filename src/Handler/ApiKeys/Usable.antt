-- ===== src/Handler/ApiKeys/Usable.antt =====
-- Keys that the handler hands out, at the guard of the API.
use hateblog_backend.Common.{
  ℕ, ◌≤◌, ◌≡◌, refl, inl, inr, Bool, true, false, not, Option, none, some, [], ◌∷◌, ◌++◌, arith,
  ◌==◌, if◌then◌else◌, &&-true, Bool-cases, ℤ, Result, ok, err, Bytes,
}
use hateblog_backend.Domain.Tag.{Uuid}
use hateblog_backend.Domain.Entry.{Time}
use hateblog_backend.Usecase.Ports.{Fault}
use hateblog_backend.Usecase.ApiKeys.{
  Redis, Codec, GeneratedApiKey, GenerateError, generate_api_key,
}
use hateblog_backend.Usecase.ApiKeys.Stored.{IsRedis, IsCodec, IsKept}
use hateblog_backend.Server.Auth.{allowed, dynamic_api_key_auth}
use hateblog_backend.Server.Auth.Keys.{dynamic_api_key_auth-generate_api_key}
use hateblog_backend.Infra.Decimal.Printed.{colon_free}
use hateblog_backend.Server.Guard.{is_open, guard}
use hateblog_backend.Handler.Responses.{no_headers, payload, write_json, write_error, error_message}
use hateblog_backend.Handler.ApiKeys.{
  CreateApiKeyRequest, ApiKeyResponse, HandlerError, service_unavailable, before_last_colon,
  extract_ip, check_request, Origin, expiry, generate_params, Created, write_key, create_key,
  handle_create_api_key,
}

last_colon_free : (s : Bytes) → colon_free s ≡ true → before_last_colon s ≡ none
unfolding before_last_colon
last_colon_free [] h = refl
last_colon_free (c ∷ s) h =
    let (here, rest) = &&-true (not (c == b':')) (colon_free s) h in
    let other : (c == b':') ≡ false = ground arith in rw (last_colon_free s rest, other) refl

before_last_colon-append :
    (host port : Bytes)
    → colon_free port ≡ true
    → before_last_colon (host ++ b':' ∷ port) ≡ some host
unfolding before_last_colon
before_last_colon-append [] port h = rw (last_colon_free port h) refl
before_last_colon-append (c ∷ host) port h = rw (before_last_colon-append host port h) refl

-- The address of a request without its port, which has no colon, is what stands in front of the last
-- colon, also for an address that has colons itself.
pub extract_ip-append :
    (host port : Bytes) → colon_free port ≡ true → extract_ip (host ++ b':' ∷ port) ≡ host
unfolding extract_ip
extract_ip-append host port h = rw (extract_ip, before_last_colon-append host port h) refl

failed : ◌≡◌ {A = ℕ} 500 201 → ⊥
failed h = omega arith

refused : ◌≡◌ {A = ℕ} 400 201 → ⊥
refused h = omega arith

module _ (redis : Redis) (codec : Codec) (sha256 : Bytes → Bytes) where
  guard_of_auth :
      (base path key_id api_key : Bytes) (now : Time) (st : redis.State)
      → dynamic_api_key_auth redis codec sha256 true key_id api_key now st ≡ allowed
      → guard redis codec sha256 base path key_id api_key now st ≡ allowed
  unfolding guard
  guard_of_auth base path key_id api_key now st h = elim (Bool-cases (is_open base path)) [
    | inl open_path ↦ rw open_path refl
    | inr closed ↦ rw closed h
  ]

  -- The response hands out a key with which every path is open.
  abbrev pub IsUsable : Created → Bytes → Bytes → Time → redis.State → Type 0
  IsUsable out base path at st =
      (b : ApiKeyResponse) × (out.body ≡ payload b)
      × (guard redis codec sha256 base path (codec.show_id b.id) b.key at st ≡ allowed)

  module _ (key_prefix : Bytes) (has_service : Bool) (ttl : ℤ) where
    create_key-IsUsable :
        IsRedis redis
        → IsCodec codec
        → (m : Result HandlerError CreateApiKeyRequest) (from : Origin) (id : Uuid)
          (random : Option Bytes) (asked now later at : Time) (st : redis.State) (base path : Bytes)
        → later ≤ at
        → IsKept (expiry ttl asked) later at
        → let out =
            create_key redis codec sha256 key_prefix has_service ttl m from id random asked now
              later st in
          out.0.status ≡ 201 → IsUsable out.0 base path at out.1
    unfolding create_key write_key write_error write_json error_message
    create_key-IsUsable law json (err e) from id random asked now later at st base path after kept
          h =
        absurd (refused h)
    create_key-IsUsable law json (ok req) from id none asked now later at st base path after kept
          h =
        absurd (failed (unfold generate_api_key in h))
    create_key-IsUsable law json (ok req) from id (some random) asked now later at st base path
          after kept h =
        go
          (generate_api_key redis codec sha256 key_prefix (generate_params req from ttl asked) id
            (some random) now later st)
          refl h
      where
        go :
            (made : Result GenerateError GeneratedApiKey × redis.State)
            → generate_api_key redis codec sha256 key_prefix
                (generate_params req from ttl asked)
                id
                (some random)
                now
                later
                st
              ≡ made
            → (write_key made.0).status ≡ 201
            → IsUsable (write_key made.0) base path at made.1
        go (err e, st') q h = absurd (failed h)
        go (ok g, st') q h = (
          _,
          refl,
          guard_of_auth base path (codec.show_id g.id) g.key at st' (
              dynamic_api_key_auth-generate_api_key redis codec sha256 law json key_prefix
                (generate_params req from ttl asked) id random now later at st st' g q after kept),
        )

    -- If Redis keeps what it has taken until its time to live is over, and keys and identifiers are
    -- read back as they were written: a response 201 of the handler hands out an identifier and a
    -- key with which every path is served, from the time the key is stored on, as long as Redis
    -- keeps it, which is for good without a time to live.
    pub handle_create_api_key_lem :
        IsRedis redis
        → IsCodec codec
        → (decoded : Result Fault CreateApiKeyRequest) (from : Origin) (id : Uuid)
          (random : Option Bytes) (asked now later at : Time) (st : redis.State) (base path : Bytes)
        → later ≤ at
        → IsKept (expiry ttl asked) later at
        → let out =
            handle_create_api_key redis codec sha256 key_prefix has_service ttl decoded from id
              random asked now later st in
          out.0.status ≡ 201 → IsUsable out.0 base path at out.1
    unfolding handle_create_api_key
    handle_create_api_key_lem law json decoded from id random asked now later at st base path after
          kept =
        go has_service
      where
        made : Created × redis.State
        made =
            create_key redis codec sha256 key_prefix has_service ttl (check_request decoded) from id
              random asked now later st

        go :
            (b : Bool)
            → let out : Created × redis.State =
                if not b then (write_error no_headers 500 service_unavailable, st) else made in
              out.0.status ≡ 201 → IsUsable out.0 base path at out.1
        go true h =
            create_key-IsUsable law json (check_request decoded) from id random asked now later at
              st base path after kept h
        go false h = absurd (failed (unfold write_error write_json error_message in h))
