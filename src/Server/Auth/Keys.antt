-- ===== src/Server/Auth/Keys.antt =====
-- Who is let through: the holder of a generated key until it expires, and nobody without a stored
-- key.
use hateblog_backend.Common.{
  ◌≤◌, ◌≡◌, refl, ◌≢◌, ◌↔◌, Bool, true, false, not, ◌||◌, Option, none, some, [], ◌∷◌, ◌++◌, arith,
  if◌then◌else◌, Result, ok, err, Bytes, bytes_eq, bytes_eq_iff, is_empty,
}
use hateblog_backend.Domain.Tag.{Uuid}
use hateblog_backend.Domain.Entry.{Time}
use hateblog_backend.Domain.ApiKey.{ApiKey}
use hateblog_backend.Pkg.ApiKeyHash.{hash, verify, hex_encode}
use hateblog_backend.Pkg.ApiKeyHash.Hex.{verify_iff}
use hateblog_backend.Usecase.ApiKeys.{
  Redis, Codec, GetError, GenerateParams, GeneratedApiKey, service_prefix, get_by_id, plaintext,
  generate_api_key,
}
use hateblog_backend.Usecase.ApiKeys.Stored.{IsRedis, IsCodec, IsKept, get_by_id-generate_api_key}
use hateblog_backend.Server.Auth.{
  AuthResponse, allowed, api_key_auth, is_expired, check_stored, check_id, dynamic_api_key_auth,
}

-- The fixed key lets a request through exactly if it is not empty and the request bears it.
pub api_key_auth_iff :
    (valid_key api_key : Bytes)
    → (api_key_auth valid_key api_key ≡ allowed) ↔ ((api_key ≢ []) × (api_key ≡ valid_key))
unfolding api_key_auth
api_key_auth_iff valid_key [] = ((λ h. cc h), (λ (n, e). absurd (n refl)))
api_key_auth_iff valid_key (c ∷ s) = (
  (λ h. ((λ e. cc e), (bytes_eq_iff (c ∷ s) valid_key).0 (passed (bytes_eq (c ∷ s) valid_key) h))),
  (λ (n, e). rw ((bytes_eq_iff (c ∷ s) valid_key).1 e) refl),
)
  where
    passed : (b : Bool) → (if not b then AuthResponse.invalid_key else allowed) ≡ allowed → b ≡ true
    passed true h = refl
    passed false h = cc h

is_empty_of_ne : (s : Bytes) → s ≢ [] → is_empty s ≡ false
is_empty_of_ne [] h = absurd (h refl)
is_empty_of_ne (c ∷ s) h = refl

IsKept-is_expired :
    (o : Option Time) (stored now : Time)
    → stored ≤ now
    → IsKept o stored now
    → is_expired o now ≡ false
unfolding is_expired
IsKept-is_expired none stored now later kept = refl
IsKept-is_expired (some t) stored now later kept = ground arith

plaintext-ne : (key_prefix random : Bytes) → service_prefix key_prefix ++ random ≢ []
unfolding service_prefix
plaintext-ne [] random e = cc e
plaintext-ne (c ∷ s) random e = cc e

module _ (redis : Redis) (codec : Codec) (sha256 : Bytes → Bytes) where
  check_stored-allowed :
      (r : Result GetError ApiKey) (api_key : Bytes) (now : Time)
      → check_stored redis codec sha256 true r api_key now ≡ allowed
      → (k : ApiKey) × (r ≡ ok k)
        × (k.key_hash ≡ hash sha256 api_key)
        × (is_expired k.expires_at now ≡ false)
  unfolding check_stored
  check_stored-allowed (err e) api_key now h = cc h
  check_stored-allowed (ok k) api_key now h =
      let (a, b) = tests (verify sha256 k.key_hash api_key) (is_expired k.expires_at now) h in
      (k, refl, (verify_iff sha256 k.key_hash api_key).0 a, b)
    where
      tests :
          (v x : Bool)
          → (if not v
              then AuthResponse.invalid_key
              else if x
              then AuthResponse.key_expired
              else allowed)
            ≡ allowed
          → (v ≡ true) × (x ≡ false)
      tests true false h = (refl, refl)
      tests true true h = cc h
      tests false x h = cc h

  -- A request that is let through, with a repository in place, names a stored key that has not
  -- expired, and bears the key whose hash is stored.
  pub dynamic_api_key_auth-allowed :
      (key_id api_key : Bytes) (now : Time) (st : redis.State)
      → dynamic_api_key_auth redis codec sha256 true key_id api_key now st ≡ allowed
      → (id : Uuid) × (k : ApiKey) × (codec.parse_id key_id ≡ some id)
        × (get_by_id redis codec id now st ≡ ok k)
        × (k.key_hash ≡ hash sha256 api_key)
        × (is_expired k.expires_at now ≡ false)
  unfolding dynamic_api_key_auth check_id
  dynamic_api_key_auth-allowed key_id api_key now st h =
      by_id (codec.parse_id key_id) refl (not_missing (is_empty key_id || is_empty api_key) h)
    where
      not_missing :
          (b : Bool) {x : AuthResponse}
          → (if b then AuthResponse.missing_key else x) ≡ allowed
          → x ≡ allowed
      not_missing false h = h
      not_missing true h = cc h

      by_id :
          (o : Option Uuid)
          → codec.parse_id key_id ≡ o
          → check_id redis codec sha256 true o api_key now st ≡ allowed
          → (id : Uuid) × (k : ApiKey) × (codec.parse_id key_id ≡ some id)
            × (get_by_id redis codec id now st ≡ ok k)
            × (k.key_hash ≡ hash sha256 api_key)
            × (is_expired k.expires_at now ≡ false)
      by_id none e w = cc w
      by_id (some id) e w =
          let (k, found, hashed, fresh) =
            check_stored-allowed (get_by_id redis codec id now st) api_key now w in
          (id, k, e, found, hashed, fresh)

  -- If Redis keeps what it has taken until its time to live is over, and keys and identifiers are
  -- read back as they were written: a key that GenerateAPIKey has handed out lets its holder
  -- through from the time it is stored on, as long as Redis keeps it: always, if the key has no
  -- expiry.
  pub dynamic_api_key_auth-generate_api_key :
      IsRedis redis
      → IsCodec codec
      → (key_prefix : Bytes) (p : GenerateParams) (id : Uuid) (random : Bytes)
        (now stored at : Time) (st st' : redis.State) (g : GeneratedApiKey)
      → generate_api_key redis codec sha256 key_prefix p id (some random) now stored st
        ≡ (ok g, st')
      → stored ≤ at
      → IsKept p.expires_at stored at
      → dynamic_api_key_auth redis codec sha256 true (codec.show_id g.id) g.key at st' ≡ allowed
  unfolding dynamic_api_key_auth check_id check_stored
  dynamic_api_key_auth-generate_api_key law json key_prefix p id random now stored at st st' g h
        later kept =
      let (found, i, k) =
        get_by_id-generate_api_key redis codec sha256 key_prefix law json p id random now stored at
          st st' g h later kept in
      let key = plaintext redis codec sha256 key_prefix random in
      rw
        (
          i,
          k,
          is_empty_of_ne (codec.show_id id) (json.show_id-ne id),
          is_empty_of_ne key (plaintext-ne key_prefix (hex_encode random)),
          json.parse-show id,
          found,
          (verify_iff sha256 (hash sha256 key) key).1 refl,
          IsKept-is_expired p.expires_at stored at later kept,
        )
        refl
