-- ===== src/Usecase/ApiKeys/Stored.antt =====
-- What a stored key can be read back as, and when.
use hateblog_backend.Common.{
  ℕ, ◌+◌, ◌-◌, ◌*◌, ◌/◌, ◌≤◌, ◌<◌, ◌≡◌, refl, sym, ap, ◌∙◌, ◌≢◌, ◌⊎◌, inl, Bool, true, false,
  Option, none, some, [], arith, Result, ok, err, >>=-eq-ok, Bytes,
}
use hateblog_backend.Domain.Tag.{Uuid}
use hateblog_backend.Domain.Entry.{Time}
use hateblog_backend.Domain.ApiKey.{ApiKey, ApiKeyError, validate_params}
use hateblog_backend.Domain.ApiKey as ApiKey
use hateblog_backend.Usecase.Ports.{Fault}
use hateblog_backend.Usecase.ApiKeys.{
  Redis, Codec, StoreError, GenerateParams, GeneratedApiKey, GenerateError, time_to_live, redis_key,
  set_done, store_data, store, decode, unmarshalled, get_by_id, plaintext, key_params, stored_key,
  store_new, generate_api_key,
}

-- A value that Redis has taken is found until its time to live, in whole milliseconds, is over.
pub record IsRedis (redis : Redis) : Type 0 where
  pub get-set :
      (st : redis.State) (k d : Bytes) (ttl : ℕ) (now later : Time)
      → (redis.set st k d ttl now).1 ≡ true
      → now ≤ later
      → (ttl ≡ 0) ⊎ (later < now + ttl / 1_000_000 * 1_000_000)
      → redis.get (redis.set st k d ttl now).0 k later ≡ ok (some d)

-- An identifier and a key are read back from what was written, and no identifier is written empty.
pub record IsCodec (codec : Codec) : Type 0 where
  pub parse-show : (id : Uuid) → codec.parse_id (codec.show_id id) ≡ some id
  pub show_id-ne : (id : Uuid) → codec.show_id id ≢ []
  pub unmarshal-marshal :
      (k : ApiKey) (b : Bytes) → codec.marshal k ≡ ok b → codec.unmarshal b ≡ some k

-- The key has no expiry, or Redis, which counts whole milliseconds from the time of the storing,
-- still keeps it.
abbrev pub IsKept : Option Time → Time → Time → Type 0
IsKept none stored now = Unit
IsKept (some t) stored now = now < stored + (t - stored) / 1_000_000 * 1_000_000

time_to_live-IsKept :
    (o : Option Time) (stored now : Time) (ttl : ℕ)
    → time_to_live o stored ≡ some ttl
    → IsKept o stored now
    → (ttl ≡ 0) ⊎ (now < stored + ttl / 1_000_000 * 1_000_000)
unfolding time_to_live
time_to_live-IsKept none stored now ttl h kept = inl (cc h)
time_to_live-IsKept (some t) stored now ttl h kept = ground arith

new_ok : (p k : ApiKey) → ApiKey.new p ≡ ok k → p ≡ k
unfolding ApiKey.new
new_ok p k h = let (u, _, e) = >>=-eq-ok (validate_params p) (λ _. ok p) h in cc e

module _ (redis : Redis) (codec : Codec) where
  decode_marshal :
      (json : Bytes) (k : ApiKey)
      → codec.unmarshal json ≡ some k
      → decode redis codec (ok (some json)) ≡ ok k
  unfolding decode unmarshalled
  decode_marshal json k h = ap (unmarshalled redis codec) h

  get_by_id-store_data :
      IsRedis redis
      → (k : ApiKey) (b : Bytes) → codec.unmarshal b ≡ some k
      → (stored now : Time) (st st' : redis.State)
      → store_data redis codec k b stored st ≡ (ok tt, st')
      → stored ≤ now
      → IsKept k.expires_at stored now
      → get_by_id redis codec k.id now st' ≡ ok k
  unfolding store_data get_by_id decode set_done
  get_by_id-store_data law k b json stored now st st' h later kept =
      go (time_to_live k.expires_at stored) refl h
    where
      after : Option ℕ → Result StoreError (Unit {0}) × redis.State
      after o = elim o [
        | none ↦ (err StoreError.already_expired, st)
        | some ttl ↦ set_done redis codec (redis.set st (redis_key redis codec k.id) b ttl stored)
      ]

      done :
          (r : redis.State × Bool)
          → set_done redis codec r ≡ (ok tt, st')
          → (r.1 ≡ true) × (r.0 ≡ st')
      done (x, true) e = (refl, ap (λ (y : Result StoreError (Unit {0}) × redis.State). y.1) e)
      done (x, false) e = cc e

      go :
          (o : Option ℕ)
          → time_to_live k.expires_at stored ≡ o
          → after o ≡ (ok tt, st')
          → get_by_id redis codec k.id now st' ≡ ok k
      go none e w = cc w
      go (some ttl) e w =
          let out = redis.set st (redis_key redis codec k.id) b ttl stored in
          let (taken, same) = done out w in
          let alive = time_to_live-IsKept k.expires_at stored now ttl e kept in
          let read =
            law.get-set st (redis_key redis codec k.id) b ttl stored now taken later alive in
          ap (get_by_id redis codec k.id now) (sym same)
          ∙ ap (decode redis codec) read
          ∙ decode_marshal b k json

  -- What a successful Store leaves is found under the identifier.
  pub get_by_id-store :
      IsRedis redis
      → IsCodec codec
      → (k : ApiKey) (stored now : Time) (st st' : redis.State)
      → store redis codec k stored st ≡ (ok tt, st')
      → stored ≤ now
      → IsKept k.expires_at stored now
      → get_by_id redis codec k.id now st' ≡ ok k
  unfolding store
  get_by_id-store law json k stored now st st' h later kept = go (codec.marshal k) refl h
    where
      after : Result Fault Bytes → Result StoreError (Unit {0}) × redis.State
      after o = elim o [
        | err f ↦ (err (StoreError.marshal_failed f), st)
        | ok b ↦ store_data redis codec k b stored st
      ]

      go :
          (o : Result Fault Bytes)
          → codec.marshal k ≡ o
          → after o ≡ (ok tt, st')
          → get_by_id redis codec k.id now st' ≡ ok k
      go (err f) e w = cc (ap (λ (y : Result StoreError (Unit {0}) × redis.State). y.0) w)
      go (ok b) e w =
          get_by_id-store_data law k b (json.unmarshal-marshal k b e) stored now st st' w later kept

  module _ (sha256 : Bytes → Bytes) (key_prefix : Bytes) where
    stored_key_done :
        (r : Result StoreError (Unit {0}) × redis.State) (g g' : GeneratedApiKey)
        (st' : redis.State)
        → stored_key redis codec sha256 key_prefix r g ≡ (ok g', st')
        → (r ≡ (ok tt, st')) × (g ≡ g')
    unfolding stored_key
    stored_key_done (ok u, st) g g' st' h = (
      ap (λ (y : Result GenerateError GeneratedApiKey × redis.State). (ok tt, y.1)) h,
      cc (ap (λ (y : Result GenerateError GeneratedApiKey × redis.State). y.0) h),
    )
    stored_key_done (err e, st) g g' st' h =
        cc (ap (λ (y : Result GenerateError GeneratedApiKey × redis.State). y.0) h)

    -- What a successful GenerateAPIKey leaves is found under the identifier, with the hash of the
    -- key that it hands out.
    pub get_by_id-generate_api_key :
        IsRedis redis
        → IsCodec codec
        → (p : GenerateParams) (id : Uuid) (random : Bytes) (now stored at : Time)
          (st st' : redis.State) (g : GeneratedApiKey)
        → generate_api_key redis codec sha256 key_prefix p id (some random) now stored st
          ≡ (ok g, st')
        → stored ≤ at
        → IsKept p.expires_at stored at
        → (get_by_id redis codec id at st'
            ≡ ok (key_params redis codec sha256 key_prefix p id random now))
          × (g.id ≡ id)
          × (g.key ≡ plaintext redis codec sha256 key_prefix random)
    unfolding generate_api_key store_new
    get_by_id-generate_api_key law json p id random now stored at st st' g h later kept =
        go (ApiKey.new made) refl h
      where
        made : ApiKey
        made = key_params redis codec sha256 key_prefix p id random now

        go :
            (r : Result ApiKeyError ApiKey)
            → ApiKey.new made ≡ r
            → store_new redis codec sha256 key_prefix r random stored st ≡ (ok g, st')
            → (get_by_id redis codec id at st' ≡ ok made)
              × (g.id ≡ id)
              × (g.key ≡ plaintext redis codec sha256 key_prefix random)
        go (err e) q w = cc (ap (λ (y : Result GenerateError GeneratedApiKey × redis.State). y.0) w)
        go (ok k) q w =
            let same = new_ok made k q in
            let (done, shown) = stored_key_done (store redis codec k stored st) _ g st' w in
            let found =
              get_by_id-store law json made stored at st st'
                (ap (λ x. store redis codec x stored st) same ∙ done) later kept in
            (
              found,
              sym (ap (λ (x : GeneratedApiKey). x.id) shown) ∙ sym (ap (λ (x : ApiKey). x.id) same),
              sym (ap (λ (x : GeneratedApiKey). x.key) shown),
            )
