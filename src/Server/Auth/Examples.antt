-- ===== src/Server/Auth/Examples.antt =====
-- A generated key at a table with expiry times in place of Redis.
use hateblog_backend.Common.{
  ℕ, zero, suc, ◌+◌, ◌*◌, ◌/◌, ◌%◌, ◌<◌, ◌≡◌, refl, ap, ◌⊎◌, Bool, true, ◌||◌, Option, none, some,
  List, [], ◌∷◌, ◌++◌, arith, ltb, ◌==◌, if◌then◌else◌, length, take, drop, ok, Bytes, codes,
  bytes_eq, bytes_eq_refl,
}
use hateblog_backend.Domain.Tag.{Uuid}
use hateblog_backend.Domain.Entry.{Time}
use hateblog_backend.Domain.ApiKey.{ApiKey, new, validate_params, is_longer, expires_before}
use hateblog_backend.Pkg.ApiKeyHash.{hash, hex_encode, hex_digit}
use hateblog_backend.Pkg.ApiKeyHash.Hex.{IsBytes}
use hateblog_backend.Usecase.ApiKeys.{
  Redis, Codec, GenerateParams, GeneratedApiKey, service_prefix, key_params, generate_api_key,
  store, time_to_live, redis_key,
}
use hateblog_backend.Usecase.ApiKeys.Stored.{IsRedis, IsCodec}
use hateblog_backend.Server.Auth.{allowed, dynamic_api_key_auth}
use hateblog_backend.Server.Auth.Keys.{dynamic_api_key_auth-generate_api_key}

-- The sum of the bytes in place of SHA-256.
abbrev pub checksum : ℕ → Bytes → Bytes
checksum n [] = n % 256 ∷ []
checksum n (c ∷ s) = checksum (n + c) s

checksum-IsBytes : (n : ℕ) (s : Bytes) → IsBytes (checksum n s)
checksum-IsBytes n [] = (omega arith, tt)
checksum-IsBytes n (c ∷ s) = checksum-IsBytes (n + c) s

-- Optional texts with their length in front.
abbrev put_text : Option Bytes → Bytes → Bytes
put_text none rest = 0 ∷ rest
put_text (some s) rest = suc (length s) ∷ (s ++ rest)

abbrev get_text : Bytes → Option Bytes × Bytes
get_text [] = (none, [])
get_text (zero ∷ rest) = (none, rest)
get_text (suc n ∷ rest) = (some (take n rest), drop n rest)

take-append : (s t : Bytes) → take (length s) (s ++ t) ≡ s
take-append [] t = refl
take-append (c ∷ s) t = ap (λ r. c ∷ r) (take-append s t)

drop-append : (s t : Bytes) → drop (length s) (s ++ t) ≡ t
drop-append [] t = refl
drop-append (c ∷ s) t = drop-append s t

get_text-put_text : (o : Option Bytes) (rest : Bytes) → get_text (put_text o rest) ≡ (o, rest)
get_text-put_text none rest = refl
get_text-put_text (some s) rest = λ i. (some (take-append s rest i), drop-append s rest i)

abbrev put_time : Option Time → ℕ
put_time none = 0
put_time (some t) = suc t

abbrev get_time : ℕ → Option Time
get_time zero = none
get_time (suc t) = some t

get_time-put_time : (o : Option Time) → get_time (put_time o) ≡ o
get_time-put_time none = refl
get_time-put_time (some t) = refl

abbrev write_key : ApiKey → Bytes
write_key k =
    k.id
    ∷ k.created_at
    ∷ put_time k.expires_at
    ∷ put_text k.name (
        put_text k.description (
          put_text k.created_ip
            (put_text k.created_user_agent (put_text k.created_referrer k.key_hash))))

abbrev read_key : Bytes → Option ApiKey
read_key (i ∷ c ∷ e ∷ rest) =
    let (name, r1) = get_text rest in
    let (description, r2) = get_text r1 in
    let (ip, r3) = get_text r2 in
    let (ua, r4) = get_text r3 in
    let (referrer, r5) = get_text r4 in
    some (record {
      id = i;
      key_hash = r5;
      name = name;
      description = description;
      created_at = c;
      expires_at = get_time e;
      created_ip = ip;
      created_user_agent = ua;
      created_referrer = referrer;
    })
read_key _ = none

abbrev read_id : Bytes → Option Uuid
read_id (i ∷ []) = some i
read_id _ = none

abbrev pub plain_codec : Codec
plain_codec = record {
  show_id = λ i. i ∷ [];
  parse_id = read_id;
  marshal = λ k. ok (write_key k);
  unmarshal = read_key;
}

pub plain_codec-IsCodec : IsCodec plain_codec
plain_codec-IsCodec = record {
  parse-show = λ i. refl;
  show_id-ne = λ i e. cc e;
  unmarshal-marshal = λ k b h.
      let r1 = put_text k.created_referrer k.key_hash in
      let r2 = put_text k.created_user_agent r1 in
      let r3 = put_text k.created_ip r2 in
      let r4 = put_text k.description r3 in
      let same : write_key k ≡ b = cc h in
      rw
        (
          ← same,
          get_text-put_text k.name r4,
          get_text-put_text k.description r3,
          get_text-put_text k.created_ip r2,
          get_text-put_text k.created_user_agent r1,
          get_text-put_text k.created_referrer k.key_hash,
          get_time-put_time k.expires_at,
        )
        refl;
}

-- The data of a key with the time at which it expires.
abbrev Items : Type 0
Items = List (Bytes × (Bytes × ℕ × Time))

abbrev is_live : ℕ → Time → Time → Bool
is_live ttl stored now = ttl == 0 || ltb now (stored + ttl / 1_000_000 * 1_000_000)

abbrev find : Items → Bytes → Time → Option Bytes
find [] k now = none
find ((j, (d, ttl, stored)) ∷ items) k now =
    let rest = find items k now in
    if bytes_eq j k then (if is_live ttl stored now then some d else none) else rest

abbrev pub plain_redis : Redis
plain_redis = record {
  State = Items;
  set = λ st k d ttl now. ((k, (d, ttl, now)) ∷ st, true);
  get = λ st k now. ok (find st k now);
}

live_of_kept :
    (ttl now later : ℕ)
    → (ttl ≡ 0) ⊎ (later < now + ttl / 1_000_000 * 1_000_000)
    → is_live ttl now later ≡ true
live_of_kept ttl now later h = ground arith

pub plain_redis-IsRedis : IsRedis plain_redis
plain_redis-IsRedis = record {
  get-set = λ st k d ttl now later taken le kept.
      rw (bytes_eq_refl k, live_of_kept ttl now later kept) refl;
}

abbrev sample_request : GenerateParams
sample_request = record {
  name = some (codes "ci");
  description = none;
  expires_at = some 900_000_000;
  created_ip = none;
  created_ua = none;
  created_ref = none;
}

abbrev pub sample_random : Bytes
sample_random = 1 ∷ 254 ∷ []

abbrev sample_generated : GeneratedApiKey
sample_generated = record {
  id = 7;
  key = codes "hb_live_01fe";
  name = some (codes "ci");
  description = none;
  created_at = 100;
  expires_at = some 900_000_000;
}

abbrev sample_made : ApiKey
sample_made = key_params plain_redis plain_codec (checksum 0) [] sample_request 7 sample_random 100

abbrev pub sample_state : Items
sample_state = (redis_key plain_redis plain_codec 7, (write_key sample_made, 899_999_800, 200)) ∷ []

generate_sample :
    generate_api_key plain_redis plain_codec
      (checksum 0)
      []
      sample_request
      7
      (some sample_random)
      100
      200
      []
    ≡ (ok sample_generated, sample_state)
unfolding generate_api_key new validate_params is_longer expires_before store time_to_live
    service_prefix hex_encode hex_digit hash
generate_sample = refl

dynamic_api_key_auth-generate_api_key_example :
    dynamic_api_key_auth plain_redis plain_codec
      (checksum 0)
      true
      (7 ∷ [])
      (codes "hb_live_01fe")
      300
      sample_state
    ≡ allowed
dynamic_api_key_auth-generate_api_key_example =
    dynamic_api_key_auth-generate_api_key plain_redis plain_codec (checksum 0) plain_redis-IsRedis
      plain_codec-IsCodec [] sample_request 7 sample_random 100 200 300 [] sample_state
      sample_generated generate_sample (omega arith) (omega arith)
