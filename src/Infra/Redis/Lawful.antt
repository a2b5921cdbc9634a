-- ===== src/Infra/Redis/Lawful.antt =====
-- The nine caches over one Redis, and the laws of the interface that the use cases take.
use hateblog_backend.Common.{
  ◌≡◌, refl, sym, subst, ◌⊎◌, inl, inr, true, some, ℤ, Result, ok, err, ◌>>=◌, >>=-eq-ok, Bytes,
}
use hateblog_backend.Pkg.Apptime.{Calendar}
use hateblog_backend.Domain.Entry.{Time}
use hateblog_backend.Usecase.Ports.{Fault, Cache}
use hateblog_backend.Infra.Decimal.Printed.{colon_free}
use hateblog_backend.Infra.Redis.{
  RedisError, redis_nil, redis_failed, RedisClient, IsRedis, or_miss, get_bytes, Codec, Snappy,
  IsFaithful, decoded, snappy_get, store_encoded, snappy_set, CacheTtlConfig, CacheKind, Args,
  cache_key, cache_ttl, api_cache,
}
use hateblog_backend.Infra.Redis.Keys.{cache-IsSame, IsSame, HasPlainSort, cache_key_lem}

module _ (r : RedisClient) (snappy : Snappy) {V : Type 0} (codec : Codec V) where
  -- A value is found where its payload is.
  decoded_of_payload :
      (m : Result RedisError Bytes) (w : V)
      → decoded r snappy codec (or_miss m) ≡ ok (some w)
      → (payload : Bytes) × (m ≡ ok payload) × ((snappy.decode payload >>= codec.unmarshal) ≡ ok w)
  unfolding decoded or_miss
  decoded_of_payload (err redis_nil) w h = cc h
  decoded_of_payload (err (redis_failed f)) w h = cc h
  decoded_of_payload (ok payload) w h =
      let (json_data, a, h1) = >>=-eq-ok (snappy.decode payload) _ h in
      let (out, b, c) = >>=-eq-ok (codec.unmarshal json_data) _ h1 in
      let same : out ≡ w = cc c in (payload, refl, rw (a, b, same) refl)

  -- A Set that fails to encode leaves Redis as it is; else one payload is set.
  store_encoded-found :
      IsRedis r
      → (m : Result Fault Bytes) (ttl : ℤ) (st : r.Server) (k j payload : Bytes)
      → r.get (store_encoded r snappy codec m ttl st k).0 j ≡ ok payload
      → ((b : Bytes) × (m ≡ ok b) × (j ≡ k) × (payload ≡ snappy.encode b))
        ⊎ (r.get st j ≡ ok payload)
  unfolding store_encoded
  store_encoded-found law (err f) ttl st k j payload h = inr h
  store_encoded-found law (ok b) ttl st k j payload h =
      elim (law.get-set st k (snappy.encode b) ttl j payload h) [
        | inl (same, is_v) ↦ inl (b, refl, same, is_v)
        | inr before ↦ inr before
      ]

module _ (r : RedisClient) (snappy : Snappy) (V : CacheKind → Type 0)
    (codec : (k : CacheKind) → Codec (V k)) (to_lower query_escape sha256 : Bytes → Bytes)
    (c : CacheTtlConfig) (calendar : Calendar) where
  -- The nine caches, at the time of a call.
  abbrev pub cache_at : Time → (k : CacheKind) → Cache (Args k) (V k)
  cache_at now k = api_cache r snappy (codec k) to_lower query_escape sha256 c calendar now k

  found_as_before :
      (now : Time) (j : CacheKind) (b : Args j) (w : V j) (st : r.Server) (payload : Bytes)
      → r.get st (cache_key to_lower query_escape sha256 j b) ≡ ok payload
      → ((snappy.decode payload >>= (codec j).unmarshal) ≡ ok w)
      → snappy_get r snappy (codec j) st (cache_key to_lower query_escape sha256 j b) ≡ ok (some w)
  unfolding snappy_get decoded get_bytes or_miss
  found_as_before now j b w st payload h k =
      let (json_data, p, q) = >>=-eq-ok (snappy.decode payload) _ k in rw (h, p, q) refl

module _ (r : RedisClient) (snappy : Snappy) (V : CacheKind → Type 0)
    (codec : (k : CacheKind) → Codec (V k)) (to_lower query_escape sha256 : Bytes → Bytes)
    (c : CacheTtlConfig) (calendar : Calendar) (law : IsRedis r)
    (faithful : (k : CacheKind) → IsFaithful (codec k) snappy)
    (escape_free : (s : Bytes) → colon_free (query_escape s) ≡ true)
    (escape_injective : (s t : Bytes) → query_escape s ≡ query_escape t → s ≡ t) where
  abbrev pub at_time : Time → (k : CacheKind) → Cache (Args k) (V k)
  at_time = cache_at r snappy V codec to_lower query_escape sha256 c calendar

  -- The arguments of the Set are those of the Get, and the value is the one set.
  abbrev pub IsJustSet : (k : CacheKind) → Args k → V k → (j : CacheKind) → Args j → V j → Type 0
  IsJustSet k a v j b w =
      (e : k ≡ j) × IsSame to_lower query_escape sha256 escape_free escape_injective j
        (subst Args e a) b
      × (subst V e v ≡ w)

  read_back_at :
      (k : CacheKind) (v : V k) (json : Bytes) (j : CacheKind) (e : k ≡ j)
      → (codec k).marshal v ≡ ok json
      → (codec j).unmarshal json ≡ ok (subst V e v)
  read_back_at k v json j e h =
      coe 0 1 (i. (codec (e i)).unmarshal json ≡ ok (coe 0 i (l. V (e l)) v))
        ((faithful k).unmarshal-marshal v json h)

  read_back :
      {W : Type 0} (codec' : Codec W)
      (undone : (s : Bytes) → snappy.decode (snappy.encode s) ≡ ok s) (payload json : Bytes)
      {v' : W} (w : W)
      → payload ≡ snappy.encode json
      → codec'.unmarshal json ≡ ok v'
      → (snappy.decode payload >>= codec'.unmarshal) ≡ ok w
      → v' ≡ w
  read_back codec' undone payload json {v' = v'} w payload_is reads h =
      let both : (snappy.decode payload >>= codec'.unmarshal) ≡ ok v' =
        rw (payload_is, undone json) reads in
      cc (both, h)

  -- A value found after a Set stands in the JSON text just written, under an equal key, or was
  -- there before.
  found_payload :
      (earlier now : Time) (k : CacheKind) (a : Args k) (v : V k) (j : CacheKind) (b : Args j)
      (w : V j) (st : r.Server)
      → (at_time now j).get ((at_time earlier k).set st a v).0 b ≡ ok (some w)
      → ((json : Bytes) × ((codec k).marshal v ≡ ok json)
          × (cache_key to_lower query_escape sha256 k a
              ≡ cache_key to_lower query_escape sha256 j b)
          × ((v' : V j) → (codec j).unmarshal json ≡ ok v' → v' ≡ w))
        ⊎ ((at_time now j).get st b ≡ ok (some w))
  unfolding snappy_get snappy_set get_bytes
  found_payload earlier now k a v j b w st h =
      let (payload, at_b, reads) = decoded_of_payload r snappy (codec j) _ w h in
      elim (store_encoded-found r snappy (codec k) law ((codec k).marshal v)
        (cache_ttl c calendar earlier k a) st (cache_key to_lower query_escape sha256 k a)
        (cache_key to_lower query_escape sha256 j b) payload at_b) [
          | inl (json, written, same, payload_is) ↦ inl (
            json,
            written,
            sym same,
            λ v' again.
                read_back (codec j) (faithful k).decode-encode payload json w payload_is again
                  reads,
          )
          | inr before ↦ inr (
              found_as_before r snappy V codec to_lower query_escape sha256 c calendar now j b w st
                payload before reads)
        ]

  -- For a Redis in which only what was set is found, and codecs that read back what they wrote:
  -- what one of the nine caches finds after a Set through the same or another one is the value just
  -- set, by the same cache for the same arguments, or was there before. The sorts in the arguments
  -- have no colon; url.QueryEscape leaves no colon and can be undone.
  pub api_cache-get-set :
      (earlier now : Time) (k : CacheKind) (a : Args k) (v : V k) (j : CacheKind) (b : Args j)
      (w : V j) (st : r.Server)
      → HasPlainSort to_lower query_escape sha256 escape_free escape_injective k a
      → HasPlainSort to_lower query_escape sha256 escape_free escape_injective j b
      → (at_time now j).get ((at_time earlier k).set st a v).0 b ≡ ok (some w)
      → IsJustSet k a v j b w ⊎ ((at_time now j).get st b ≡ ok (some w))
  api_cache-get-set earlier now k a v j b w st p q h =
      elim (found_payload earlier now k a v j b w st h) [
        | inl (json, written, same, reads) ↦
            let (e, same_args) =
              cache_key_lem to_lower query_escape sha256 escape_free escape_injective k a j b p q
                same in
            inl (e, same_args, reads (subst V e v) (read_back_at k v json j e written))
        | inr before ↦ inr before
      ]

  -- The same for one cache.
  pub api_cache-get-set-IsSame :
      (earlier now : Time) (k : CacheKind) (a : Args k) (v : V k) (b : Args k) (w : V k)
      (st : r.Server)
      → HasPlainSort to_lower query_escape sha256 escape_free escape_injective k a
      → HasPlainSort to_lower query_escape sha256 escape_free escape_injective k b
      → (at_time now k).get ((at_time earlier k).set st a v).0 b ≡ ok (some w)
      → (IsSame to_lower query_escape sha256 escape_free escape_injective k a b × (v ≡ w))
        ⊎ ((at_time now k).get st b ≡ ok (some w))
  api_cache-get-set-IsSame earlier now k a v b w st p q h =
      elim (found_payload earlier now k a v k b w st h) [
        | inl (json, written, same, reads) ↦ inl (
          cache-IsSame to_lower query_escape sha256 escape_free escape_injective k a b p q same,
          reads v ((faithful k).unmarshal-marshal v json written),
        )
        | inr before ↦ inr before
      ]
