-- ===== src/Infra/Redis/Examples.antt =====
-- The theorems about the caches in Redis, with a table as Redis.
use hateblog_backend.Common.{
  ◌+◌, ◌*◌, ◌/◌, ◌%◌, ◌≡◌, refl, sym, ap, ap₂, subst, ◌⊎◌, inl, inr, Bool, true, false, not, ◌&&◌,
  Option, none, some, List, [], ◌∷◌, map, arith, ◌==◌, if◌then◌else◌, Bool-cases, drop, ℤ, pos,
  negsuc, pos_part, leb_ℤ, Result, ok, err, Bytes, bytes_eq, bytes_eq_sound, is_empty, find_text,
}
use hateblog_backend.Pkg.Apptime.{Calendar}
use hateblog_backend.Usecase.Ports.{Fault, fault, EntryRepository, IsLimited}
use hateblog_backend.Usecase.Ranking.{Ranked, infra}
use hateblog_backend.Usecase.Ranking.Coherence.{with_status}
use hateblog_backend.Infra.Decimal.{decimal}
use hateblog_backend.Infra.Decimal.Printed.{colon_free}
use hateblog_backend.Infra.Redis.{
  store_encoded, decoded, or_miss, snappy_set, get_bytes, snappy_get, Args, Entry, RedisClient,
  RedisError, redis_nil, IsRedis, Codec, Snappy, IsFaithful, CacheTtlConfig, CacheKind, day_entries,
  tag_entries, search_results, tags_list, archive_today, archive_past, yearly_ranking,
  monthly_ranking, weekly_ranking, cache_key,
}
use hateblog_backend.Infra.Redis.Keys.{cache_key_lem, IsSame}
use hateblog_backend.Infra.Redis.Lawful.{api_cache-get-set, at_time, IsJustSet}
use hateblog_backend.Infra.Redis.Rankings.{
  Value, Call, yearly, serve_lem, AreCoherent, serve, direct, lookup,
}

abbrev Table : Type 0
Table = List (Bytes × Bytes)

abbrev or_nil : Option Bytes → Result RedisError Bytes
or_nil none = err redis_nil
or_nil (some v) = ok v

abbrev redis : RedisClient
redis = record {
  Server = Table;
  get = λ st k. or_nil (find_text st k);
  set = λ st k v ttl. ((k, v) ∷ st, ok tt);
}

redis-IsRedis : IsRedis redis
redis-IsRedis = record {
  get-set = λ st k v ttl j w h. elim (Bool-cases (bytes_eq k j)) [
    | inl same ↦ inl (sym (bytes_eq_sound k j same), sym (hit st k v j w same h))
    | inr other ↦ inr (miss st k v j w other h)
  ];
}
  where
    hit :
        (st : Table) (k v j w : Bytes)
        → bytes_eq k j ≡ true
        → or_nil (if bytes_eq k j then some v else find_text st j) ≡ ok w
        → v ≡ w
    hit st k v j w same h = cc (h, same)

    miss :
        (st : Table) (k v j w : Bytes)
        → bytes_eq k j ≡ false
        → or_nil (if bytes_eq k j then some v else find_text st j) ≡ ok w
        → or_nil (find_text st j) ≡ ok w
    miss st k v j w other h = cc (h, other)

abbrev plain : Snappy
plain = record { encode = λ s. s; decode = λ s. ok s }

-- Rankings without entries are written as their total; nothing else is encoded.
abbrev write_ranked : Ranked → Result Fault Bytes
write_ranked r =
    if is_empty r.entries && leb_ℤ (pos 0) r.total
    then ok (pos_part r.total ∷ [])
    else err (fault 1)

abbrev read_ranked : Bytes → Result Fault Ranked
read_ranked (n ∷ []) = ok (record { entries = []; total = pos n })
read_ranked _ = err (fault 2)

abbrev rankings_only : {V : Type 0} → Codec V
rankings_only = record { marshal = λ v. err (fault 1); unmarshal = λ s. err (fault 2) }

abbrev ranked : Codec Ranked
ranked = record { marshal = write_ranked; unmarshal = read_ranked }

abbrev codec : (k : CacheKind) → Codec (Value k)
codec yearly_ranking = ranked
codec monthly_ranking = ranked
codec weekly_ranking = ranked
codec day_entries = rankings_only
codec tag_entries = rankings_only
codec search_results = rankings_only
codec tags_list = rankings_only
codec archive_today = rankings_only
codec archive_past = rankings_only

ranked-IsFaithful : IsFaithful ranked plain
ranked-IsFaithful = record {
  decode-encode = λ s. refl;
  unmarshal-marshal = λ v b h. again v.entries v.total b h;
}
  where
    of : List Entry → ℤ → Ranked
    of es total = record { entries = es; total = total }

    again :
        (es : List Entry) (total : ℤ) (b : Bytes)
        → write_ranked (of es total) ≡ ok b
        → read_ranked b ≡ ok (of es total)
    again [] (pos n) b h =
        let yes : leb_ℤ (pos 0) (pos n) ≡ true = ground arith in
        let same : n ∷ [] ≡ b = cc (h, yes) in rw (← same) refl
    again [] (negsuc n) b h = let no : leb_ℤ (pos 0) (negsuc n) ≡ false = ground arith in cc (h, no)
    again (e ∷ es) total b h = cc h

nothing-IsFaithful : {V : Type 0} → IsFaithful (rankings_only {V = V}) plain
nothing-IsFaithful = record { decode-encode = λ s. refl; unmarshal-marshal = λ v b h. cc h }

codec-IsFaithful : (k : CacheKind) → IsFaithful (codec k) plain
codec-IsFaithful yearly_ranking = ranked-IsFaithful
codec-IsFaithful monthly_ranking = ranked-IsFaithful
codec-IsFaithful weekly_ranking = ranked-IsFaithful
codec-IsFaithful day_entries = nothing-IsFaithful
codec-IsFaithful tag_entries = nothing-IsFaithful
codec-IsFaithful search_results = nothing-IsFaithful
codec-IsFaithful tags_list = nothing-IsFaithful
codec-IsFaithful archive_today = nothing-IsFaithful
codec-IsFaithful archive_past = nothing-IsFaithful

-- In place of url.QueryEscape: a shift that leaves no colon.
abbrev shift : Bytes → Bytes
shift = map (λ c. c + 59)

shift-colon_free : (s : Bytes) → colon_free (shift s) ≡ true
shift-colon_free [] = refl
shift-colon_free (c ∷ s) =
    let here : not ((c + 59) == b':') ≡ true = ground arith in rw (here, shift-colon_free s) refl

shift-injective : (s t : Bytes) → shift s ≡ shift t → s ≡ t
shift-injective [] [] h = refl
shift-injective [] (d ∷ t) h = cc h
shift-injective (c ∷ s) [] h = cc h
shift-injective (c ∷ s) (d ∷ t) h =
    let same : c + 59 ≡ d + 59 = cc h in
    ap₂ (λ x y. x ∷ y) (omega arith) (shift-injective s t (ap (drop 1) h))

abbrev calendar : Calendar
calendar = record {
  date = λ y m d. pos_part y * 1000 + pos_part m * 50 + pos_part d;
  add_date = λ t y m d. t + pos_part y * 1000 + pos_part m * 50 + pos_part d;
  weekday = λ t. 1;
  iso_week = λ t. (pos (t / 1000), pos 1);
  parse = λ s. none;
  civil = λ t. (pos (t / 1000), pos (t % 1000 / 50), pos (t % 50));
}

abbrev ttls : CacheTtlConfig
ttls = record {
  entries_day_ttl = pos 5;
  tag_entries_ttl = pos 10;
  search_ttl = pos 15;
  tags_list_ttl = pos 20;
  archive_ttl = pos 25;
  yearly_ranking_current_ttl = pos 30;
  yearly_ranking_past_ttl = pos 35;
  monthly_ranking_current_ttl = pos 40;
  monthly_ranking_past_ttl = pos 45;
  weekly_ranking_current_ttl = pos 50;
  weekly_ranking_past_ttl = pos 55;
}

abbrev empty_repo : EntryRepository
empty_repo = record { list = λ q. ok []; count = λ q. ok (pos 7) }

empty_repo-IsLimited : IsLimited empty_repo
empty_repo-IsLimited = record {
  list_le_limit = λ q es h e. let same : [] ≡ es = cc e in rw (← same) (omega arith);
}

abbrev id : Bytes → Bytes
id s = s

cache_key_lem_example :
    (e : yearly_ranking ≡ yearly_ranking) × IsSame id shift id shift-colon_free shift-injective
      yearly_ranking
      (subst Args e (pos 2024, pos 5))
      (pos 2024, pos 5)
cache_key_lem_example =
    cache_key_lem id shift id shift-colon_free shift-injective yearly_ranking (pos 2024, pos 5)
      yearly_ranking (pos 2024, pos 5) tt tt refl

abbrev answer7 : Ranked
answer7 = record { entries = []; total = pos 7 }

found_again :
    (at_time redis plain Value codec id shift id ttls calendar redis-IsRedis codec-IsFaithful
        shift-colon_free shift-injective 3 yearly_ranking).get
      ((at_time redis plain Value codec id shift id ttls calendar redis-IsRedis codec-IsFaithful
          shift-colon_free shift-injective 1 yearly_ranking).set
        []
        (pos 2024, pos 5)
        answer7).0
      (pos 2024, pos 5)
    ≡ ok (some answer7)
unfolding snappy_get snappy_set get_bytes or_miss decoded store_encoded cache_key decimal
found_again = refl

api_cache-get-set_example :
    IsJustSet redis plain Value codec id shift id ttls calendar redis-IsRedis codec-IsFaithful
      shift-colon_free shift-injective yearly_ranking
      (pos 2024, pos 5)
      answer7
      yearly_ranking
      (pos 2024, pos 5)
      answer7
    ⊎ ((at_time redis plain Value codec id shift id ttls calendar redis-IsRedis codec-IsFaithful
            shift-colon_free shift-injective 3 yearly_ranking).get
          []
          (pos 2024, pos 5)
        ≡ ok (some answer7))
api_cache-get-set_example =
    api_cache-get-set redis plain Value codec id shift id ttls calendar redis-IsRedis
      codec-IsFaithful shift-colon_free shift-injective 1 3 yearly_ranking (pos 2024, pos 5) answer7
      yearly_ranking (pos 2024, pos 5) answer7 [] tt tt found_again

empty-AreCoherent :
    AreCoherent redis plain codec id shift id ttls calendar redis-IsRedis codec-IsFaithful
      shift-colon_free shift-injective empty_repo true 2 []
unfolding snappy_get get_bytes or_miss decoded
empty-AreCoherent = (λ p m r h. cc h, λ p m r h. cc h, λ p m r h. cc h)

abbrev call : Call
call = yearly (pos 2024) (pos 100) (pos 0) (pos 5)

serve_lem_example :
    (((hit : Bool) × ((serve redis plain codec id shift id ttls calendar redis-IsRedis
            codec-IsFaithful shift-colon_free shift-injective empty_repo true 2 call []).0
          ≡ with_status hit (
              direct redis plain codec id shift id ttls calendar redis-IsRedis codec-IsFaithful
                shift-colon_free shift-injective empty_repo true call)))
      ⊎ ((f : Fault) × (lookup redis plain codec id shift id ttls calendar redis-IsRedis
              codec-IsFaithful shift-colon_free shift-injective empty_repo true 2 call []
            ≡ err f)
          × ((serve redis plain codec id shift id ttls calendar redis-IsRedis codec-IsFaithful
                shift-colon_free shift-injective empty_repo true 2 call []).0
              ≡ err (infra f))))
    × AreCoherent redis plain codec id shift id ttls calendar redis-IsRedis codec-IsFaithful
        shift-colon_free shift-injective empty_repo true 2
        (serve redis plain codec id shift id ttls calendar redis-IsRedis codec-IsFaithful
          shift-colon_free shift-injective empty_repo true 2 call []).1
serve_lem_example =
    serve_lem redis plain codec id shift id ttls calendar redis-IsRedis codec-IsFaithful
      shift-colon_free shift-injective empty_repo true empty_repo-IsLimited 2 call []
      empty-AreCoherent
