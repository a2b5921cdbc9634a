-- ===== src/Usecase/Favicon/Examples.antt =====
-- Examples of icons fetched twice.
use hateblog_backend.Common.{
  ◌≡◌, refl, ap, subst, inl, inr, Bool, true, false, Option, none, some, List, [], ◌∷◌,
  Option-cases, Result, ok, Bytes, codes, bytes_eq, bytes_eq_refl, is_empty, trim_space, has_prefix,
  find_text,
}
use hateblog_backend.Usecase.Ports.{Fault, found}
use hateblog_backend.Pkg.Hostname.{normalize}
use hateblog_backend.Usecase.Favicon.{
  Icon, RedisClient, IconCodec, icon_key, negative_key, limit_key, cached_icon, is_negative, fetch,
}
use hateblog_backend.Usecase.Favicon.Twice.{IsKept, served, fetch_twice}

abbrev pub url_host : Bytes → Option Bytes
url_host s = none

abbrev pub same : Bytes → Bytes
same s = s

abbrev set_if_free : List (Bytes × Bytes) → Bytes → Bytes → List (Bytes × Bytes) × Result Fault Bool
set_if_free st k v = elim (find_text st k) [
  | none ↦ ((k, v) ∷ st, ok true)
  | some w ↦ (st, ok false)
]

set_if_free_other :
    (st : List (Bytes × Bytes)) (k v j : Bytes)
    → bytes_eq k j ≡ false
    → find_text (set_if_free st k v).0 j ≡ find_text st j
set_if_free_other st k v j h = elim (Option-cases (find_text st k)) [
  | inl free ↦ rw (set_if_free, free, h) refl
  | inr (w, taken) ↦ rw (set_if_free, taken) refl
]

-- Keys with their values; nothing expires.
abbrev pub redis : RedisClient
redis = record {
  State = List (Bytes × Bytes);
  get = λ st k. ok (find_text st k);
  set = λ st k v. (k, v) ∷ st;
  set_nx = set_if_free;
}

redis-IsKept : IsKept redis
redis-IsKept = record {
  get-set = λ st k v. ap ok (rw (bytes_eq_refl k) refl);
  get-set_other = λ st k v j h. ap ok (rw h refl);
  get-set_nx_other = λ st k v j h. ap ok (set_if_free_other st k v j h);
}

abbrev pub icon : Icon
icon = record { bytes = 9 ∷ []; content_type = codes "image/png" }

abbrev pub codec : IconCodec
codec = record {
  marshal = λ i. i.bytes;
  unmarshal = λ s. some (record { bytes = s; content_type = codes "image/png" });
}

abbrev pub fetcher : Bytes → Option Icon
fetcher domain = some icon

pub a_host : normalize url_host same (codes "a.jp") ≡ ok (codes "a.jp")
unfolding normalize trim_space has_prefix
a_host = refl

-- The failure of one host is kept under the key of another host's limit.
keys_test : negative_key (icon_key (codes "ratelimit")) ≡ limit_key (codes "neg")
unfolding negative_key icon_key limit_key
keys_test = refl

fetched :
    (i : Icon)
    → fetcher (codes "a.jp") ≡ some i
    → (codec.unmarshal (codec.marshal i) ≡ some i) × (is_empty i.bytes ≡ false)
fetched i h =
    let same_icon : icon ≡ i = cc h in
    subst (λ x. (codec.unmarshal (codec.marshal x) ≡ some x) × (is_empty x.bytes ≡ false)) same_icon
      (refl, refl)

fetch_twice_example :
    (later : List (Bytes × Bytes)) × (fetch url_host same redis codec icon fetcher [] (codes "a.jp")
      ≡ (later, served url_host same redis codec icon fetcher redis-IsKept false (some icon)))
    × (fetch url_host same redis codec icon fetcher later (codes "a.jp")
        ≡ (later, served url_host same redis codec icon fetcher redis-IsKept true (some icon)))
unfolding is_negative cached_icon found
fetch_twice_example =
    fetch_twice url_host same redis codec icon fetcher redis-IsKept [] (codes "a.jp") (codes "a.jp")
      a_host refl refl refl fetched
