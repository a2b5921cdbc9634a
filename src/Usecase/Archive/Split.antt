-- ===== src/Usecase/Archive/Split.antt =====
-- What the split by the present day keeps, on that day and on the next.
use hateblog_backend.Common.{
  ◌≡◌, refl, ap, inl, inr, Bool, true, false, not, Option, none, some, List, [], ◌∷◌, if◌then◌else◌,
  Bool-cases, All, ℤ, Result, ok, err,
}
use hateblog_backend.Usecase.Ports.{Fault, Cache}
use hateblog_backend.Usecase.Archive.{
  Date, ArchiveCount, ArchiveError, is_allowed_min_users, is_same_date, today_of, past_of, merge,
  get_from_cache, set_past, store_in_cache, fetch_counts, answer_counts, min_users_not_allowed,
  infra, list_with_cache_status,
}

-- No count is of the day.
abbrev pub IsPast : Date → List ArchiveCount → Type 0
IsPast today = All (λ c. is_same_date c.date today ≡ false)

-- Only the first count may be of the present day, as in a list by falling date without dates to
-- come and without a date twice.
abbrev pub IsListed : Date → List ArchiveCount → Type 0
IsListed today [] = Unit
IsListed today (c ∷ cs) = IsPast today cs

today_of_past :
    (today : Date) (cs : List ArchiveCount) (o : Option ArchiveCount)
    → IsPast today cs
    → today_of today cs o ≡ o
unfolding today_of
today_of_past today [] o h = refl
today_of_past today (c ∷ cs) o (h, hs) = rw h (today_of_past today cs o hs)

past_of_past : (today : Date) (cs : List ArchiveCount) → IsPast today cs → past_of today cs ≡ cs
unfolding past_of
past_of_past today [] h = refl
past_of_past today (c ∷ cs) (h, hs) = rw h (ap (λ ds. c ∷ ds) (past_of_past today cs hs))

-- On the same day, the two parts of a list whose first count alone may be of that day, put
-- together, are the list.
pub merge_split :
    (today : Date) (cs : List ArchiveCount)
    → IsListed today cs
    → merge today (today_of today cs none) (past_of today cs) ≡ cs
unfolding merge today_of past_of
merge_split today [] h = refl
merge_split today (c ∷ cs) h = elim (Bool-cases (is_same_date c.date today)) [
  | inl same ↦ rw (same, today_of_past today cs (some c) h, same, past_of_past today cs h) refl
  | inr other ↦
      rw (other, today_of_past today cs none h) (ap (λ ds. c ∷ ds) (past_of_past today cs h))
]

-- On another day, the count of the day of the split is gone from what the two parts give: the list
-- lacks that day, although the repository counted entries on it.
pub merge_split_later :
    (day later : Date) (c : ArchiveCount) (cs : List ArchiveCount)
    → IsPast day cs
    → is_same_date c.date day ≡ true
    → is_same_date c.date later ≡ false
    → merge later (today_of day (c ∷ cs) none) (past_of day (c ∷ cs)) ≡ cs
unfolding merge today_of past_of
merge_split_later day later c cs h same other =
    rw (same, today_of_past day cs (some c) h, other) (past_of_past day cs h)

-- A cache in which a value that was set is found, as Redis does before the value expires.
pub record Keeps {K V : Type 0} (cache : Cache K V) : Type 0 where
  pub set_ok : (st : cache.Store) (k : K) (v : V) → (cache.set st k v).1 ≡ ok tt
  pub get-set_same :
      (st : cache.Store) (k : K) (v : V) → cache.get (cache.set st k v).0 k ≡ ok (some v)

module _ (repo : ℤ → Result Fault (List ArchiveCount)) (today_cache : Cache ℤ (Option ArchiveCount))
    (past_cache : Cache ℤ (List ArchiveCount)) where
  set_past_kept :
      Keeps past_cache
      → (ts : today_cache.Store) (r : Result Fault (Unit {0})) (m : ℤ) (past : List ArchiveCount)
        (ps : past_cache.Store)
      → r ≡ ok tt
      → set_past repo today_cache past_cache (ts, r) m past ps ≡ (ts, (past_cache.set ps m past).0)
  unfolding set_past
  set_past_kept keeps ts (ok u) m past ps h = refl
  set_past_kept keeps ts (err f) m past ps h = cc h

  -- What is stored on a day and read on that day or another is the merge of the two parts.
  pub get_from_cache-store_in_cache :
      Keeps today_cache
      → Keeps past_cache
      → (day later : Date) (m : ℤ) (items : List ArchiveCount) (ts : today_cache.Store)
        (ps : past_cache.Store)
      → get_from_cache repo today_cache past_cache later m
          (store_in_cache repo today_cache past_cache day m items (ts, ps))
        ≡ ok (some (merge later (today_of day items none) (past_of day items)))
  unfolding get_from_cache store_in_cache
  get_from_cache-store_in_cache keep_today keep_past day later m items ts ps =
      let today = today_of day items none in
      let past = past_of day items in
      let out = today_cache.set ts m today in
      rw
        (
          set_past_kept keep_past out.0 out.1 m past ps (keep_today.set_ok ts m today),
          keep_today.get-set_same ts m today,
          keep_past.get-set_same ps m past,
        )
        refl

  answer_counts_missed :
      (o : Result Fault (Option (List ArchiveCount))) (today : Date) (m : ℤ)
      (items : List ArchiveCount) (st : today_cache.Store × past_cache.Store)
      → (answer_counts repo today_cache past_cache o today m st).0 ≡ ok (items, false)
      → (answer_counts repo today_cache past_cache o today m st).1
        ≡ store_in_cache repo today_cache past_cache today m items st
  unfolding answer_counts fetch_counts
  answer_counts_missed (err f) today m items st h = cc h
  answer_counts_missed (ok (some found)) today m items st h = cc h
  answer_counts_missed (ok none) today m items st h = go (repo m) h
    where
      fetched :
          Result Fault (List ArchiveCount)
          → Result ArchiveError (List ArchiveCount × Bool) × (today_cache.Store × past_cache.Store)
      fetched r = elim r [
        | err f ↦ (err (infra f), st)
        | ok found ↦
            (ok (found, false), store_in_cache repo today_cache past_cache today m found st)
      ]

      go :
          (r : Result Fault (List ArchiveCount))
          → (fetched r).0 ≡ ok (items, false)
          → (fetched r).1 ≡ store_in_cache repo today_cache past_cache today m items st
      go (err f) e = cc e
      go (ok found) e = cc e

  refuse :
      (b : Bool)
      (x : Result ArchiveError (List ArchiveCount × Bool) × (today_cache.Store × past_cache.Store))
      (st : today_cache.Store × past_cache.Store) {r : List ArchiveCount × Bool}
      → (if not b then (err min_users_not_allowed, st) else x).0 ≡ ok r
      → (b ≡ true) × (x.0 ≡ ok r)
  refuse true x st h = (refl, h)
  refuse false x st h = cc h

  -- For a list whose first count alone may be of the present day: a call that answers it from the
  -- repository is followed, on the same day and while the caches keep their values, by a hit with
  -- the same answer.
  pub list_with_cache_status_twice :
      Keeps today_cache
      → Keeps past_cache
      → (today : Date) (m : ℤ) (items : List ArchiveCount) (ts : today_cache.Store)
        (ps : past_cache.Store)
      → IsListed today items
      → let call = list_with_cache_status repo today_cache past_cache true today m in
        (call (ts, ps)).0 ≡ ok (items, false) → (call (call (ts, ps)).1).0 ≡ ok (items, true)
  unfolding list_with_cache_status
  list_with_cache_status_twice keep_today keep_past today m items ts ps listed h =
      let missed = get_from_cache repo today_cache past_cache today m (ts, ps) in
      let out = answer_counts repo today_cache past_cache missed today m (ts, ps) in
      let (allowed, h') = refuse (is_allowed_min_users m) out (ts, ps) h in
      rw
        (
          allowed,
          answer_counts_missed missed today m items (ts, ps) h',
          get_from_cache-store_in_cache keep_today keep_past today today m items ts ps,
          merge_split today items listed,
        )
        (unfold answer_counts in refl)
