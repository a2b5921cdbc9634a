-- ===== src/Usecase/Ranking/OneSet.antt =====
-- What the methods of the rankings do to their cache.
use hateblog_backend.Common.{
  ◌≡◌, refl, ◌⊎◌, inl, inr, Bool, true, false, Option, none, some, ℤ, Result, ok, err,
}
use hateblog_backend.Domain.Entry.{Time}
use hateblog_backend.Pkg.Apptime.{RangeError}
use hateblog_backend.Usecase.Ports.{Fault, EntryRepository, Cache}
use hateblog_backend.Usecase.Ranking.{
  Ranked, RankingError, with_cache_status, answer_lookup, store, given, given_limit,
}

-- A method leaves the cache as it is, or sets one value.
module _ {P : Type 0} (period_range : P → Result RangeError (Time × Time)) (repo : EntryRepository)
    (cache : Cache (P × ℤ) Ranked) (enabled : Bool) where
  abbrev pub IsOneSet : cache.Store → cache.Store → Type 0
  IsOneSet st st' = (st' ≡ st) ⊎ ((key : P × ℤ) × (r : Ranked) × (st' ≡ (cache.set st key r).0))

  store-IsOneSet :
      (use_cache : Bool) (key : P × ℤ) (a : Result RankingError Ranked) (st : cache.Store)
      → IsOneSet st (store period_range repo cache enabled use_cache key a st).1
  unfolding store
  store-IsOneSet use_cache key (err e) st = inl refl
  store-IsOneSet true key (ok r) st = inr (key, r, refl)
  store-IsOneSet false key (ok r) st = inl refl

  answer_lookup-IsOneSet :
      (found : Result Fault (Option Ranked)) (use_cache : Bool) (p : P) (l o m : ℤ)
      (st : cache.Store)
      → IsOneSet st (answer_lookup period_range repo cache enabled found use_cache p l o m st).1
  unfolding answer_lookup
  answer_lookup-IsOneSet (err f) use_cache p l o m st = inl refl
  answer_lookup-IsOneSet (ok (some r)) use_cache p l o m st = inl refl
  answer_lookup-IsOneSet (ok none) use_cache p l o m st = store-IsOneSet use_cache (p, m) _ st

  pub with_cache_status-IsOneSet :
      (p : P) (limit offset min_users : ℤ) (st : cache.Store)
      → IsOneSet st
          (with_cache_status period_range repo cache enabled p limit offset min_users st).1
  unfolding with_cache_status
  with_cache_status-IsOneSet p limit offset min_users st =
      answer_lookup-IsOneSet _ _ p (given_limit limit) (given offset) (given min_users) st
