-- ===== src/Usecase/Tags/Listing.antt =====
-- The cache of the tag list is transparent.
use hateblog_backend.Common.{
  ◌≡◌, refl, ◌⊎◌, inl, inr, Bool, true, false, Option, none, some, List, if◌then◌else◌, ℤ, Result,
  ok, err,
}
use hateblog_backend.Domain.Tag.{Tag}
use hateblog_backend.Usecase.Ports.{Fault, Cache, IsCache}
use hateblog_backend.Usecase.Tags.{
  TagRepository, TagsError, infra, or_infra, page_key, store_tags, answer_tags,
  list_with_cache_status,
}

module _ (repo : TagRepository) (cache : Cache (ℤ × ℤ) (List Tag)) (enabled : Bool) where
  -- What the repository answers for a limit and an offset.
  abbrev pub listed : ℤ × ℤ → Result TagsError (List Tag)
  listed (limit, offset) = or_infra (repo.list limit offset)

  -- Every list in the cache is what the repository answers.
  abbrev pub IsCoherent : cache.Store → Type 0
  IsCoherent st =
      (key : ℤ × ℤ) (tags : List Tag) → cache.get st key ≡ ok (some tags) → listed key ≡ ok tags

  abbrev pub with_status : Bool → Result TagsError (List Tag) → Result TagsError (List Tag × Bool)
  with_status hit (ok tags) = ok (tags, hit)
  with_status hit (err e) = err e

  -- The answer of the repository with some cache status, or the error of a failed lookup; and a
  -- coherent cache.
  abbrev pub IsListing :
      ℤ × ℤ
      → Result Fault (Option (List Tag))
      → Result TagsError (List Tag × Bool) × cache.Store
      → Type 0
  IsListing key lookup out =
      (((hit : Bool) × (out.0 ≡ with_status hit (listed key)))
        ⊎ ((f : Fault) × (lookup ≡ err f) × (out.0 ≡ err (infra f))))
      × IsCoherent out.1

  store_tags-status :
      (key : ℤ × ℤ) (a : Result TagsError (List Tag)) (st : cache.Store)
      → (store_tags repo cache enabled key a st).0 ≡ with_status false a
  unfolding store_tags
  store_tags-status key (ok tags) st = refl
  store_tags-status key (err e) st = refl

  store_tags-IsCoherent :
      IsCache cache
      → (key : ℤ × ℤ) (a : Result TagsError (List Tag)) (st : cache.Store) → listed key ≡ a
      → IsCoherent st
      → IsCoherent (store_tags repo cache enabled key a st).1
  unfolding store_tags
  store_tags-IsCoherent law key (err e) st same coh = coh
  store_tags-IsCoherent law key (ok tags) st same coh = go enabled
    where
      go : (u : Bool) → IsCoherent (if u then (cache.set st key tags).0 else st)
      go false j w h = coh j w h
      go true j w h = elim (law.get-set st key tags j w h) [
        | inl (k, v) ↦ rw (k, v) same
        | inr before ↦ coh j w before
      ]

  answer_tags-IsListing :
      IsCache cache
      → (lookup found : Result Fault (Option (List Tag))) (key : ℤ × ℤ) (st : cache.Store)
      → ((f : Fault) → found ≡ err f → lookup ≡ err f)
      → ((tags : List Tag) → found ≡ ok (some tags) → listed key ≡ ok tags)
      → IsCoherent st
      → IsListing key lookup (answer_tags repo cache enabled found key st)
  unfolding answer_tags
  answer_tags-IsListing law lookup (err f) key st failed right coh =
      (inr (f, failed f refl, refl), coh)
  answer_tags-IsListing law lookup (ok (some tags)) key st failed right coh =
      (inl (true, rw (right tags refl)), coh)
  answer_tags-IsListing law lookup (ok none) key st failed right coh = (
    inl (false, store_tags-status key (listed key) st),
    store_tags-IsCoherent law key (listed key) st refl coh,
  )

  -- For a cache that finds only what was set: with a cache that holds only what the repository
  -- answers, the list of the tags is what the repository answers for the limit and the offset,
  -- which default to 50 and 0, or the error of a failed lookup; and the cache stays so.
  pub list_with_cache_status-IsListing :
      IsCache cache
      → (limit offset : ℤ) (st : cache.Store) → IsCoherent st
      → IsListing
          (page_key limit offset)
          (cache.get st (page_key limit offset))
          (list_with_cache_status repo cache enabled limit offset st)
  unfolding list_with_cache_status
  list_with_cache_status-IsListing law limit offset st coh =
      answer_tags-IsListing law (cache.get st key) (lookup enabled) key st (failed enabled)
        (right enabled) coh
    where
      key : ℤ × ℤ
      key = page_key limit offset

      lookup : Bool → Result Fault (Option (List Tag))
      lookup u = if u then cache.get st key else ok none

      failed : (u : Bool) (f : Fault) → lookup u ≡ err f → cache.get st key ≡ err f
      failed true f h = h
      failed false f h = cc h

      right : (u : Bool) (tags : List Tag) → lookup u ≡ ok (some tags) → listed key ≡ ok tags
      right true tags h = coh key tags h
      right false tags h = cc h
