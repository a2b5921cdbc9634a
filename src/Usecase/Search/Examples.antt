-- ===== src/Usecase/Search/Examples.antt =====
-- The search at a concrete query, with a table as the cache.
use hateblog_backend.Common.{
  ◌≡◌, refl, ap, Bool, true, false, ◌&&◌, some, [], ◌∷◌, &&-true, pos, eqb_ℤ, eqb_ℤ_iff, ok, codes,
  bytes_eq, bytes_eq_iff, trim_space,
}
use hateblog_backend.Domain.ListQuery.{SortType, sort_hot, sort_new, unset, unsupported}
use hateblog_backend.Usecase.Ports.{Cache}
use hateblog_backend.Usecase.Samples.{sample_repo, sample_entry, table}
use hateblog_backend.Usecase.Search.{
  SearchRepository, SearchParams, SearchResult, SearchKey, search_with_cache_status,
}
use hateblog_backend.Usecase.Search.Answers.{
  IsRecorded, IsCoherent, search_with_cache_status-IsRecorded,
}

abbrev sort_eq : SortType → SortType → Bool
sort_eq sort_hot sort_hot = true
sort_eq sort_new sort_new = true
sort_eq unset unset = true
sort_eq (unsupported a) (unsupported b) = bytes_eq a b
sort_eq _ _ = false

sort_eq_sound : (a b : SortType) → sort_eq a b ≡ true → a ≡ b
sort_eq_sound sort_hot sort_hot h = refl
sort_eq_sound sort_new sort_new h = refl
sort_eq_sound unset unset h = refl
sort_eq_sound (unsupported a) (unsupported b) h = ap unsupported ((bytes_eq_iff a b).0 h)
sort_eq_sound sort_hot sort_new h = cc h
sort_eq_sound sort_hot unset h = cc h
sort_eq_sound sort_hot (unsupported b) h = cc h
sort_eq_sound sort_new sort_hot h = cc h
sort_eq_sound sort_new unset h = cc h
sort_eq_sound sort_new (unsupported b) h = cc h
sort_eq_sound unset sort_hot h = cc h
sort_eq_sound unset sort_new h = cc h
sort_eq_sound unset (unsupported b) h = cc h
sort_eq_sound (unsupported a) sort_hot h = cc h
sort_eq_sound (unsupported a) sort_new h = cc h
sort_eq_sound (unsupported a) unset h = cc h

abbrev pub search_key_eq : SearchKey → SearchKey → Bool
search_key_eq (q, s, m, l, o) (q', s', m', l', o') =
    bytes_eq q q' && (sort_eq s s' && (eqb_ℤ m m' && (eqb_ℤ l l' && eqb_ℤ o o')))

pub search_key_eq_sound : (j k : SearchKey) → search_key_eq j k ≡ true → j ≡ k
search_key_eq_sound (q, s, m, l, o) (q', s', m', l', o') h =
    let (a, h1) = &&-true (bytes_eq q q') _ h in
    let (b, h2) = &&-true (sort_eq s s') _ h1 in
    let (c, h3) = &&-true (eqb_ℤ m m') _ h2 in
    let (d, e) = &&-true (eqb_ℤ l l') (eqb_ℤ o o') h3 in
    let p = (bytes_eq_iff q q').0 a in
    let r = sort_eq_sound s s' b in
    let t = (eqb_ℤ_iff m m').0 c in
    let u = (eqb_ℤ_iff l l').0 d in let v = (eqb_ℤ_iff o o').0 e in λ i. (p i, r i, t i, u i, v i)

abbrev pub searches : Cache SearchKey SearchResult
searches = table search_key_eq search_key_eq_sound

-- With ListAndCount, as the repository over PostgreSQL has it.
abbrev pub search_repo : SearchRepository
search_repo = record { base = sample_repo; both = some (λ q. ok (sample_entry 1 5 ∷ [], pos 1)) }

abbrev first_hundred : SearchParams
first_hundred = record { min_bookmark_count = pos 3; limit = pos 500; offset = pos 0; sort = unset }

search_with_cache_status-IsRecorded_example :
    IsRecorded search_repo searches true true (trim_space (codes " go ")) [] (codes "a" ∷ []) (
      search_with_cache_status search_repo searches true true
        (codes " go ")
        first_hundred
        ([], codes "a" ∷ []))
search_with_cache_status-IsRecorded_example =
    search_with_cache_status-IsRecorded search_repo searches true true (codes " go ") first_hundred
      [] (codes "a" ∷ [])

pub empty-IsCoherent : IsCoherent search_repo searches true true []
empty-IsCoherent key r h = cc h
