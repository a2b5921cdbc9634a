-- ===== src/Handler/Rankings/Served.antt =====
-- The answers of the rankings, down to the repository, with their ranks.
use hateblog_backend.Common.{
  ℕ, suc, ◌+◌, ◌^◌, ◌≤◌, ◌<◌, ◌≡◌, refl, subst, inl, inr, Bool, false, Option, List, [], ◌∷◌, arith,
  if◌then◌else◌, length, ℤ, pos, negsuc, pos_part, ◌+ℤ◌, ◌≤ℤ◌, ◌<ℤ◌, wrap64, Result, ok, err,
  >>=-eq-ok, Bytes, codes,
}
use hateblog_backend.Domain.Entry.{Entry, Time}
use hateblog_backend.Usecase.Ports.{Fault, EntryRepository, IsLimited, Cache, IsCache, is_hit}
use hateblog_backend.Usecase.Ranking.{
  Ranked, RankingError, infra, or_infra, or_range, ranking_query, list_entries_and_count, fetch,
  given, given_limit, with_cache_status,
}
use hateblog_backend.Usecase.Ranking.Coherence.{
  IsCoherent, with_status, lookup, served, with_cache_status-answer, with_cache_status-served,
}
use hateblog_backend.Pkg.Apptime.{RangeError}
use hateblog_backend.Handler.Params.{Query, ParamError, read_query_int}
use hateblog_backend.Handler.Params.Bounds.{read_query_int_bounds}
use hateblog_backend.Handler.Responses.{
  internal_error, text, failure, payload, cache_status_hit, cache_status_miss, write_json,
  write_error, error_message, to_entry_response,
}
use hateblog_backend.Handler.Entries.Served.{json_with, headed}
use hateblog_backend.Handler.Rankings.{
  RankingEntryResponse, RankingsResponse, param, Page, read_page, rank_from, build_ranking_response,
  write_ranking,
}

pub record IsBounded (p : Page) : Type 0 where
  pub limit_least : pos 1 ≤ℤ p.limit
  pub limit_most : p.limit ≤ℤ pos 100
  pub offset_least : pos 0 ≤ℤ p.offset
  pub offset_most : p.offset ≤ℤ pos 100_000
  pub min_least : pos 0 ≤ℤ p.min_users

between :
    (r : Query) (key : Bytes) (least most otherwise v : ℤ)
    → pos 0 <ℤ most
    → (least ≤ℤ otherwise) × (otherwise ≤ℤ most)
    → read_query_int r key least most otherwise ≡ ok v
    → (least ≤ℤ v) × (v ≤ℤ most)
between r key least most otherwise v bound inside h =
    elim (read_query_int_bounds r key least most otherwise v h) [
      | inl (_, same) ↦ rw same inside
      | inr (low, high) ↦ (low, high bound)
    ]

pub read_page-IsBounded : (r : Query) (p : Page) → read_page r ≡ ok p → IsBounded p
unfolding read_page
read_page-IsBounded r p h =
    let (l, a, h1) = >>=-eq-ok (read_query_int r (codes "limit") (pos 1) (pos 100) (pos 100)) _ h in
    let (o, b, h2) =
      >>=-eq-ok (read_query_int r (codes "offset") (pos 0) (pos 100_000) (pos 0)) _ h1 in
    let (m, d, h3) =
      >>=-eq-ok (read_query_int r (codes "min_users") (pos 0) (pos 10_000) (pos 5)) _ h2 in
    let (l1, l2) =
      between r (codes "limit") (pos 1) (pos 100) (pos 100) l (omega arith)
        (omega arith, omega arith) a in
    let (o1, o2) =
      between r (codes "offset") (pos 0) (pos 100_000) (pos 0) o (omega arith)
        (omega arith, omega arith) b in
    let (m1, _) =
      between r (codes "min_users") (pos 0) (pos 10_000) (pos 5) m (omega arith)
        (omega arith, omega arith) d in
    let same : page_of l o m ≡ p = cc h3 in
    subst {A = Page} IsBounded same (record {
      limit_least = l1;
      limit_most = l2;
      offset_least = o1;
      offset_most = o2;
      min_least = m1;
    })
  where
    page_of : ℤ → ℤ → ℤ → Page
    page_of l o m = record { limit = l; offset = o; min_users = m }

given_same : (n : ℤ) → pos 0 ≤ℤ n → given n ≡ n
given_same (pos n) h = ground arith
given_same (negsuc n) h = absurd (omega arith)

given_limit_same : (n : ℤ) → pos 1 ≤ℤ n → given_limit n ≡ n
given_limit_same (pos n) h = ground arith
given_limit_same (negsuc n) h = absurd (omega arith)

rank_plain :
    (o i : ℕ) → o + i < 2 ^ 62 → wrap64 (wrap64 (pos o +ℤ pos i) +ℤ pos 1) ≡ pos (suc (o + i))
rank_plain o i h = ground arith

module _ (parse_url : Bytes → Option (Bytes × Bytes)) (api_base_path : Bytes) where
  -- The entries, with ranks from `n` on.
  abbrev pub numbered : ℕ → List Entry → List RankingEntryResponse
  numbered n [] = []
  numbered n (ent ∷ es) =
      record { rank = pos n; entry = to_entry_response parse_url api_base_path ent }
      ∷ numbered (suc n) es

  rank_from-numbered :
      (o i : ℕ) (es : List Entry)
      → o + i + length es < 2 ^ 62
      → rank_from parse_url api_base_path (pos o) i es ≡ numbered (suc (o + i)) es
  unfolding rank_from
  rank_from-numbered o i [] h = refl
  rank_from-numbered o i (ent ∷ es) h =
      let next : o + suc i ≡ suc (o + i) = omega arith in
      rw (rank_plain o i (omega arith), rank_from-numbered o (suc i) es (omega arith), next) refl

  -- The answer for a ranking of the repository.
  abbrev pub shown :
      Bytes → ℤ → Option ℤ → Option ℤ → Page → Bool → Result RankingError Ranked → RankingsResponse
  shown period_type year month week p hit (err e) = record {
    status = 500;
    headers = json_with cache_status_miss;
    body = failure internal_error;
  }
  shown period_type year month week p hit (ok r) = record {
    status = 200;
    headers = json_with (if hit then cache_status_hit else cache_status_miss);
    body = payload (record {
      period_type = period_type;
      year = year;
      month = month;
      week = week;
      entries = numbered (suc (pos_part p.offset)) r.entries;
      total = r.total;
      limit = p.limit;
      offset = p.offset;
    });
  }

  abbrev pub bad_request : ParamError → RankingsResponse
  bad_request e = record {
    status = 400;
    headers = json_with cache_status_miss;
    body = failure (text (param e));
  }

  write_ranking-shown :
      (period_type : Bytes) (year : ℤ) (month week : Option ℤ) (p : Page) (hit : Bool)
      (a : Result RankingError Ranked)
      → IsBounded p
      → ((x : Ranked) → a ≡ ok x → length x.entries ≤ 100)
      → write_ranking parse_url api_base_path period_type year month week p (with_status hit a)
        ≡ shown period_type year month week p hit a
  unfolding write_ranking write_error write_json error_message build_ranking_response
  write_ranking-shown period_type year month week p hit (err e) b few = refl
  write_ranking-shown period_type year month week p hit (ok x) b few =
      let ranks = ranked_from p.offset b.offset_least b.offset_most x.entries (few x refl) in
      rw ranks (headed hit _)
    where
      ranked_from :
          (o : ℤ)
          → pos 0 ≤ℤ o
          → o ≤ℤ pos 100_000
          → (es : List Entry) → length es ≤ 100
          → rank_from parse_url api_base_path o 0 es ≡ numbered (suc (pos_part o)) es
      ranked_from (pos o) low high es few =
          let none_yet : o + 0 ≡ o = omega arith in
          rw none_yet at (rank_from-numbered o 0 es (omega arith))
      ranked_from (negsuc o) low high es few = absurd (omega arith)

  module _ {P : Type 0} (period_range : P → Result RangeError (Time × Time))
      (repo : EntryRepository) (cache : Cache (P × ℤ) Ranked) (enabled : Bool) where
    or_infra_ok : (m : Result Fault (List Entry)) (es : List Entry) → or_infra m ≡ ok es → m ≡ ok es
    unfolding or_infra
    or_infra_ok (ok a) es h = cc h
    or_infra_ok (err f) es h = cc h

    fetch-length :
        IsLimited repo
        → (p : P) (l o m : ℤ) → pos 1 ≤ℤ l
        → l ≤ℤ pos 100
        → (x : Ranked) → fetch period_range repo cache enabled p l o m ≡ ok x
        → length x.entries ≤ 100
    unfolding fetch list_entries_and_count
    fetch-length limited p l o m low high x h =
        let (span, _, h1) = >>=-eq-ok (or_range (period_range p)) _ h in
        let (es, a, h2) = >>=-eq-ok (or_infra (repo.list (ranking_query span o l m))) _ h1 in
        let (n, _, h3) = >>=-eq-ok (or_infra (repo.count (ranking_query span o l m))) _ h2 in
        let bound =
          limited.list_le_limit (ranking_query span o l m) es (omega arith)
            (or_infra_ok (repo.list (ranking_query span o l m)) es a) in
        let few : length es ≤ 100 = omega (arith, bound) in
        let same : es ≡ x.entries = entries_same h3 in rw (← same) few
      where
        entries_same :
            {es : List Entry} {n : ℤ} {x : Ranked}
            → ◌≡◌ {A = Result RankingError Ranked} (ok (record { entries = es; total = n })) (ok x)
            → es ≡ x.entries
        entries_same h = cc h

    -- The response for a lookup of the cache: 500 if it fails, and else the ranking of the repository.
    abbrev pub response :
        Bytes → ℤ → Option ℤ → Option ℤ → P → Page → Result Fault (Option Ranked) → RankingsResponse
    response period_type year month week p page (err f) =
        shown period_type year month week page false (err (infra f))
    response period_type year month week p page (ok o) =
        shown period_type year month week page (is_hit o)
          (fetch period_range repo cache enabled p page.limit page.offset page.min_users)

    -- What a response is for an accepted page.
    abbrev pub IsServed :
        Bytes
        → ℤ
        → Option ℤ
        → Option ℤ
        → P
        → Page
        → cache.Store
        → RankingsResponse × cache.Store
        → Type 0
    IsServed period_type year month week p page st out =
        (out.0
          ≡ response period_type year month week p page
              (lookup period_range repo cache enabled p page.limit page.offset page.min_users st))
        × IsCoherent period_range repo cache enabled out.1

    write_ranking-response :
        IsLimited repo
        → (period_type : Bytes) (year : ℤ) (month week : Option ℤ) (p : P) (page : Page)
          (found : Result Fault (Option Ranked))
        → IsBounded page
        → write_ranking parse_url api_base_path period_type year month week page (
            served period_range repo cache enabled found
              (fetch period_range repo cache enabled p page.limit page.offset page.min_users))
          ≡ response period_type year month week p page found
    write_ranking-response limited period_type year month week p page (err f) b =
        write_ranking-shown period_type year month week page false (err (infra f)) b (λ x h. cc h)
    write_ranking-response limited period_type year month week p page (ok o) b =
        write_ranking-shown period_type year month week page (is_hit o)
          (fetch period_range repo cache enabled p page.limit page.offset page.min_users) b
          (fetch-length limited p page.limit page.offset page.min_users b.limit_least b.limit_most)

    pub with_cache_status-IsServed :
        IsLimited repo
        → IsCache cache
        → (period_type : Bytes) (year : ℤ) (month week : Option ℤ) (p : P) (page : Page)
          (st : cache.Store)
        → IsBounded page
        → IsCoherent period_range repo cache enabled st
        → let out =
            with_cache_status period_range repo cache enabled p page.limit page.offset
              page.min_users st in
          IsServed period_type year month week p page st
            (write_ranking parse_url api_base_path period_type year month week page out.0, out.1)
    with_cache_status-IsServed limited law period_type year month week p page st b coh =
        let (_, kept) =
          with_cache_status-answer period_range repo cache enabled limited law p page.limit
            page.offset page.min_users st coh in
        let l = given_limit_same page.limit b.limit_least in
        let o = given_same page.offset b.offset_least in
        let m = given_same page.min_users b.min_least in
        let same =
          with_cache_status-served period_range repo cache enabled limited p page.limit page.offset
            page.min_users st coh in
        let plain = rw (l, o, m) at same in
        (
          rw plain (
              write_ranking-response limited period_type year month week p page
                (lookup period_range repo cache enabled p page.limit page.offset page.min_users st)
                b),
          kept,
        )
