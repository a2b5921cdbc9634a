-- ===== src/Handler/Search/Found.antt =====
-- The handler of the search on every branch.
use hateblog_backend.Common.{
  ◌≡◌, refl, Bool, true, Option, List, [], ◌∷◌, ◌++◌, if◌then◌else◌, Result, ok, err, Bytes,
  trim_space,
}
use hateblog_backend.Usecase.Search.{SearchParams, SearchResult, SearchError, SearchKey}
use hateblog_backend.Usecase.Search.Answers.{
  IsCoherent, IsRecorded, direct, with_status, is_search_hit, search_with_cache_status-IsAnswer,
  search_with_cache_status-IsRecorded,
}
use hateblog_backend.Handler.Params.{Query}
use hateblog_backend.Usecase.Ports.{Cache, IsCache}
use hateblog_backend.Handler.Responses.{
  Response, text, failure, payload, cache_status_hit, cache_status_miss, write_json, write_error,
  error_message,
}
use hateblog_backend.Handler.Entries.Served.{json_with, headed}
use hateblog_backend.Handler.Search.{
  search_with_cache_status, SearchRepository, HandlerError, SearchResponse, service, search_params,
  build_search_response, write_search, serve_search, handle_search,
}

module _ (parse_url : Bytes → Option (Bytes × Bytes)) (api_base_path : Bytes)
    (repo : SearchRepository) (cache : Cache SearchKey SearchResult)
    (enabled has_history : Bool) where
  abbrev pub Answer : Type 0
  Answer = Response HandlerError SearchResponse

  abbrev pub refused : HandlerError → Answer
  refused e = record {
    status = 400;
    headers = json_with cache_status_miss;
    body = failure (text e);
  }

  -- What the repository answers, or the error of the service with its text.
  abbrev pub shown : Bool → Result SearchError SearchResult → Answer
  shown hit (err e) = refused (service e)
  shown hit (ok result) = record {
    status = 200;
    headers = json_with (if hit then cache_status_hit else cache_status_miss);
    body = payload (build_search_response parse_url api_base_path result);
  }

  abbrev pub State : Type 0
  State = cache.Store × List Bytes

  -- What a search of the service leaves: all as it was after an error, and else one query more.
  abbrev pub IsLeft :
      cache.Store → List Bytes → Bytes → Result SearchError SearchResult → State → Type 0
  IsLeft st history q (err e) after = after ≡ (st, history)
  IsLeft st history q (ok result) after =
      (after.1 ≡ (if has_history then history ++ (trim_space q ∷ []) else history))
      × IsCoherent repo cache enabled has_history after.0

  -- The outcome of a request.
  abbrev pub IsOutcome :
      cache.Store
      → List Bytes
      → Result HandlerError (Bytes × SearchParams)
      → Answer × State
      → Type 0
  IsOutcome st history (err e) out = (out.0 ≡ refused e) × (out.1 ≡ (st, history))
  IsOutcome st history (ok (q, p)) out =
      (out.0
        ≡ shown (is_search_hit repo cache enabled has_history q p st)
            (direct repo cache enabled has_history q p))
      × IsLeft st history q (direct repo cache enabled has_history q p) out.1

  IsLeft-recorded :
      (st : cache.Store) (history : List Bytes) (q : Bytes) (hit : Bool)
      (d : Result SearchError SearchResult) (a : Result SearchError (SearchResult × Bool))
      (after : State)
      → a ≡ with_status repo cache enabled has_history hit d
      → IsCoherent repo cache enabled has_history after.0
      → IsRecorded repo cache enabled has_history (trim_space q) st history (a, after)
      → IsLeft st history q d after
  IsLeft-recorded st history q hit (ok d) (ok a) after same coh recorded = (recorded, coh)
  IsLeft-recorded st history q hit (err d) (err a) after same coh recorded = recorded
  IsLeft-recorded st history q hit (ok d) (err a) after same coh recorded = cc same
  IsLeft-recorded st history q hit (err d) (ok a) after same coh recorded = cc same

  write_search-shown :
      (hit : Bool) (a : Result SearchError SearchResult)
      → write_search parse_url api_base_path (with_status repo cache enabled has_history hit a)
        ≡ shown hit a
  unfolding write_search write_error write_json error_message
  write_search-shown hit (err e) = refl
  write_search-shown hit (ok result) = headed hit _

  -- For a cache that finds only what was set and holds only what the repository answers: a search
  -- without a query or with a fault in its parameters is refused with 400 and changes nothing; else
  -- it is answered with 200, the header HIT exactly if the cache is used and finds the search, and
  -- what the repository answers, and the trimmed query is added to the history, where there is one;
  -- or, if the service fails for whatever reason, the database included, with 400 and the text of
  -- the error, and nothing changes. The cache still holds only what the repository answers.
  pub handle_search_lem :
      IsCache cache
      → (r : Query) (st : cache.Store) (history : List Bytes)
      → IsCoherent repo cache enabled has_history st
      → IsOutcome st history (search_params r) (
          handle_search parse_url api_base_path true repo cache enabled has_history r (st, history))
  unfolding handle_search
  handle_search_lem law r st history coh = go (search_params r)
    where
      go :
          (m : Result HandlerError (Bytes × SearchParams))
          → IsOutcome st history m (
              serve_search parse_url api_base_path true repo cache enabled has_history m
                (st, history))
      go (err e) = unfold serve_search write_error write_json error_message in (refl, refl)
      go (ok (q, p)) =
          let (same, kept) =
            search_with_cache_status-IsAnswer repo cache enabled has_history law q p st history
              coh in
          let hit = is_search_hit repo cache enabled has_history q p st in
          let d = direct repo cache enabled has_history q p in
          let out = search_with_cache_status repo cache enabled has_history q p (st, history) in
          unfold serve_search in
          (
            rw same (write_search-shown hit d),
            IsLeft-recorded st history q hit d out.0 out.1 same kept
                (search_with_cache_status-IsRecorded repo cache enabled has_history q p st history),
          )
