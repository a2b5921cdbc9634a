-- ===== src/Handler/Entries/Served.antt =====
-- What the handlers of the entries of a day answer, down to the repository.
use hateblog_backend.Common.{
  ◌≤◌, ◌≡◌, refl, sym, ap, ap₂, ◌∙◌, inl, inr, Bool, true, false, Option, some, List, map, arith,
  if◌then◌else◌, Bool-cases, length, take, drop, length-keep-le, ℤ, pos, pos_part, ltb_ℤ, leb_ℤ,
  eqb_ℤ, Result, ok, err, ◌>>=◌, >>=-eq-ok, Bytes, codes,
}
use hateblog_backend.Domain.Entry.{Entry}
use hateblog_backend.Domain.ListQuery.{SortType, sort_new, sort_hot, unset, unsupported}
use hateblog_backend.Pkg.Apptime.{Calendar, day_range}
use hateblog_backend.Usecase.Ports.{Fault, EntryRepository, IsLimited, Cache, IsCache}
use hateblog_backend.Usecase.Entries.{
  paginate, DayListParams, EntriesError, filter_by_min_users, arrange, page_of_day, fetch_day,
  day_query, or_panic, or_infra, or_range,
}
use hateblog_backend.Usecase.Entries.Days.{
  IsCoherent, day, page, with_status, is_day_hit, list_day_entries-page,
}
use hateblog_backend.Handler.Params.{Query, ParamError, build_day_list_params}
use hateblog_backend.Handler.Params.Bounds.{
  build_day_list_params-IsBounded, build_day_list_params-paginate,
}
use hateblog_backend.Handler.Responses.{
  Body, Response, internal_error, text, failure, payload, Headers, cache_status_hit,
  cache_status_miss, no_headers, set_cache_status_header, write_json, write_error, error_message,
  to_entry_response,
}
use hateblog_backend.Handler.Entries.{
  EntriesResponse, param, write_page, handle_params, handle_new_entries, handle_hot_entries,
  build_entry_list_response,
}

abbrev pub json_with : Bytes → Headers
json_with status = record { cache_status = status; content_type = codes "application/json" }

pub headed :
    {E B : Type 0} (hit : Bool) (body : Body E B)
    → ◌≡◌ {A = Response E B}
        (write_json (set_cache_status_header no_headers hit) 200 body)
        (record {
          status = 200;
          headers = json_with (if hit then cache_status_hit else cache_status_miss);
          body = body;
        })
unfolding write_json set_cache_status_header
headed true body = refl
headed false body = refl

module _ (parse_url : Bytes → Option (Bytes × Bytes)) (api_base_path : Bytes)
    (parses_date : Bytes → Bool) (calendar : Calendar) (repo : EntryRepository)
    (sort_slice : List Entry → List Entry) (cache : Cache Bytes (List Entry)) (enabled : Bool) where
  -- The entries of a day that a request asks for.
  abbrev pub chosen : SortType → DayListParams → List Entry → List Entry
  chosen sort p es =
      arrange calendar repo sort_slice cache enabled sort
        (filter_by_min_users es p.min_bookmark_count)

  -- The answer to accepted parameters, for the entries of the day or an error.
  abbrev pub shown :
      Bool → SortType → DayListParams → Result EntriesError (List Entry) → EntriesResponse
  shown hit sort p (err e) = record {
    status = 500;
    headers = json_with cache_status_miss;
    body = failure internal_error;
  }
  shown hit sort p (ok es) = record {
    status = 200;
    headers = json_with (if hit then cache_status_hit else cache_status_miss);
    body = payload (record {
      entries =
          map (to_entry_response parse_url api_base_path)
            (take (pos_part p.limit) (drop (pos_part p.offset) (chosen sort p es)));
      total = pos (length (chosen sort p es));
      limit = p.limit;
      offset = p.offset;
    });
  }

  -- The answer to a request, with a cache in the given state.
  abbrev pub answer : cache.Store → SortType → Result ParamError DayListParams → EntriesResponse
  answer st sort (err e) = record {
    status = 400;
    headers = json_with cache_status_miss;
    body = failure (text (param e));
  }
  answer st sort (ok p) =
      shown (is_day_hit calendar repo sort_slice cache enabled p.date st) sort p
        (day calendar repo sort_slice cache enabled p.date)

  or_infra_ok : (m : Result Fault (List Entry)) (es : List Entry) → or_infra m ≡ ok es → m ≡ ok es
  unfolding or_infra
  or_infra_ok (ok a) es h = cc h
  or_infra_ok (err f) es h = cc h

  day-length :
      IsLimited repo
      → (date : Bytes) (es : List Entry) → day calendar repo sort_slice cache enabled date ≡ ok es
      → length es ≤ 100_000
  unfolding fetch_day
  day-length limited date es h =
      let (span, _, h1) = >>=-eq-ok (or_range (day_range calendar date)) _ h in
      let bound =
        limited.list_le_limit (day_query span) es (omega arith)
          (or_infra_ok (repo.list (day_query span)) es h1) in
      omega (arith, bound)

  filter_length : (m : ℤ) (es : List Entry) → length (filter_by_min_users es m) ≤ length es
  unfolding filter_by_min_users
  filter_length m es =
      let least = if ltb_ℤ m (pos 0) then pos 0 else m in
      let fewer = length-keep-le (λ e. leb_ℤ least e.bookmark_count) es in
      elim (Bool-cases (eqb_ℤ least (pos 0))) [
        | inl none_asked ↦ rw none_asked (omega arith)
        | inr some_asked ↦ rw some_asked fewer
      ]

  arranged_length :
      ((es : List Entry) → length (sort_slice es) ≡ length es)
      → (sort : SortType) (es : List Entry)
      → length (arrange calendar repo sort_slice cache enabled sort es) ≡ length es
  unfolding arrange
  arranged_length keeps sort_hot es = keeps es
  arranged_length keeps sort_new es = refl
  arranged_length keeps unset es = refl
  arranged_length keeps (unsupported raw) es = refl

  write_page-shown :
      IsLimited repo
      → ((es : List Entry) → length (sort_slice es) ≡ length es)
      → (hit : Bool) (sort : SortType) (r : Query) (p : DayListParams)
      → build_day_list_params parses_date r ≡ ok p
      → write_page parse_url api_base_path p (
          with_status calendar repo sort_slice cache enabled hit (
            day calendar repo sort_slice cache enabled p.date
            >>= page calendar repo sort_slice cache enabled sort p))
        ≡ shown hit sort p (day calendar repo sort_slice cache enabled p.date)
  unfolding write_page page_of_day or_panic build_entry_list_response write_error write_json
      error_message
  write_page-shown limited keeps hit sort r p h =
      go (day calendar repo sort_slice cache enabled p.date) refl
    where
      go :
          (d : Result EntriesError (List Entry))
          → day calendar repo sort_slice cache enabled p.date ≡ d
          → write_page parse_url api_base_path p (
              with_status calendar repo sort_slice cache enabled hit
                (d >>= page calendar repo sort_slice cache enabled sort p))
            ≡ shown hit sort p d
      go (err e) q = refl
      go (ok es) q =
          let few = day-length limited p.date es q in
          let filtered = filter_length p.min_bookmark_count es in
          let same = arranged_length keeps sort (filter_by_min_users es p.min_bookmark_count) in
          let (o, l, e, d, cut) =
            build_day_list_params-paginate parses_date r p (chosen sort p es) h
              (omega (arith, few, filtered, same)) in
          let xs = chosen sort p es in
          let here : paginate xs p.offset p.limit
              ≡ some (take (pos_part p.limit) (drop (pos_part p.offset) xs)) =
            cut
            ∙ ap₂ (λ a b. some (take a (drop b xs))) (sym (ap pos_part d)) (sym (ap pos_part e)) in
          rw here (headed hit _)

  handle_params-answer :
      IsCache cache
      → IsLimited repo
      → ((es : List Entry) → length (sort_slice es) ≡ length es)
      → (sort : SortType) (r : Query) (st : cache.Store)
      → IsCoherent calendar repo sort_slice cache enabled st
      → (m : Result ParamError DayListParams) → build_day_list_params parses_date r ≡ m
      → let out =
          handle_params parse_url api_base_path parses_date calendar repo sort_slice cache enabled m
            sort st in
        (out.0 ≡ answer st sort m) × IsCoherent calendar repo sort_slice cache enabled out.1
  unfolding handle_params write_error write_json error_message
  handle_params-answer law limited keeps sort r st coh (err e) q = (refl, coh)
  handle_params-answer law limited keeps sort r st coh (ok p) q =
      let (paged, kept) =
        list_day_entries-page calendar repo sort_slice cache enabled law sort p st coh in
      elim paged [
        | inl (undated, _) ↦
            let long = (build_day_list_params-IsBounded parses_date r p q).dated in
            absurd (cc (long, ap length undated))
        | inr same ↦ (
          rw same (
              write_page-shown limited keeps
                (is_day_hit calendar repo sort_slice cache enabled p.date st) sort r p q),
          kept,
        )
      ]

  -- For a repository whose lists keep to the limit of a query, a cache that finds only what was set,
  -- and a sort.Slice that keeps the length: with a cache of days as the repository answers them,
  -- the handler of the new entries answers 400 with the fault of the parameters, 500 without a
  -- reason where the day or its entries cannot be read, and else 200 with the header HIT exactly
  -- if the cache is used and finds the day, and, of the entries of the day with enough bookmarks, `limit` from `offset` on and the
  -- number of all; the handler of the hot entries does the same in the order of sort.Slice. The
  -- cache stays so.
  pub handle_entries_lem :
      IsCache cache
      → IsLimited repo
      → ((es : List Entry) → length (sort_slice es) ≡ length es)
      → (r : Query) (st : cache.Store) → IsCoherent calendar repo sort_slice cache enabled st
      → let new =
          handle_new_entries parse_url api_base_path parses_date calendar repo sort_slice cache
            enabled r st in
        let hot =
          handle_hot_entries parse_url api_base_path parses_date calendar repo sort_slice cache
            enabled r st in
        (new.0 ≡ answer st sort_new (build_day_list_params parses_date r))
        × (hot.0 ≡ answer st sort_hot (build_day_list_params parses_date r))
        × IsCoherent calendar repo sort_slice cache enabled new.1
        × IsCoherent calendar repo sort_slice cache enabled hot.1
  unfolding handle_new_entries handle_hot_entries
  handle_entries_lem law limited keeps r st coh =
      let (new, new_kept) = handle_params-answer law limited keeps sort_new r st coh _ refl in
      let (hot, hot_kept) = handle_params-answer law limited keeps sort_hot r st coh _ refl in
      (new, hot, new_kept, hot_kept)
