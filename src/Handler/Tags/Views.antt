-- ===== src/Handler/Tags/Views.antt =====
-- When a request for the entries of a tag counts as a view of it.
use hateblog_backend.Common.{
  ℕ, ◌≡◌, refl, sym, ap, subst, ◌≢◌, ◌⊎◌, inl, inr, Bool, true, false, Option, [], if◌then◌else◌,
  Bool-cases, ℤ, Result, ok, err, Bytes, is_empty_cases,
}
use hateblog_backend.Domain.Tag.{Uuid, Tag}
use hateblog_backend.Domain.Entry.{Time}
use hateblog_backend.Domain.ListQuery.{SortType}
use hateblog_backend.Usecase.Ports.{EntryRepository, Cache}
use hateblog_backend.Usecase.Entries.{
  ListResult, TagListParams, EntriesError, list_tag_entries_with_cache_status,
}
use hateblog_backend.Usecase.Tags.{TagRepository, TagsError, get_by_name}
use hateblog_backend.Handler.Params.{Query, ParamError}
use hateblog_backend.Handler.Responses.{
  no_headers, cache_status_miss, cache_status_hit, text, internal_error, set_cache_status_header,
  Message, failure, payload, write_json, write_error, error_message,
}
use hateblog_backend.Handler.Entries.{build_entry_list_response}
use hateblog_backend.Handler.Tags.{
  service_unavailable, param, invalid_tag, HandlerError, tag_params, Out, write_tag_entries,
  serve_tag_entries, for_tag, handle_tag_entries,
}

module _ (parse_url : Bytes → Option (Bytes × Bytes)) (api_base_path : Bytes)
    (to_lower : Bytes → Bytes) (tag_repo : TagRepository) (has_services : Bool)
    (repo : EntryRepository) (cache : Cache (Bytes × SortType × ℤ) ListResult) (enabled : Bool)
    {V : Type 0} (record_view : V → Uuid → Time → V) where
  abbrev Outcome : Type 0
  Outcome =
      Out parse_url api_base_path to_lower tag_repo has_services repo cache enabled record_view

  -- The request is answered with an error, and nothing is counted or put into the cache.
  abbrev pub IsRefused : ℕ → Message HandlerError → cache.Store → V → Outcome → Type 0
  IsRefused status m st views out =
      (out.0.status ≡ status) × (out.0.body ≡ failure m) × (out.1 ≡ (st, views))

  -- The entries of the tag are shown, and one view of it is counted.
  abbrev pub IsCounted : Tag → TagListParams → Time → cache.Store → V → Outcome → Type 0
  IsCounted tag p now st views out =
      (result : ListResult) × (hit : Bool) × ((list_tag_entries_with_cache_status repo cache enabled
          tag.name p st).0
        ≡ ok (result, hit))
      × (out.0.status ≡ 200)
      × (out.0.headers.cache_status ≡ (if hit then cache_status_hit else cache_status_miss))
      × (out.0.body
          ≡ payload (build_entry_list_response parse_url api_base_path result p.limit p.offset))
      × (out.1.0 ≡ (list_tag_entries_with_cache_status repo cache enabled tag.name p st).1)
      × (out.1.1 ≡ record_view views tag.id now)

  -- The service cannot list the entries: 500 without a reason, and nothing is counted.
  abbrev pub IsFailed : Tag → TagListParams → cache.Store → V → Outcome → Type 0
  IsFailed tag p st views out =
      (e : EntriesError) × ((list_tag_entries_with_cache_status repo cache enabled tag.name p st).0
        ≡ err e)
      × (out.0.status ≡ 500)
      × (out.0.body ≡ failure internal_error)
      × (out.1.1 ≡ views)

  -- The outcome for a tag that is found, by the parameters.
  abbrev pub IsListed :
      Tag → Result ParamError TagListParams → Time → cache.Store → V → Outcome → Type 0
  IsListed tag (err e) now st views out = IsRefused 400 (text (param e)) st views out
  IsListed tag (ok p) now st views out =
      IsCounted tag p now st views out ⊎ IsFailed tag p st views out

  -- The outcome by the tag that the name stands for.
  abbrev pub IsFound : Result TagsError Tag → Query → Time → cache.Store → V → Outcome → Type 0
  IsFound (err e) r now st views out = IsRefused 404 internal_error st views out
  IsFound (ok tag) r now st views out = IsListed tag (tag_params r) now st views out

  -- The outcome of a request.
  abbrev pub IsAnswered : Bytes → Query → Time → cache.Store → V → Outcome → Type 0
  IsAnswered raw_tag r now st views out =
      ((has_services ≡ false) × IsRefused 500 internal_error st views out)
      ⊎ (((has_services ≡ true) × (raw_tag ≡ []) × IsRefused 400 (text invalid_tag) st views out)
          ⊎ ((has_services ≡ true)
              × (raw_tag ≢ [])
              × IsFound (get_by_name tag_repo to_lower raw_tag) r now st views out))

  write_tag_entries-IsCounted :
      (tag : Tag) (p : TagListParams) (now : Time) (st : cache.Store) (views : V)
      (served : Result EntriesError (ListResult × Bool) × cache.Store)
      → list_tag_entries_with_cache_status repo cache enabled tag.name p st ≡ served
      → let out =
          write_tag_entries parse_url api_base_path to_lower tag_repo has_services repo cache
            enabled record_view tag p now views served in
        IsCounted tag p now st views out ⊎ IsFailed tag p st views out
  unfolding write_tag_entries write_error write_json error_message set_cache_status_header
  write_tag_entries-IsCounted tag p now st views (err e, st') q =
      inr (e, ap (λ x. x.0) q, refl, refl, refl)
  write_tag_entries-IsCounted tag p now st views (ok (result, true), st') q =
      inl (result, true, ap (λ x. x.0) q, refl, refl, refl, sym (ap (λ x. x.1) q), refl)
  write_tag_entries-IsCounted tag p now st views (ok (result, false), st') q =
      inl (result, false, ap (λ x. x.0) q, refl, refl, refl, sym (ap (λ x. x.1) q), refl)

  serve_tag_entries-IsListed :
      (r : Query) (now : Time) (st : cache.Store) (views : V) (tag : Tag)
      (m : Result ParamError TagListParams)
      → IsListed tag m now st views (
          serve_tag_entries parse_url api_base_path to_lower tag_repo has_services repo cache
            enabled record_view tag m now st views)
  unfolding serve_tag_entries write_error write_json error_message
  serve_tag_entries-IsListed r now st views tag (err e) = (refl, refl, refl)
  serve_tag_entries-IsListed r now st views tag (ok p) =
      write_tag_entries-IsCounted tag p now st views
        (list_tag_entries_with_cache_status repo cache enabled tag.name p st) refl

  for_tag-IsFound :
      (r : Query) (now : Time) (st : cache.Store) (views : V) (m : Result TagsError Tag)
      → IsFound m r now st views (
          for_tag parse_url api_base_path to_lower tag_repo has_services repo cache enabled
            record_view m r now st views)
  unfolding for_tag write_error write_json error_message
  for_tag-IsFound r now st views (err e) = (refl, refl, refl)
  for_tag-IsFound r now st views (ok tag) =
      serve_tag_entries-IsListed r now st views tag (tag_params r)

  -- A request for the entries of a tag is answered with 500 where the handler has no services, with
  -- 400 for an empty name, with 404 where no tag is found under the normalized name, and with 400
  -- for a fault in its parameters: then it counts nothing and leaves the cache. Else, where the
  -- service lists the entries, they are shown with status 200 and the header of the service's cache
  -- status, and one view of the tag is counted; where it fails, the status is 500, and nothing is
  -- counted.
  pub handle_tag_entries_lem :
      (raw_tag : Bytes) (r : Query) (now : Time) (st : cache.Store) (views : V)
      → IsAnswered raw_tag r now st views (
          handle_tag_entries parse_url api_base_path to_lower tag_repo has_services repo cache
            enabled record_view raw_tag r now st views)
  unfolding handle_tag_entries write_error write_json error_message
  handle_tag_entries_lem raw_tag r now st views = elim (Bool-cases has_services) [
    | inr none_there ↦
        let run : handled ≡ (write_error no_headers 500 service_unavailable, (st, views)) =
          rw (handle_tag_entries, none_there) refl in
        inl (none_there, subst (IsRefused 500 internal_error st views) (sym run) (refl, refl, refl))
    | inl there ↦ elim (is_empty_cases raw_tag) [
      | inl (unnamed, empty) ↦
          let run : handled ≡ (write_error no_headers 400 invalid_tag, (st, views)) =
            rw (handle_tag_entries, there, empty) refl in
          inr (
            inl (
              there,
              unnamed,
              subst (IsRefused 400 (text invalid_tag) st views) (sym run) (refl, refl, refl),
            ))
      | inr (named, filled) ↦
          let found = get_by_name tag_repo to_lower raw_tag in
          let run : handled
              ≡ for_tag parse_url api_base_path to_lower tag_repo has_services repo cache enabled
                  record_view found r now st views =
            rw (handle_tag_entries, there, filled) refl in
          inr (
            inr (
              there,
              named,
              subst (IsFound found r now st views) (sym run) (for_tag-IsFound r now st views found),
            ))
    ]
  ]
    where
      handled : Outcome
      handled =
          handle_tag_entries parse_url api_base_path to_lower tag_repo has_services repo cache
            enabled record_view raw_tag r now st views
