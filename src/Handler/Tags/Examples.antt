-- ===== src/Handler/Tags/Examples.antt =====
-- The theorems about the tags at concrete requests.
use hateblog_backend.Common.{ℕ, true, Option, none, some, List, [], ◌∷◌, ℤ, pos, ok, Bytes, codes}
use hateblog_backend.Domain.Tag.{Uuid}
use hateblog_backend.Domain.Entry.{Time}
use hateblog_backend.Domain.ListQuery.{SortType}
use hateblog_backend.Usecase.Ports.{Cache}
use hateblog_backend.Usecase.Entries.{ListResult}
use hateblog_backend.Usecase.Samples.{sample_repo}
use hateblog_backend.Usecase.Tags.{TagRepository}
use hateblog_backend.Handler.Params.{Query}
use hateblog_backend.Handler.Tags.{handle_tag_entries}
use hateblog_backend.Handler.Tags.Views.{IsAnswered, handle_tag_entries_lem}

abbrev tag_repo : TagRepository
tag_repo = record {
  get_by_name = λ name. ok (record { id = 1; name = name });
  list = λ limit offset. ok [];
  get_trending = λ hours least limit.
      ok (record { id = 1; name = codes "go"; occurrence_count = pos 2; entry_count = pos 3 } ∷ []);
  get_clicked = λ days limit. ok [];
}

-- A cache that keeps nothing.
abbrev no_cache : Cache (Bytes × SortType × ℤ) ListResult
no_cache = record { Store = List ℕ; get = λ st k. ok none; set = λ st k v. (st, ok tt) }

abbrev count_view : List (Uuid × Time) → Uuid → Time → List (Uuid × Time)
count_view views id now = (id, now) ∷ views

abbrev no_query : Query
no_query key = []

abbrev sample_url : Bytes → Option (Bytes × Bytes)
sample_url s = some (codes "example.com:80", codes "example.com")

handle_tag_entries_lem_example :
    IsAnswered sample_url
      (codes "/api")
      (λ s. s)
      tag_repo
      true
      sample_repo
      no_cache
      true
      count_view
      (codes "go")
      no_query
      7
      []
      []
      (handle_tag_entries sample_url
        (codes "/api")
        (λ s. s)
        tag_repo
        true
        sample_repo
        no_cache
        true
        count_view
        (codes "go")
        no_query
        7
        []
        [])
handle_tag_entries_lem_example =
    handle_tag_entries_lem sample_url (codes "/api") (λ s. s) tag_repo true sample_repo no_cache
      true count_view (codes "go") no_query 7 [] []
