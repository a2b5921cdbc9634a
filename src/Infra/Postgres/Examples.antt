-- ===== src/Infra/Postgres/Examples.antt =====
-- Examples of queries, and of a database that answers them.
use hateblog_backend.Common.{◌≡◌, refl, false, none, [], ◌∷◌, ◌++◌, pos, ok, codes, lead_width}
use hateblog_backend.Domain.ListQuery.Examples.{
  keep_case, raw_query, normal_query, normalize_raw, normal_names,
}
use hateblog_backend.Infra.Postgres.Search.{
  list_entries_sql, list_entries_with_total_sql, split_search_terms,
}
use hateblog_backend.Infra.Postgres.Numbered.{IsNumbered}
use hateblog_backend.Infra.Postgres.Searched.{list_entries_sql-IsNumbered}
use hateblog_backend.Infra.Postgres.Repository.{Row, Database, list, count, list_and_count}
use hateblog_backend.Infra.Postgres.Repository.Totals.{both, list_and_count_lem}

abbrev row : Row
row = record {
  id = 1;
  title = codes "t";
  url = codes "https://a.jp";
  posted_at = 5;
  bookmark_count = pos 9;
  excerpt = none;
  subject = none;
  created_at = 12;
  updated_at = 12;
}

-- One entry with one tag, whatever is asked for.
abbrev db : Database
db = record {
  rows_of = λ s. ok (row ∷ []);
  totals_of = λ s. ok ((row, pos 41) ∷ []);
  count_of = λ s. ok (pos 41);
  taggings_of = λ ids. ok ((1, record { tag_id = 3; name = codes "go"; score = pos 50 }) ∷ []);
}

list_and_count_lem_example :
    list_and_count keep_case db raw_query
    ≡ both (list keep_case db raw_query) (count keep_case db raw_query)
list_and_count_lem_example =
    list_and_count_lem keep_case db raw_query normal_query normalize_raw normal_names (pos 41) refl
      (row ∷ []) refl refl

list_entries_sql-IsNumbered_example :
    IsNumbered (list_entries_sql keep_case normal_query false)
    × IsNumbered (list_entries_with_total_sql keep_case normal_query)
list_entries_sql-IsNumbered_example = list_entries_sql-IsNumbered keep_case normal_query false

-- Words are split at blanks of any kind.
terms_test :
    split_search_terms (codes " go  rust" ++ 227 ∷ 128 ∷ 128 ∷ 99 ∷ [])
    ≡ codes "go" ∷ codes "rust" ∷ codes "c" ∷ []
unfolding split_search_terms lead_width
terms_test = refl
