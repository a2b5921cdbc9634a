-- ===== src/Domain/ListQuery/Examples.antt =====
-- Tests of Normalize, and the theorems about it at a concrete query.
use hateblog_backend.Common.{◌≡◌, refl, ◌↔◌, [], ◌∷◌, map, pos, ok, Bytes, codes, trim_space}
use hateblog_backend.Domain.Tag.{truncate_utf8, normalize_name}
use hateblog_backend.Domain.ListQuery.{
  ListQuery, sort_new, unset, sort_strings, insert, bytes_leb, normalize, resolve_sort,
  is_empty_range, clamp_limit,
}
use hateblog_backend.Domain.ListQuery.Normal.{
  IsAcceptable, IsNormal, normalize_iff, normalize-IsNormal,
}
use mathlib.Core.List.{Perm}

abbrev pub keep_case : Bytes → Bytes
keep_case s = s

-- Two tags out of order, no limit, and no sort.
abbrev pub raw_query : ListQuery
raw_query = record {
  tags = codes "web " ∷ codes "go" ∷ [];
  min_bookmark_count = pos 5;
  offset = pos 40;
  limit = pos 0;
  sort = unset;
  keyword = codes " rust ";
  posted_at_from = 10;
  posted_at_to = 20;
  max_limit_override = pos 100;
}

abbrev pub normal_query : ListQuery
normal_query = record raw_query {
  tags = codes "go" ∷ codes "web" ∷ [];
  limit = pos 20;
  sort = sort_new;
  keyword = codes "rust";
}

pub normalize_raw : normalize keep_case raw_query ≡ ok normal_query
unfolding normalize trim_space normalize_name truncate_utf8 sort_strings insert bytes_leb
    resolve_sort is_empty_range clamp_limit
normalize_raw = refl

normalize_iff_example :
    ((r : ListQuery) × (normalize keep_case raw_query ≡ ok r)) ↔ IsAcceptable raw_query
normalize_iff_example = normalize_iff keep_case raw_query

normalize-IsNormal_example :
    IsNormal normal_query
    × Perm normal_query.tags (map (normalize_name keep_case) raw_query.tags)
    × (normal_query.offset ≡ raw_query.offset)
    × (normal_query.min_bookmark_count ≡ raw_query.min_bookmark_count)
    × (normal_query.posted_at_from ≡ raw_query.posted_at_from)
    × (normal_query.posted_at_to ≡ raw_query.posted_at_to)
    × (normal_query.max_limit_override ≡ raw_query.max_limit_override)
normalize-IsNormal_example = normalize-IsNormal keep_case raw_query normal_query normalize_raw

pub normal_names :
    (normalize_name keep_case (codes "go") ≡ codes "go")
    × ((normalize_name keep_case (codes "web") ≡ codes "web") × Unit {0})
unfolding normalize_name trim_space truncate_utf8
normal_names = (refl, (refl, tt))
