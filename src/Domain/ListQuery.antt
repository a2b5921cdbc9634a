-- ===== src/Domain/ListQuery.antt =====
-- internal/domain/entry/entry.go: ListQuery and its Normalize, with the constants it uses.
pub mod Sorting
pub mod Normal
pub mod Examples
use hateblog_backend.Common.{
  ◌-◌, ◌/◌, ap, Bool, true, false, not, ◌&&◌, some, List, [], ◌∷◌, map, ltb, leb, ◌==◌,
  if◌then◌else◌, length, ℤ, pos, ltb_ℤ, leb_ℤ, Result, ok, err, ◌>>=◌, ◌>>◌, reject_if, Bytes,
  codes, bytes_eq, is_empty, trim_space,
}
use hateblog_backend.Domain.Tag.{normalize_name}
use hateblog_backend.Domain.Entry.{Time}

-- A Go SortType is a string: "new", "hot", "", or some other text.
pub data SortType : Type 0 where
  sort_new : SortType
  sort_hot : SortType
  unset : SortType
  unsupported : Bytes → SortType

unfoldable pub sort_type : Bytes → SortType
sort_type raw =
    if bytes_eq raw (codes "new")
    then sort_new
    else if bytes_eq raw (codes "hot")
    then sort_hot
    else if is_empty raw
    then unset
    else unsupported raw

abbrev pub default_limit : ℤ
default_limit = pos 20

abbrev pub max_limit : ℤ
max_limit = pos 1000

pub record ListQuery : Type 0 where
  pub tags : List Bytes
  pub min_bookmark_count : ℤ
  pub offset : ℤ
  pub limit : ℤ
  pub sort : SortType
  pub keyword : Bytes
  pub posted_at_from : Time
  pub posted_at_to : Time
  pub max_limit_override : ℤ

-- The messages behind ErrInvalidListQuery.
pub data QueryError : Type 0 where
  negative_offset : QueryError
  negative_min_bookmark_count : QueryError
  unsupported_sort : Bytes → QueryError
  empty_range : QueryError

unfoldable pub limit_cap : ℤ → ℤ
limit_cap override = if ltb_ℤ (pos 0) override then override else max_limit

unfoldable pub clamp_limit : ℤ → ℤ → ℤ
unfolding limit_cap
clamp_limit limit override =
    let given = if leb_ℤ limit (pos 0) then default_limit else limit in
    if ltb_ℤ (limit_cap override) given then limit_cap override else given

unfoldable pub resolve_sort : SortType → Result QueryError SortType
resolve_sort sort_new = ok sort_new
resolve_sort sort_hot = ok sort_hot
resolve_sort unset = ok sort_new
resolve_sort (unsupported raw) = err (unsupported_sort raw)

-- The order of Go strings.
pub bytes_leb : Bytes → Bytes → Bool
bytes_leb [] t = true
bytes_leb (a ∷ s) [] = false
bytes_leb (a ∷ s) (b ∷ t) = if ltb a b then true else (a == b && bytes_leb s t)

insert : Bytes → List Bytes → List Bytes
insert x [] = x ∷ []
insert x (y ∷ ys) = if bytes_leb x y then x ∷ y ∷ ys else y ∷ insert x ys

-- sort.Strings; the sorted arrangement of texts is unique.
pub sort_strings : List Bytes → List Bytes
sort_strings [] = []
sort_strings (x ∷ xs) = insert x (sort_strings xs)

-- `!from.IsZero() && !to.IsZero() && !from.Before(to)`
unfoldable pub is_empty_range : Time → Time → Bool
is_empty_range from to = not (from == 0) && (not (to == 0) && not (ltb from to))

unfoldable pub normalize : (Bytes → Bytes) → ListQuery → Result QueryError ListQuery
normalize to_lower q = do
  reject_if (ltb_ℤ q.offset (pos 0)) negative_offset
  reject_if (ltb_ℤ q.min_bookmark_count (pos 0)) negative_min_bookmark_count
  resolved ← resolve_sort q.sort
  reject_if (is_empty_range q.posted_at_from q.posted_at_to) empty_range
  let names = map (normalize_name to_lower) q.tags
  ok (record q {
    tags = if ltb 1 (length names) then sort_strings names else names;
    limit = clamp_limit q.limit q.max_limit_override;
    sort = resolved;
    keyword = trim_space q.keyword;
  })
