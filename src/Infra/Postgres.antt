-- ===== src/Infra/Postgres.antt =====
-- internal/infra/postgres/entry_repository.go: the SQL texts of the list queries, with their arguments.
pub mod Search
pub mod Repository
pub mod Tags
pub mod Numbered
pub mod Searched
pub mod Examples
use hateblog_backend.Common.{
  ℕ, suc, ◌+◌, ◌-◌, ◌/◌, ◌<◌, ap, Bool, not, Option, none, some, List, [], ◌∷◌, ◌++◌, ltb, ◌==◌,
  if◌then◌else◌, ℤ, pos, ltb_ℤ, ok, Bytes, codes, is_empty, min,
}
use hateblog_backend.Infra.Decimal.{decimal}
use hateblog_backend.Domain.Entry.{Time}
use hateblog_backend.Domain.ListQuery.{ListQuery, SortType, sort_hot}

-- A value of `args`.
pub data Arg : Type 0 where
  int : ℤ → Arg
  text : Bytes → Arg
  texts : List Bytes → Arg
  time : Time → Arg

-- `conditions`, `args` and `argPos`.
pub record Parts : Type 0 where
  pub conditions : List Bytes
  pub args : List Arg
  pub arg_pos : ℕ

-- One filter: nothing, or its condition before and after the position, and its argument.
unfoldable pub add_filter : Bytes → Bytes → Option Arg → Parts → Parts
add_filter before later none p = p
add_filter before later (some a) p = record {
  conditions = p.conditions ++ (before ++ decimal p.arg_pos ++ later) ∷ [];
  args = p.args ++ a ∷ [];
  arg_pos = suc p.arg_pos;
}

-- The four filters of a query, where they apply.
unfoldable pub min_filter : ListQuery → Option Arg
min_filter q = if ltb_ℤ (pos 0) q.min_bookmark_count then some (int q.min_bookmark_count) else none

unfoldable pub tag_filter : ListQuery → Option Arg
tag_filter q = if is_empty q.tags then none else some (texts q.tags)

unfoldable pub time_filter : Time → Option Arg
time_filter t = if t == 0 then none else some (time t)

unfoldable pub add_filters : Option Arg → Option Arg → Option Arg → Option Arg → Parts → Parts
add_filters least names from to p = add_filter (codes "created_at < $") [] to (
    add_filter (codes "created_at >= $") [] from (
      add_filter
        (codes
          "EXISTS (\n\t\t\tSELECT 1 FROM entry_tags et\n\t\t\tINNER JOIN tags t ON t.id = et.tag_id\n\t\t\tWHERE et.entry_id = e.id AND t.name = ANY($")
        (codes ")\n\t\t)") names (add_filter (codes "bookmark_count >= $") [] least p)))

unfoldable pub filters : ListQuery → Parts
filters q =
    add_filters (min_filter q) (tag_filter q) (time_filter q.posted_at_from)
      (time_filter q.posted_at_to) (record { conditions = []; args = []; arg_pos = 1 })

-- `strings.Join`
unfoldable pub join : Bytes → List Bytes → Bytes
join sep [] = []
join sep (s ∷ []) = s
join sep (s ∷ t ∷ ts) = s ++ sep ++ join sep (t ∷ ts)

unfoldable pub where_clause : List Bytes → Bytes
where_clause conditions =
    if is_empty conditions then [] else codes " WHERE " ++ join (codes " AND ") conditions

unfoldable pub order_clause : SortType → Bytes → Bytes
order_clause sort_hot prefix =
    codes " ORDER BY "
    ++ prefix
    ++ codes "bookmark_count DESC, "
    ++ prefix
    ++ codes "created_at DESC"
order_clause s prefix = codes " ORDER BY " ++ prefix ++ codes "created_at DESC"

unfoldable pub limit_clause : ℕ → Bytes
limit_clause n = codes " LIMIT $" ++ decimal n ++ codes " OFFSET $" ++ decimal (suc n)

abbrev pub Sql : Type 0
Sql = Bytes × List Arg

unfoldable pub entry_columns : Bytes
entry_columns =
    codes "id, title, url, posted_at, bookmark_count, excerpt, subject, created_at, updated_at"

unfoldable pub total_columns : Bytes
unfolding entry_columns
total_columns = entry_columns ++ codes ", COUNT(1) OVER() AS total"

-- What the builders have in common when there is no keyword.
unfoldable pub select_sql : Bytes → Parts → Bytes
select_sql columns p =
    codes "SELECT " ++ columns ++ codes " FROM entries e" ++ where_clause p.conditions

unfoldable pub paged_sql : Bytes → ListQuery → Parts → Sql
paged_sql columns q p = (
  select_sql columns p ++ order_clause q.sort [] ++ limit_clause p.arg_pos,
  p.args ++ int q.limit ∷ int q.offset ∷ [],
)

-- The texts without a keyword, of `buildListEntriesSQL` and `buildListEntriesWithTotalSQL`.
unfoldable pub plain_list_sql : ListQuery → Bool → Sql
plain_list_sql q count_only =
    let p = filters q in
    if count_only then (select_sql (codes "COUNT(1)") p, p.args) else paged_sql entry_columns q p

unfoldable pub plain_total_sql : ListQuery → Sql
plain_total_sql q = paged_sql total_columns q (filters q)
