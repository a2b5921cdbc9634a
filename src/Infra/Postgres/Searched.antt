-- ===== src/Infra/Postgres/Searched.antt =====
-- The same for the texts of a search, so for all queries.
use hateblog_backend.Common.{
  suc, ◌≡◌, refl, sym, ap, ◌∙◌, inl, inr, Bool, true, false, Option, none, some, List, [], ◌∷◌,
  ◌++◌, map, append-nil, append_assoc, arith, Bool-cases, length, keep, length-append, Bytes, codes,
  is_empty,
}
use hateblog_backend.Domain.ListQuery.{ListQuery, SortType}
use hateblog_backend.Infra.Decimal.{decimal}
use hateblog_backend.Infra.Postgres.{
  Arg, int, Parts, add_filter, join, order_clause, limit_clause, min_filter, tag_filter,
  time_filter, entry_columns, total_columns,
}
use hateblog_backend.Infra.Postgres.Search.{
  add_search_filters, search_parts, search_head, search_tail, search_columns, keyword_search_sql,
  list_entries_sql, list_entries_with_total_sql, split_search_terms, is_ascii_word,
}
use hateblog_backend.Infra.Postgres.Numbered.{
  scan, numbers, numbers-append, IsNumbered, plain_list_sql-IsNumbered, plain_total_sql-IsNumbered,
}

scan-order_clause :
    (sort : SortType) (t : Bytes) → scan none (order_clause sort (codes "c.") ++ t) ≡ scan none t
unfolding order_clause
scan-order_clause SortType.sort_new t = refl
scan-order_clause SortType.sort_hot t = refl
scan-order_clause SortType.unset t = refl
scan-order_clause (SortType.unsupported s) t = refl

abbrev AreNumbered : Parts → Bytes → Type 0
AreNumbered p t =
    (1 ∷ 2 ∷ 3 ∷ scan none (join [] p.conditions ++ 32 ∷ t)
      ≡ numbers 1 (length p.args) ++ scan none t)
    × (p.arg_pos ≡ suc (length p.args))
    × (scan none (limit_clause p.arg_pos) ≡ p.arg_pos ∷ suc p.arg_pos ∷ [])

add_search_filters-AreNumbered :
    (terms words : List Bytes) (least names from to : Option Arg) (t : Bytes)
    → AreNumbered (add_search_filters least names from to (search_parts terms words)) t
unfolding join add_search_filters add_filter decimal limit_clause search_parts
add_search_filters-AreNumbered terms words none none none none t = (refl, refl, refl)
add_search_filters-AreNumbered terms words none none none (some d) t = (refl, refl, refl)
add_search_filters-AreNumbered terms words none none (some c) none t = (refl, refl, refl)
add_search_filters-AreNumbered terms words none none (some c) (some d) t = (refl, refl, refl)
add_search_filters-AreNumbered terms words none (some b) none none t = (refl, refl, refl)
add_search_filters-AreNumbered terms words none (some b) none (some d) t = (refl, refl, refl)
add_search_filters-AreNumbered terms words none (some b) (some c) none t = (refl, refl, refl)
add_search_filters-AreNumbered terms words none (some b) (some c) (some d) t = (refl, refl, refl)
add_search_filters-AreNumbered terms words (some a) none none none t = (refl, refl, refl)
add_search_filters-AreNumbered terms words (some a) none none (some d) t = (refl, refl, refl)
add_search_filters-AreNumbered terms words (some a) none (some c) none t = (refl, refl, refl)
add_search_filters-AreNumbered terms words (some a) none (some c) (some d) t = (refl, refl, refl)
add_search_filters-AreNumbered terms words (some a) (some b) none none t = (refl, refl, refl)
add_search_filters-AreNumbered terms words (some a) (some b) none (some d) t = (refl, refl, refl)
add_search_filters-AreNumbered terms words (some a) (some b) (some c) none t = (refl, refl, refl)
add_search_filters-AreNumbered terms words (some a) (some b) (some c) (some d) t =
    (refl, refl, refl)

-- The tail begins with a blank, and has no placeholder.
search_tail_blank :
    (count_only with_total : Bool)
    → (t : Bytes) × (search_tail (search_columns count_only with_total) ≡ 32 ∷ t)
      × ((r : Bytes) → scan none (t ++ r) ≡ scan none r)
unfolding search_tail search_columns total_columns entry_columns
search_tail_blank true with_total = (_, refl, λ r. refl)
search_tail_blank false true = (_, refl, λ r. refl)
search_tail_blank false false = (_, refl, λ r. refl)

scan-search_head : (r : Bytes) → scan none (search_head ++ r) ≡ 1 ∷ 2 ∷ 3 ∷ scan none r
unfolding search_head
scan-search_head r = refl

module _ (terms words : List Bytes) (q : ListQuery) (count_only with_total : Bool) where
  abbrev parts : Parts
  parts =
      add_search_filters (min_filter q) (tag_filter q) (time_filter q.posted_at_from)
        (time_filter q.posted_at_to) (search_parts terms words)

  abbrev body : Bytes
  body =
      search_head ++ join [] parts.conditions ++ search_tail (search_columns count_only with_total)

  -- What comes after the body is read by itself.
  scan-body : (r : Bytes) → scan none (body ++ r) ≡ numbers 1 (length parts.args) ++ scan none r
  scan-body r =
      let (t, blank, plain) = search_tail_blank count_only with_total in
      let (filtered, position, limits) =
        add_search_filters-AreNumbered terms words (min_filter q) (tag_filter q)
          (time_filter q.posted_at_from) (time_filter q.posted_at_to) (t ++ r) in
      let conditions = join [] parts.conditions in
      let tail = search_tail (search_columns count_only with_total) in
      ap (scan none) (
        append_assoc (search_head ++ conditions) tail r
        ∙ append_assoc search_head conditions (tail ++ r))
      ∙ scan-search_head (conditions ++ (tail ++ r))
      ∙ ap (λ o. 1 ∷ 2 ∷ 3 ∷ scan none (conditions ++ (o ++ r))) blank
      ∙ filtered
      ∙ ap (λ ns. numbers 1 (length parts.args) ++ ns) (plain r)

  count_IsNumbered : IsNumbered (body, parts.args)
  count_IsNumbered =
      ap (scan none) (sym (append-nil body))
      ∙ scan-body []
      ∙ append-nil (numbers 1 (length parts.args))

  paged_IsNumbered : IsNumbered (
    body ++ order_clause q.sort (codes "c.") ++ limit_clause parts.arg_pos,
    parts.args ++ int q.limit ∷ int q.offset ∷ [],
  )
  paged_IsNumbered =
      let limit = limit_clause parts.arg_pos in
      let order = order_clause q.sort (codes "c.") in
      let (filtered, position, limits) =
        add_search_filters-AreNumbered terms words (min_filter q) (tag_filter q)
          (time_filter q.posted_at_from) (time_filter q.posted_at_to) [] in
      let two_more : suc (suc (length parts.args))
          ≡ length (parts.args ++ int q.limit ∷ int q.offset ∷ []) =
        omega (arith, length-append parts.args (int q.limit ∷ int q.offset ∷ [])) in
      ap (scan none) (append_assoc body order limit)
      ∙ scan-body (order ++ limit)
      ∙ ap (λ ns. numbers 1 (length parts.args) ++ ns) (scan-order_clause q.sort limit ∙ limits)
      ∙ numbers-append 1 (length parts.args) parts.arg_pos (position ∙ omega arith)
      ∙ ap (numbers 1) two_more

module _ (to_lower : Bytes → Bytes) (q : ListQuery) where
  keyword_search_sql-IsNumbered :
      (count_only with_total : Bool)
      → IsNumbered (keyword_search_sql to_lower q count_only with_total)
  unfolding keyword_search_sql
  keyword_search_sql-IsNumbered count_only with_total =
      let terms = map to_lower (split_search_terms q.keyword) in
      let plain : ListQuery = record q { keyword = [] } in
      elim (Bool-cases (is_empty terms)) [
        | inl none_left ↦ elim (Bool-cases with_total) [
          | inl total ↦ rw (keyword_search_sql, none_left, total) (plain_total_sql-IsNumbered plain)
          | inr page ↦
              rw (keyword_search_sql, none_left, page) (plain_list_sql-IsNumbered plain count_only)
        ]
        | inr given ↦ elim (Bool-cases count_only) [
          | inl count ↦
              rw (keyword_search_sql, given, count)
                (count_IsNumbered terms (keep is_ascii_word terms) q true with_total)
          | inr page ↦
              rw (keyword_search_sql, given, page)
                (paged_IsNumbered terms (keep is_ascii_word terms) q false with_total)
        ]
      ]

  -- For each query, with a keyword or without, the placeholders in the text of the list, of the count
  -- and of the list with total are 1, 2 and so on, each once and in this order, and there is exactly one
  -- argument for each.
  pub list_entries_sql-IsNumbered :
      (count_only : Bool)
      → IsNumbered (list_entries_sql to_lower q count_only)
        × IsNumbered (list_entries_with_total_sql to_lower q)
  unfolding list_entries_sql list_entries_with_total_sql
  list_entries_sql-IsNumbered count_only = elim (Bool-cases (is_empty q.keyword)) [
    | inl no_keyword ↦ (
      rw (list_entries_sql, no_keyword) (plain_list_sql-IsNumbered q count_only),
      rw (list_entries_with_total_sql, no_keyword) (plain_total_sql-IsNumbered q),
    )
    | inr keyword ↦ (
      rw (list_entries_sql, keyword) (keyword_search_sql-IsNumbered count_only false),
      rw (list_entries_with_total_sql, keyword) (keyword_search_sql-IsNumbered false true),
    )
  ]
