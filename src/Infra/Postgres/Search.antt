-- ===== src/Infra/Postgres/Search.antt =====
-- `buildKeywordSearchSQL` and the helpers that take the keyword apart.
use hateblog_backend.Common.{
  ℕ, zero, suc, Bool, true, false, not, ◌&&◌, ◌||◌, Option, List, [], ◌∷◌, ◌++◌, map, leb, ◌==◌,
  if◌then◌else◌, keep, all, any, Bytes, codes, is_empty, trim_space, lead_width,
}
use hateblog_backend.Domain.ListQuery.{ListQuery}
use hateblog_backend.Infra.Postgres.{
  Arg, text, texts, int, Parts, add_filter, min_filter, tag_filter, time_filter, join, order_clause,
  limit_clause, Sql, entry_columns, total_columns, plain_list_sql, plain_total_sql,
}

-- `strings.FieldsFunc(input, unicode.IsSpace)`: `word` is what stands before in the field, and `skip`
-- counts the bytes of a space that are left.
fields_from : Bytes → ℕ → Bytes → List Bytes
fields_from word skip [] = if is_empty word then [] else word ∷ []
fields_from word (suc skip) (a ∷ s) = fields_from word skip s
fields_from word zero (a ∷ s) =
    let more = fields_from (word ++ a ∷ []) 0 s in
    let rest : ℕ → List Bytes = λ w. fields_from [] w s in
    elim (lead_width (a ∷ s)) [
      | zero ↦ more
      | suc w ↦ if is_empty word then rest w else word ∷ rest w
    ]

unfoldable pub split_search_terms : Bytes → List Bytes
unfolding fields_from
split_search_terms input = fields_from [] 0 input

abbrev is_ascii_word_byte : ℕ → Bool
is_ascii_word_byte b = (leb 65 b && leb b 90) || (leb 97 b && leb b 122) || (leb 48 b && leb b 57)

unfoldable pub is_ascii_word : Bytes → Bool
is_ascii_word s = not (is_empty s) && all is_ascii_word_byte s

-- `regexp.QuoteMeta`
abbrev is_meta : ℕ → Bool
is_meta b = any (λ m. m == b) (codes "\\.+*?()|[]{}^$")

unfoldable pub quote_meta : Bytes → Bytes
quote_meta [] = []
quote_meta (b ∷ s) = let rest = quote_meta s in if is_meta b then 92 ∷ b ∷ rest else b ∷ rest

unfoldable pub escaped_words : List Bytes → List Bytes
escaped_words [] = []
escaped_words (word ∷ words) =
    let trimmed = trim_space word in
    let rest = escaped_words words in if is_empty trimmed then rest else quote_meta trimmed ∷ rest

unfoldable pub english_word_regex : List Bytes → Bytes
english_word_regex words =
    let escaped = escaped_words words in
    if is_empty words
    then codes "a^"
    else if is_empty escaped
    then codes "a^"
    else codes "\\m(" ++ join (codes "|") escaped ++ codes ")\\M"

-- The filters of a search, each with its AND; they stand in the text as `conditions` without separator.
unfoldable pub add_search_filters :
    Option Arg → Option Arg → Option Arg → Option Arg → Parts → Parts
add_search_filters least names from to p = add_filter (codes " AND e.created_at < $") [] to (
    add_filter (codes " AND e.created_at >= $") [] from (
      add_filter
        (codes
          " AND EXISTS (\n\t\t\tSELECT 1 FROM entry_tags et\n\t\t\tINNER JOIN tags t ON t.id = et.tag_id\n\t\t\tWHERE et.entry_id = e.id AND t.name = ANY($")
        (codes ")\n\t\t)") names (add_filter (codes " AND e.bookmark_count >= $") [] least p)))

unfoldable pub search_columns : Bool → Bool → Bytes
search_columns count_only with_total =
    if count_only then codes "COUNT(1)" else if with_total then total_columns else entry_columns

-- The text up to the filters, and the text from the candidates' limit to the order.
unfoldable pub search_head : Bytes
search_head =
    codes
      "WITH params AS (SELECT $1::text[] AS terms_any, $2::text[] AS en_words, $3::text AS en_regex)"
    ++ codes " , candidates AS (SELECT e.* FROM entries e, params p WHERE "
    ++ codes " (SELECT bool_and(e.search_text LIKE '%' || t || '%') FROM unnest(p.terms_any) t)"

unfoldable pub search_tail : Bytes → Bytes
search_tail columns =
    codes " LIMIT 2000) SELECT "
    ++ columns
    ++ codes " FROM candidates c, params p WHERE "
    ++ codes
        " (cardinality(p.en_words) = 0 OR (SELECT COUNT(DISTINCT m[1]) FROM regexp_matches(c.search_text, p.en_regex, 'g') m) = cardinality(p.en_words))"

unfoldable pub search_parts : List Bytes → List Bytes → Parts
search_parts terms words =
    let regex = if is_empty words then codes "a^" else english_word_regex words in
    record { conditions = []; args = texts terms ∷ texts words ∷ text regex ∷ []; arg_pos = 4 }

unfoldable pub keyword_search_sql : (Bytes → Bytes) → ListQuery → Bool → Bool → Sql
keyword_search_sql to_lower q count_only with_total =
    let terms = map to_lower (split_search_terms q.keyword) in
    let p =
      add_search_filters (min_filter q) (tag_filter q) (time_filter q.posted_at_from)
        (time_filter q.posted_at_to) (search_parts terms (keep is_ascii_word terms)) in
    let body =
      search_head ++ join [] p.conditions ++ search_tail (search_columns count_only with_total) in
    let plain = record q { keyword = [] } in
    if is_empty terms
    then (if with_total then plain_total_sql plain else plain_list_sql plain count_only)
    else if count_only
    then (body, p.args)
    else (
      body ++ order_clause q.sort (codes "c.") ++ limit_clause p.arg_pos,
      p.args ++ int q.limit ∷ int q.offset ∷ [],
    )

unfoldable pub list_entries_sql : (Bytes → Bytes) → ListQuery → Bool → Sql
list_entries_sql to_lower q count_only =
    if is_empty q.keyword
    then plain_list_sql q count_only
    else keyword_search_sql to_lower q count_only false

unfoldable pub list_entries_with_total_sql : (Bytes → Bytes) → ListQuery → Sql
list_entries_with_total_sql to_lower q =
    if is_empty q.keyword then plain_total_sql q else keyword_search_sql to_lower q false true
