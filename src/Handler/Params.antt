-- ===== src/Handler/Params.antt =====
-- internal/infra/handler/params.go, and buildDayListParams of entry_handler.go. A request is the
-- function that gives the value of a key of its query, empty for a key that is absent.
pub mod Bounds
pub mod Examples
use hateblog_backend.Common.{
  ℕ, suc, ◌+◌, ◌-◌, ◌*◌, ◌/◌, Bool, not, ◌&&◌, ◌||◌, Option, none, some, List, [], ◌∷◌, ltb, leb,
  ◌==◌, if◌then◌else◌, length, all, ℤ, pos, sub_ℕ, ltb_ℤ, half64, Result, ok, err, ◌>>=◌, ◌>>◌,
  reject_if, Bytes, codes, bytes_eq, is_empty, trim_space,
}
use hateblog_backend.Domain.ListQuery.{SortType, sort_hot, sort_new, max_limit}
use hateblog_backend.Usecase.Entries.{DayListParams}

abbrev pub Query : Type 0
Query = Bytes → Bytes

pub data ParamError : Type 0 where
  is_required : Bytes → ParamError
  not_an_integer : Bytes → ParamError
  too_small : Bytes → ParamError
  too_large : Bytes → ParamError
  not_a_sort : Bytes → ParamError
  not_a_date : ParamError
  invalid_limit : ParamError
  limit_out_of_range : ParamError
  negative_offset : ParamError
  negative_min_users : ParamError

is_digit : ℕ → Bool
is_digit c = leb b'0' c && leb c b'9'

digits_value : ℕ → Bytes → Option ℕ
unfolding is_digit
digits_value n [] = some n
digits_value n (c ∷ s) =
    let rest = digits_value (n * 10 + (c - b'0')) s in if is_digit c then rest else none

-- The digits behind the sign, at least one of them, and a value within 64 bits.
unsigned : (ℕ → ℤ) → ℕ → Bytes → Option ℤ
unfolding digits_value
unsigned sign most s = if is_empty s then none else elim (digits_value 0 s) [
  | none ↦ none
  | some n ↦ if leb n most then some (sign n) else none
]

minus : ℕ → ℤ
minus n = sub_ℕ 0 n

-- strconv.Atoi
unfoldable pub atoi : Bytes → Option ℤ
unfolding unsigned minus
atoi [] = none
atoi (c ∷ s) =
    if c == b'-'
    then unsigned minus half64 s
    else if c == b'+'
    then unsigned pos (half64 - 1) s
    else unsigned pos (half64 - 1) (c ∷ s)

in_range : Bytes → ℤ → ℤ → ℤ → Result ParamError ℤ
in_range name least most v =
    if ltb_ℤ v least
    then err (too_small name)
    else if ltb_ℤ (pos 0) most && ltb_ℤ most v
    then err (too_large name)
    else ok v

unfoldable pub parse_int : Bytes → Bytes → ℤ → ℤ → Result ParamError ℤ
unfolding in_range
parse_int name value least most = elim (atoi value) [
  | none ↦ err (not_an_integer name)
  | some v ↦ in_range name least most v
]

unfoldable pub read_query_int : Query → Bytes → ℤ → ℤ → ℤ → Result ParamError ℤ
read_query_int r key least most otherwise =
    if is_empty (r key) then ok otherwise else parse_int key (r key) least most

unfoldable pub require_query_int : Query → Bytes → ℤ → ℤ → Result ParamError ℤ
require_query_int r key least most =
    if is_empty (r key) then err (is_required key) else parse_int key (r key) least most

unfoldable pub read_query_sort : Query → Bytes → SortType → Result ParamError SortType
read_query_sort r key otherwise =
    let raw = trim_space (r key) in
    if is_empty raw
    then ok otherwise
    else if bytes_eq raw (codes "new")
    then ok sort_new
    else if bytes_eq raw (codes "hot")
    then ok sort_hot
    else err (not_a_sort key)

-- The handler's constants `defaultLimit` and `defaultMin`.
abbrev pub default_day_limit : ℤ
default_day_limit = pos 25

abbrev pub default_min_users : ℤ
default_min_users = pos 5

-- The three blocks of buildDayListParams that read an optional number.
unfoldable pub day_limit : Bytes → Result ParamError ℤ
day_limit raw = if is_empty raw then ok default_day_limit else elim (atoi raw) [
  | none ↦ err invalid_limit
  | some n ↦ if ltb_ℤ n (pos 1) || ltb_ℤ max_limit n then err limit_out_of_range else ok n
]

unfoldable pub day_number : Bytes → ℤ → ParamError → Result ParamError ℤ
day_number raw otherwise refusal = if is_empty raw then ok otherwise else elim (atoi raw) [
  | none ↦ err refusal
  | some n ↦ if ltb_ℤ n (pos 0) then err refusal else ok n
]

-- `parses_date` tells whether time.Parse("20060102", value) succeeds.
module _ (parses_date : Bytes → Bool) where
  unfoldable pub is_valid_date : Bytes → Bool
  is_valid_date value = (length value == 8) && parses_date value

  unfoldable pub build_day_list_params : Query → Result ParamError DayListParams
  build_day_list_params r = do
    reject_if (is_empty (r (codes "date"))) (is_required (codes "date"))
    reject_if (not (is_valid_date (r (codes "date")))) not_a_date
    limit ← day_limit (r (codes "limit"))
    offset ← day_number (r (codes "offset")) (pos 0) negative_offset
    min_users ← day_number (r (codes "min_users")) default_min_users negative_min_users
    ok (record {
      date = r (codes "date");
      min_bookmark_count = min_users;
      offset = offset;
      limit = limit;
    })
