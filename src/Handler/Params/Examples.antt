-- ===== src/Handler/Params/Examples.antt =====
-- Tests of the parameters and paths, and the theorems about them at concrete requests.
use hateblog_backend.Common.{
  ◌≡◌, refl, Bool, true, none, some, [], if◌then◌else◌, pos, negsuc, ok, Bytes, codes, bytes_eq,
}
use hateblog_backend.Usecase.Entries.{DayListParams}
use hateblog_backend.Handler.Params.{
  Query, atoi, unsigned, digits_value, is_digit, minus, parse_int, in_range, read_query_int,
  day_limit, day_number, is_valid_date, build_day_list_params,
}

atoi_negative : atoi (codes "-12") ≡ some (negsuc 11)
unfolding atoi unsigned digits_value is_digit minus
atoi_negative = refl

atoi_too_large : atoi (codes "9223372036854775808") ≡ none
unfolding atoi unsigned digits_value is_digit
atoi_too_large = refl

-- The query date=20240102&limit=10&offset=2.
abbrev day_request : Query
day_request key =
    if bytes_eq key (codes "date")
    then codes "20240102"
    else if bytes_eq key (codes "limit")
    then codes "10"
    else if bytes_eq key (codes "offset")
    then codes "2"
    else []

abbrev any_date : Bytes → Bool
any_date s = true

abbrev day_params : DayListParams
day_params = record {
  date = codes "20240102";
  min_bookmark_count = pos 5;
  offset = pos 2;
  limit = pos 10;
}

build_sample : build_day_list_params any_date day_request ≡ ok day_params
unfolding build_day_list_params is_valid_date day_limit day_number atoi unsigned digits_value
    is_digit
build_sample = refl

read_sample : read_query_int day_request (codes "limit") (pos 1) (pos 100) (pos 20) ≡ ok (pos 10)
unfolding read_query_int parse_int in_range atoi unsigned digits_value is_digit
read_sample = refl
