-- ===== src/Pkg/Apptime.antt =====
-- internal/pkg/apptime/apptime.go: the rule for created_at and the ranges of days, years, months
-- and ISO weeks. The clock (Now) and ParseInLocation's reading of a date are parameters.
pub mod Ranges
pub mod Examples
use hateblog_backend.Common.{
  ℕ, ◌+◌, ◌-◌, ◌*◌, ◌/◌, ap, not, ◌||◌, Option, none, some, ltb, leb, ◌==◌, if◌then◌else◌, all, ℤ,
  pos, pos_part, neg_part, ◌-ℤ◌, sub_ℕ, ltb_ℤ, eqb_ℤ, Result, ok, err, ◌>>=◌, ◌>>◌, reject_if,
  Bytes,
}
use hateblog_backend.Domain.Entry.{Time}

-- What the ranges use of the package time, in the zone time.Local.
pub record Calendar : Type 0 where
  -- time.Date(year, month, day, 0, 0, 0, 0, time.Local)
  pub date : ℤ → ℤ → ℤ → Time
  -- t.AddDate(years, months, days)
  pub add_date : Time → ℤ → ℤ → ℤ → Time
  -- t.Weekday(): 0 is Sunday
  pub weekday : Time → ℕ
  -- t.ISOWeek(): year and week
  pub iso_week : Time → ℤ × ℤ
  -- time.ParseInLocation("20060102", s, time.Local)
  pub parse : Bytes → Option Time
  -- t.Year(), t.Month(), t.Day() in time.Local
  pub civil : Time → ℤ × ℤ × ℤ

pub data RangeError : Type 0 where
  invalid_date : Bytes → RangeError
  invalid_year : ℤ → RangeError
  invalid_month : ℤ → RangeError
  invalid_week : ℤ → RangeError
  week_out_of_range : ℤ → ℤ → RangeError

-- 24 hours in nanoseconds.
abbrev pub created_at_fallback_threshold : ℕ
created_at_fallback_threshold = 24 * 60 * 60 * 1_000_000_000

-- `now.Sub(postedAt)` is at least the threshold. Sub is exact up to 292 years and saturates beyond,
-- on the same side of 24 hours.
unfoldable pub resolve_created_at : Time → Time → Time
resolve_created_at now posted_at =
    if leb (posted_at + created_at_fallback_threshold) now then posted_at else now

module _ (c : Calendar) where
  unfoldable pub truncate_to_day : Time → Time
  truncate_to_day t = let (year, month, day) = c.civil t in c.date year month day

  unfoldable pub parse_date : Bytes → Result RangeError Time
  parse_date s = elim (c.parse s) [ none ↦ err (invalid_date s) | some t ↦ ok t ]

  unfoldable pub day_range : Bytes → Result RangeError (Time × Time)
  unfolding parse_date
  day_range s = do start ← parse_date s; ok (start, c.add_date start (pos 0) (pos 0) (pos 1))

  unfoldable pub year_range : ℤ → Result RangeError (Time × Time)
  year_range year = do
    reject_if (ltb_ℤ year (pos 2000) || ltb_ℤ (pos 9999) year) (invalid_year year)
    let start = c.date year (pos 1) (pos 1)
    ok (start, c.add_date start (pos 1) (pos 0) (pos 0))

  unfoldable pub month_range : ℤ → ℤ → Result RangeError (Time × Time)
  month_range year month = do
    reject_if (ltb_ℤ month (pos 1) || ltb_ℤ (pos 12) month) (invalid_month month)
    let start = c.date year month (pos 1)
    ok (start, c.add_date start (pos 0) (pos 1) (pos 0))

  -- Monday of the week that holds January 4, then `week - 1` weeks on.
  unfoldable pub week_start : ℤ → ℤ → Time
  week_start year week =
      let jan4 = c.date year (pos 1) (pos 4) in
      let weekday = if c.weekday jan4 == 0 then 7 else c.weekday jan4 in
      let monday = c.add_date jan4 (pos 0) (pos 0) (pos 1 -ℤ pos weekday) in
      c.add_date monday (pos 0) (pos 0) (sub_ℕ (7 * pos_part week) (7 + 7 * neg_part week))

  unfoldable pub iso_week_range : ℤ → ℤ → Result RangeError (Time × Time)
  iso_week_range year week = do
    reject_if (ltb_ℤ week (pos 1) || ltb_ℤ (pos 53) week) (invalid_week week)
    let start = week_start year week
    let (iso_year, iso_week) = c.iso_week start
    reject_if (not (eqb_ℤ iso_year year) || not (eqb_ℤ iso_week week)) (week_out_of_range week year)
    ok (start, c.add_date start (pos 0) (pos 0) (pos 7))
