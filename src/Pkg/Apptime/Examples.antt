-- ===== src/Pkg/Apptime/Examples.antt =====
-- Tests of the ranges, in a calendar of twelve months of 31 days.
use hateblog_backend.Common.{
  ℕ, ◌+◌, ◌-◌, ◌*◌, ◌/◌, ◌%◌, some, arith, length, ℤ, pos, pos_part, neg_part,
}
use hateblog_backend.Pkg.Apptime.{Calendar}
use hateblog_backend.Pkg.Apptime.Ranges.{Normalises}
use hateblog_backend.Domain.Entry.{Time}

abbrev day_number : ℤ → ℤ → ℤ → Time
day_number y m d = pos_part y * 372 + (pos_part m * 31 + pos_part d)

abbrev day : ℕ → Time
day n = n

-- A point in time is a number of days here; weeks are counted from the first day of a year.
abbrev even_calendar : Calendar
even_calendar = record {
  date = day_number;
  add_date = λ t y m d. t + day_number y m d - neg_part d;
  weekday = λ t. t % 7;
  iso_week = λ t. (pos ((t - 32) / 372), pos ((t - 32) % 372 / 7 + 1));
  parse = λ s. some (length s);
  civil = λ t. (pos (t / 372), pos 1, pos 1);
}

even-Normalises : Normalises even_calendar
even-Normalises = record {
  add_date-date = λ y m d dy dm dd. omega arith;
  date_carry = λ y d. omega arith;
  add_date-add_date = λ t a b. omega arith;
}
