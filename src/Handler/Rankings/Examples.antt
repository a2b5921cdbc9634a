-- ===== src/Handler/Rankings/Examples.antt =====
-- The theorem about the rankings at a concrete request.
use hateblog_backend.Common.{
  ◌+◌, ◌*◌, ◌/◌, ◌%◌, ◌≡◌, ap₂, Bool, true, ◌&&◌, Option, some, [], if◌then◌else◌, &&-true, length,
  ℤ, pos, pos_part, eqb_ℤ, eqb_ℤ_iff, Bytes, codes, bytes_eq,
}
use hateblog_backend.Pkg.Apptime.{Calendar}
use hateblog_backend.Usecase.Ports.{Cache}
use hateblog_backend.Usecase.Samples.{sample_repo, sample_repo-IsLimited, table, table-IsCache}
use hateblog_backend.Usecase.Ranking.{Ranked}
use hateblog_backend.Handler.Params.{Query}
use hateblog_backend.Handler.Rankings.{
  yearly_params, monthly_params, weekly_params, handle_yearly, handle_monthly, handle_weekly,
}
use hateblog_backend.Handler.Rankings.Answers.{
  IsAnswerYearly, IsAnswerMonthly, IsAnswerWeekly, handle_rankings_lem,
}

-- The query year=2024&month=2&week=7&offset=1.
abbrev request : Query
request key =
    if bytes_eq key (codes "year")
    then codes "2024"
    else if bytes_eq key (codes "month")
    then codes "2"
    else if bytes_eq key (codes "week")
    then codes "7"
    else if bytes_eq key (codes "offset")
    then codes "1"
    else []

abbrev calendar : Calendar
calendar = record {
  date = λ y m d. pos_part y * 372 + (pos_part m * 31 + pos_part d);
  add_date = λ t y m d. t + pos_part y * 372 + pos_part m * 31 + pos_part d;
  weekday = λ t. t % 7;
  iso_week = λ t. (pos (t / 372), pos 1);
  parse = λ s. some (length s);
  civil = λ t. (pos (t / 372), pos 1, pos 1);
}

abbrev pair_eq : ℤ × ℤ → ℤ × ℤ → Bool
pair_eq (a, b) (c, d) = eqb_ℤ a c && eqb_ℤ b d

pair_eq_sound : (j k : ℤ × ℤ) → pair_eq j k ≡ true → j ≡ k
pair_eq_sound (a, b) (c, d) h =
    let (p, q) = &&-true (eqb_ℤ a c) (eqb_ℤ b d) h in
    ap₂ (λ x y. (x, y)) ((eqb_ℤ_iff a c).0 p) ((eqb_ℤ_iff b d).0 q)

abbrev triple_eq : (ℤ × ℤ) × ℤ → (ℤ × ℤ) × ℤ → Bool
triple_eq (a, b) (c, d) = pair_eq a c && eqb_ℤ b d

triple_eq_sound : (j k : (ℤ × ℤ) × ℤ) → triple_eq j k ≡ true → j ≡ k
triple_eq_sound (a, b) (c, d) h =
    let (p, q) = &&-true (pair_eq a c) (eqb_ℤ b d) h in
    ap₂ (λ x y. (x, y)) (pair_eq_sound a c p) ((eqb_ℤ_iff b d).0 q)

abbrev years : Cache (ℤ × ℤ) Ranked
years = table pair_eq pair_eq_sound

abbrev periods : Cache ((ℤ × ℤ) × ℤ) Ranked
periods = table triple_eq triple_eq_sound

abbrev sample_url : Bytes → Option (Bytes × Bytes)
sample_url s = some (codes "example.com:80", codes "example.com")

handle_rankings_lem_example :
    IsAnswerYearly sample_url
      (codes "/")
      calendar
      sample_repo
      true
      years
      (yearly_params request)
      []
      (handle_yearly sample_url (codes "/") calendar sample_repo true years request [])
    × IsAnswerMonthly sample_url
        (codes "/")
        calendar
        sample_repo
        true
        periods
        (monthly_params request)
        []
        (handle_monthly sample_url (codes "/") calendar sample_repo true periods request [])
    × IsAnswerWeekly sample_url
        (codes "/")
        calendar
        sample_repo
        true
        periods
        (weekly_params request)
        []
        (handle_weekly sample_url (codes "/") calendar sample_repo true periods request [])
handle_rankings_lem_example =
    handle_rankings_lem sample_url (codes "/") calendar sample_repo true sample_repo-IsLimited years
      periods periods (table-IsCache pair_eq pair_eq_sound)
      (table-IsCache triple_eq triple_eq_sound) (table-IsCache triple_eq triple_eq_sound) request []
      [] [] (λ p m r h. cc h) (λ p m r h. cc h) (λ p m r h. cc h)
