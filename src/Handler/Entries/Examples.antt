-- ===== src/Handler/Entries/Examples.antt =====
-- The theorem about the entries of a day at a concrete request.
use hateblog_backend.Common.{
  ◌+◌, ◌*◌, ◌/◌, ◌%◌, ◌≡◌, Bool, true, Option, some, List, [], reverse, if◌then◌else◌, length,
  length-reverse, pos, pos_part, Bytes, codes, bytes_eq, bytes_eq_iff,
}
use hateblog_backend.Domain.Entry.{Entry}
use hateblog_backend.Domain.ListQuery.{sort_new, sort_hot}
use hateblog_backend.Pkg.Apptime.{Calendar}
use hateblog_backend.Usecase.Ports.{Cache}
use hateblog_backend.Usecase.Samples.{sample_repo, sample_repo-IsLimited, table, table-IsCache}
use hateblog_backend.Usecase.Entries.Days.{IsCoherent}
use hateblog_backend.Handler.Params.{Query, build_day_list_params}
use hateblog_backend.Handler.Entries.{handle_new_entries, handle_hot_entries}
use hateblog_backend.Handler.Entries.Served.{answer, handle_entries_lem}

-- The query date=20240102&limit=1.
abbrev request : Query
request key =
    if bytes_eq key (codes "date")
    then codes "20240102"
    else if bytes_eq key (codes "limit")
    then codes "1"
    else []

abbrev calendar : Calendar
calendar = record {
  date = λ y m d. pos_part y * 372 + (pos_part m * 31 + pos_part d);
  add_date = λ t y m d. t + pos_part y * 372 + pos_part m * 31 + pos_part d;
  weekday = λ t. t % 7;
  iso_week = λ t. (pos (t / 372), pos 1);
  parse = λ s. some (length s);
  civil = λ t. (pos (t / 372), pos 1, pos 1);
}

exact : (j k : Bytes) → bytes_eq j k ≡ true → j ≡ k
exact j k = (bytes_eq_iff j k).0

abbrev days : Cache Bytes (List Entry)
days = table bytes_eq exact

abbrev any_date : Bytes → Bool
any_date s = true

abbrev sample_url : Bytes → Option (Bytes × Bytes)
sample_url s = some (codes "example.com:80", codes "example.com")

empty-IsCoherent : IsCoherent calendar sample_repo reverse days true []
empty-IsCoherent date es h = cc h

handle_entries_lem_example :
    let new =
      handle_new_entries sample_url
        (codes "/api")
        any_date
        calendar
        sample_repo
        reverse
        days
        true
        request
        [] in
    let hot =
      handle_hot_entries sample_url
        (codes "/api")
        any_date
        calendar
        sample_repo
        reverse
        days
        true
        request
        [] in
    (new.0
      ≡ answer sample_url
          (codes "/api")
          any_date
          calendar
          sample_repo
          reverse
          days
          true
          []
          sort_new
          (build_day_list_params any_date request))
    × (hot.0
        ≡ answer sample_url
            (codes "/api")
            any_date
            calendar
            sample_repo
            reverse
            days
            true
            []
            sort_hot
            (build_day_list_params any_date request))
    × IsCoherent calendar sample_repo reverse days true new.1
    × IsCoherent calendar sample_repo reverse days true hot.1
handle_entries_lem_example =
    handle_entries_lem sample_url (codes "/api") any_date calendar sample_repo reverse days true
      (table-IsCache bytes_eq exact) sample_repo-IsLimited length-reverse request []
      empty-IsCoherent
