-- ===== src/Handler/Other/Statuses/Examples.antt =====
-- The icons, the health, the clicks and the search at concrete requests.
use hateblog_backend.Common.{
  ℕ, ◌+◌, ◌*◌, ◌/◌, ◌%◌, ◌≡◌, refl, ◌⊎◌, true, Option, none, some, List, [], ◌∷◌, if◌then◌else◌,
  length, pos, pos_part, Result, ok, err, Bytes, codes, bytes_eq, trim_space, has_prefix,
}
use hateblog_backend.Domain.Entry.{Entry}
use hateblog_backend.Pkg.Apptime.{Calendar, truncate_to_day}
use hateblog_backend.Pkg.Hostname.{normalize, trim_dot, HostnameError}
use hateblog_backend.Usecase.Ports.{Fault}
use hateblog_backend.Usecase.Samples.{sample_entry, table-IsCache}
use hateblog_backend.Usecase.Favicon.{Icon}
use hateblog_backend.Usecase.Favicon.Examples.{url_host, same, redis, icon, codec, fetcher, a_host}
use hateblog_backend.Usecase.Clicks.{ClickRow, record_click}
use hateblog_backend.Usecase.Clicks.Counted.{IsRecorded, record_click_lem}
use hateblog_backend.Usecase.Search.Examples.{
  searches, search_repo, search_key_eq, search_key_eq_sound, empty-IsCoherent,
}
use hateblog_backend.Handler.Params.{Query}
use hateblog_backend.Handler.Responses.{internal_error, failure, payload}
use hateblog_backend.Handler.Search.{search_params, handle_search}
use hateblog_backend.Handler.Search.Found.{IsOutcome, handle_search_lem}
use hateblog_backend.Handler.Other.{handle_get_favicon}
use hateblog_backend.Handler.Other.Statuses.{IsIconOf, IsLimitedAt, handle_get_favicon_lem}

-- The query domain=a.jp.
abbrev icon_request : Query
icon_request key = if bytes_eq key (codes "domain") then codes "a.jp" else []

handle_get_favicon_lem_example :
    let out = (handle_get_favicon url_host same redis codec icon fetcher icon_request []).1 in
    ((i : Icon) × (out.status ≡ 200)
      × (out.body ≡ payload i.bytes)
      × (out.headers.content_type ≡ i.content_type)
      × IsIconOf url_host same redis codec icon fetcher [] (codes "a.jp") i)
    ⊎ ((out.status ≡ 425)
        × (out.body ≡ failure internal_error)
        × IsLimitedAt url_host same redis codec icon fetcher [] (codes "a.jp"))
handle_get_favicon_lem_example =
    handle_get_favicon_lem url_host same redis codec icon fetcher refl icon_request []
      (codes "a.jp") refl a_host refl trimmed
  where
    trimmed : trim_dot (codes "a.jp") ≡ codes "a.jp"
    trimmed = unfold trim_dot in refl

-- The host name "." that two dots give has no normal form of its own, so that the icon of it is
-- answered with 500.
two_dots :
    (normalize url_host same (codes "..") ≡ ok (codes "."))
    × ((e : HostnameError) × (normalize url_host same (codes ".") ≡ err e))
unfolding normalize trim_space has_prefix
two_dots = (refl, (_, refl))

abbrev calendar : Calendar
calendar = record {
  date = λ y m d. pos_part y * 372 + (pos_part m * 31 + pos_part d);
  add_date = λ t y m d. t + pos_part d;
  weekday = λ t. t % 7;
  iso_week = λ t. (pos (t / 372), pos 1);
  parse = λ s. some (length s);
  civil = λ t. (pos (t / 372), pos 1, pos 1);
}

abbrev any_entry : ℕ → Result Fault Entry
any_entry id = ok (sample_entry id 5)

abbrev one_row : List ClickRow
one_row = record { entry_id = 4; clicked_at = 32; count = 2 } ∷ []

record_click_lem_example :
    IsRecorded any_entry 4
      (truncate_to_day calendar 5)
      4
      32
      one_row
      (record_click true any_entry calendar none 4 5 one_row)
record_click_lem_example = record_click_lem true any_entry calendar none 4 5 one_row 4 32 (refl, tt)

-- The query q=go.
abbrev search_request : Query
search_request key = if bytes_eq key (codes "q") then codes "go" else []

abbrev sample_url : Bytes → Option (Bytes × Bytes)
sample_url s = some (codes "example.com:80", codes "example.com")

handle_search_lem_example :
    IsOutcome sample_url
      (codes "/api")
      search_repo
      searches
      true
      true
      []
      []
      (search_params search_request)
      (handle_search sample_url
        (codes "/api")
        true
        search_repo
        searches
        true
        true
        search_request
        ([], []))
handle_search_lem_example =
    handle_search_lem sample_url (codes "/api") search_repo searches true true
      (table-IsCache search_key_eq search_key_eq_sound) search_request [] [] empty-IsCoherent
