-- ===== src/Usecase/Archive/Examples.antt =====
-- The archive at concrete counts, with tables as the caches.
use hateblog_backend.Common.{
  ℕ, ◌≡◌, refl, Bool, true, false, Option, none, List, [], ◌∷◌, ℤ, pos, eqb_ℤ, eqb_ℤ_iff, Result,
  ok,
}
use hateblog_backend.Usecase.Ports.{Fault, Cache}
use hateblog_backend.Usecase.Samples.{table}
use hateblog_backend.Usecase.Archive.{
  Date, ArchiveError, ArchiveCount, is_same_date, today_of, past_of, merge, both_hit,
  get_from_cache, fetch_counts, answer_counts, list_with_cache_status, is_allowed_min_users,
}
use hateblog_backend.Usecase.Archive.Split.{Keeps, merge_split_later, list_with_cache_status_twice}

abbrev january : ℕ → Date
january d = (pos 2024, pos 1, pos d)

abbrev two_days : List ArchiveCount
two_days =
    record { date = january 2; count = pos 30 } ∷ record { date = january 1; count = pos 40 } ∷ []

abbrev older_day : List ArchiveCount
older_day = record { date = january 1; count = pos 40 } ∷ []

eqb_ℤ_sound : (a b : ℤ) → eqb_ℤ a b ≡ true → a ≡ b
eqb_ℤ_sound a b = (eqb_ℤ_iff a b).0

abbrev today_table : Cache ℤ (Option ArchiveCount)
today_table = table eqb_ℤ eqb_ℤ_sound

abbrev past_table : Cache ℤ (List ArchiveCount)
past_table = table eqb_ℤ eqb_ℤ_sound

eqb_ℤ-same : (k : ℤ) → eqb_ℤ k k ≡ true
eqb_ℤ-same k = (eqb_ℤ_iff k k).1 refl

module _ {V : Type 0} where
  table-Keeps : Keeps (table {V = V} eqb_ℤ eqb_ℤ_sound)
  table-Keeps = record { set_ok = λ st k v. refl; get-set_same = λ st k v. rw (eqb_ℤ-same k) refl }

abbrev counts_repo : ℤ → Result Fault (List ArchiveCount)
counts_repo m = ok two_days

merge_split_later_example :
    merge (january 3) (today_of (january 2) two_days none) (past_of (january 2) two_days)
    ≡ older_day
merge_split_later_example =
    merge_split_later (january 2) (january 3) (record { date = january 2; count = pos 30 })
      older_day (unfold is_same_date in (refl, tt)) (unfold is_same_date in refl)
      (unfold is_same_date in refl)

abbrev sample_call :
    List (ℤ × Option ArchiveCount) × List (ℤ × List ArchiveCount)
    → Result ArchiveError (List ArchiveCount × Bool)
      × (List (ℤ × Option ArchiveCount) × List (ℤ × List ArchiveCount))
sample_call = list_with_cache_status counts_repo today_table past_table true (january 2) (pos 5)

first_call : (sample_call ([], [])).0 ≡ ok (two_days, false)
unfolding list_with_cache_status answer_counts get_from_cache both_hit fetch_counts
    is_allowed_min_users
first_call = refl

list_with_cache_status_twice_example :
    (sample_call (sample_call ([], [])).1).0 ≡ ok (two_days, true)
list_with_cache_status_twice_example =
    list_with_cache_status_twice counts_repo today_table past_table table-Keeps table-Keeps
      (january 2) (pos 5) two_days [] [] (unfold is_same_date in (refl, tt)) first_call
