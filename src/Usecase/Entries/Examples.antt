-- ===== src/Usecase/Entries/Examples.antt =====
-- The theorems about the entries of a day with a table as the cache.
use hateblog_backend.Common.{
  ℕ, ◌+◌, ◌%◌, ◌≡◌, refl, subst, inl, inr, true, false, some, List, [], ◌∷◌, arith, if◌then◌else◌,
  Bool-cases, length, take, drop, pos, pos_part, ok, Bytes, codes, bytes_eq, bytes_eq_iff,
}
use mathlib.Core.List.{Perm}
use mathlib.Core.List.Perm
use hateblog_backend.Domain.Entry.{Entry}
use hateblog_backend.Domain.ListQuery.{sort_hot}
use hateblog_backend.Pkg.Apptime.{Calendar}
use hateblog_backend.Usecase.Ports.{Cache}
use hateblog_backend.Usecase.Samples.{sample_entries, sample_repo, table}
use hateblog_backend.Usecase.Entries.{
  DayListParams, hotter, filter_by_min_users, paginate, cut_page, page_from, page_count, page_end,
}
use hateblog_backend.Usecase.Entries.Days.{Sorts, IsHotOrdered, page, IsCoherent, page_of_day-hot}

paginate_two : paginate {A = ℕ} (1 ∷ 2 ∷ 3 ∷ 4 ∷ []) (pos 1) (pos 2) ≡ some (2 ∷ 3 ∷ [])
unfolding paginate cut_page page_from page_count page_end
paginate_two = refl

-- Insertion sort in the hot order.
abbrev insert_hot : Entry → List Entry → List Entry
insert_hot e [] = e ∷ []
insert_hot e (f ∷ fs) = if hotter f e then f ∷ insert_hot e fs else e ∷ f ∷ fs

abbrev sort_entries : List Entry → List Entry
sort_entries [] = []
sort_entries (e ∷ es) = insert_hot e (sort_entries es)

insert_hot-perm : (e : Entry) (es : List Entry) → Perm (insert_hot e es) (e ∷ es)
insert_hot-perm e [] = Perm.refl (e ∷ [])
insert_hot-perm e (f ∷ fs) = elim (Bool-cases (hotter f e)) [
  | inl over ↦ rw over (Perm.trans (Perm.cons f (insert_hot-perm e fs)) (Perm.swap e f fs))
  | inr under ↦ rw under (Perm.refl (e ∷ f ∷ fs))
]

sort_entries-perm : (es : List Entry) → Perm (sort_entries es) es
sort_entries-perm [] = Perm.refl []
sort_entries-perm (e ∷ es) =
    Perm.trans (insert_hot-perm e (sort_entries es)) (Perm.cons e (sort_entries-perm es))

hotter-asym : (a b : Entry) → hotter a b ≡ true → hotter b a ≡ false
unfolding hotter
hotter-asym a b h = ground arith

insert_hot-IsHotOrdered :
    (e : Entry) (es : List Entry) → IsHotOrdered es → IsHotOrdered (insert_hot e es)
insert_hot-IsHotOrdered e [] h = tt
insert_hot-IsHotOrdered e (f ∷ []) h = elim (Bool-cases (hotter f e)) [
  | inl over ↦ rw over (hotter-asym f e over, tt)
  | inr under ↦ rw under (under, tt)
]
insert_hot-IsHotOrdered e (f ∷ g ∷ gs) (h, k) = elim (Bool-cases (hotter f e)) [
  | inl over ↦
      let rest = insert_hot-IsHotOrdered e (g ∷ gs) k in
      elim (Bool-cases (hotter g e)) [
        | inl more ↦ rw (over, more) (h, subst IsHotOrdered (step more) rest)
        | inr less ↦ rw (over, less) (hotter-asym f e over, (less, k))
      ]
  | inr under ↦ rw under (under, (h, k))
]
  where
    step : hotter g e ≡ true → insert_hot e (g ∷ gs) ≡ g ∷ insert_hot e gs
    step more = rw more refl

sort_entries-IsHotOrdered : (es : List Entry) → IsHotOrdered (sort_entries es)
sort_entries-IsHotOrdered [] = tt
sort_entries-IsHotOrdered (e ∷ es) =
    insert_hot-IsHotOrdered e (sort_entries es) (sort_entries-IsHotOrdered es)

sort_entries-Sorts : Sorts sort_entries
sort_entries-Sorts = record {
  sorted_perm = sort_entries-perm;
  sorted_order = sort_entries-IsHotOrdered;
}

-- A calendar in which every text is a date; only DayRange is used here.
abbrev any_calendar : Calendar
any_calendar = record {
  date = λ y m d. 0;
  add_date = λ t y m d. t + pos_part d;
  weekday = λ t. t % 7;
  iso_week = λ t. (pos 0, pos 0);
  parse = λ s. some (length s);
  civil = λ t. (pos 0, pos 1, pos 1);
}

bytes_eq_exact : (j k : Bytes) → bytes_eq j k ≡ true → j ≡ k
bytes_eq_exact j k = (bytes_eq_iff j k).0

abbrev days : Cache Bytes (List Entry)
days = table bytes_eq bytes_eq_exact

abbrev first_page : DayListParams
first_page = record {
  date = codes "20240102";
  min_bookmark_count = pos 5;
  offset = pos 0;
  limit = pos 20;
}

page_of_day-hot_example :
    (hot : List Entry) × Perm hot (filter_by_min_users sample_entries (pos 5))
    × IsHotOrdered hot
    × (page any_calendar sample_repo sort_entries days true sort_hot first_page sample_entries
        ≡ ok (record { entries = take 20 (drop 0 hot); total = pos (length hot) }))
page_of_day-hot_example =
    page_of_day-hot any_calendar sample_repo sort_entries days true sort_entries-Sorts
      sample_entries first_page 0 19 refl refl (omega arith)

empty-IsCoherent : IsCoherent any_calendar sample_repo sort_entries days true []
empty-IsCoherent date es h = cc h
