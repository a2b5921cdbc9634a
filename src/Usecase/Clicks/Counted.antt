-- ===== src/Usecase/Clicks/Counted.antt =====
-- What a recorded click changes.
use hateblog_backend.Common.{
  ℕ, ◌+◌, ◌≡◌, refl, ap, ◌∙◌, ◌⊎◌, inl, inr, Bool, false, not, ◌&&◌, ◌||◌, Option, none, some, List,
  [], ◌∷◌, arith, ◌==◌, if◌then◌else◌, Bool-cases, any, Result, ok, err,
}
use hateblog_backend.Domain.Tag.{Uuid}
use hateblog_backend.Domain.Entry.{Time, Entry}
use hateblog_backend.Usecase.Clicks.{
  truncate_to_day, Calendar, increment_failed, entry_not_found, ClickError, Fault, increment,
  record_click, ClickRow, is_bucket, upsert_click,
}

-- The clicks on an entry on a day.
abbrev pub count_of : Uuid → Time → List ClickRow → ℕ
count_of id day [] = 0
count_of id day (row ∷ rows) = if is_bucket id day row then row.count else count_of id day rows

-- No two rows stand for one entry and one day.
abbrev pub AreBuckets : List ClickRow → Type 0
AreBuckets [] = Unit
AreBuckets (row ∷ rows) =
    (any (is_bucket row.entry_id row.clicked_at) rows ≡ false) × AreBuckets rows

upsert_click-count_of :
    (id j : Uuid) (day d : Time) (rows : List ClickRow)
    → count_of j d (upsert_click id day rows)
      ≡ count_of j d rows + (if j == id && d == day then 1 else 0)
unfolding upsert_click is_bucket
upsert_click-count_of id j day d [] = ground arith
upsert_click-count_of id j day d (row ∷ rows) =
    let rest = upsert_click-count_of id j day d rows in ground (arith, rest)

upsert_click-any :
    (id j : Uuid) (day d : Time) (rows : List ClickRow)
    → any (is_bucket j d) (upsert_click id day rows)
      ≡ (any (is_bucket j d) rows || (id == j && day == d))
unfolding upsert_click is_bucket
upsert_click-any id j day d [] = ground arith
upsert_click-any id j day d (row ∷ rows) =
    let rest = upsert_click-any id j day d rows in ground (arith, rest)

upsert_click-AreBuckets :
    (id : Uuid) (day : Time) (rows : List ClickRow)
    → AreBuckets rows
    → AreBuckets (upsert_click id day rows)
unfolding upsert_click
upsert_click-AreBuckets id day [] h = (refl, tt)
upsert_click-AreBuckets id day (row ∷ rows) (alone, h) = elim (Bool-cases (is_bucket id day row)) [
  | inl same ↦ rw same (alone, h)
  | inr other ↦
      let rest = upsert_click-AreBuckets id day rows h in
      let still = upsert_click-any id row.entry_id day row.clicked_at rows in
      rw other
        (apart row (any (is_bucket row.entry_id row.clicked_at) rows) alone still other, rest)
]
  where
    apart :
        (row : ClickRow) {a : Bool} (b : Bool)
        → b ≡ false
        → a ≡ (b || (id == row.entry_id && day == row.clicked_at))
        → is_bucket id day row ≡ false
        → a ≡ false
    apart row b alone q other = unfold is_bucket in ground arith

increment_lem :
    (calendar : Calendar) (fails : Option Fault) (id : Uuid) (now : Time) (rows : List ClickRow)
    → let out = increment calendar fails id now rows in
      ((out.0 ≡ ok tt) × (out.1 ≡ upsert_click id (truncate_to_day calendar now) rows))
      ⊎ ((f : ClickError) × (out.0 ≡ err f) × (out.1 ≡ rows))
unfolding increment
increment_lem calendar fails id now rows = elim (Bool-cases (id == 0)) [
  | inl unnamed ↦ rw unnamed (inr (_, refl, refl))
  | inr named ↦ rw named (ran fails)
]
  where
    ran :
        (o : Option Fault)
        → let out : Result ClickError (Unit {0}) × List ClickRow = elim o [
          | some f ↦ (err (increment_failed f), rows)
          | none ↦ (ok tt, upsert_click id (truncate_to_day calendar now) rows)
        ] in
          ((out.0 ≡ ok tt) × (out.1 ≡ upsert_click id (truncate_to_day calendar now) rows))
          ⊎ ((f : ClickError) × (out.0 ≡ err f) × (out.1 ≡ rows))
    ran none = inl (refl, refl)
    ran (some f) = inr (_, refl, refl)

-- The table counts one click more for the entry and the day, or the request fails.
abbrev pub IsRecorded :
    (Uuid → Result Fault Entry)
    → Uuid
    → Time
    → Uuid
    → Time
    → List ClickRow
    → Result ClickError (Unit {0}) × List ClickRow
    → Type 0
IsRecorded get_entry id day j d rows out =
    (((e : Entry) × (get_entry id ≡ ok e)
        × (out.0 ≡ ok tt)
        × (count_of j d out.1 ≡ count_of j d rows + (if j == id && d == day then 1 else 0)))
      ⊎ ((f : ClickError) × (out.0 ≡ err f) × (out.1 ≡ rows)))
    × AreBuckets out.1

-- A recorded click is for an entry that the repository has, and counts one on the row of that entry
-- and the day of the click and on no other; any failure leaves the table as it is. The table still
-- has one row for an entry and a day.
pub record_click_lem :
    (initialized : Bool) (get_entry : Uuid → Result Fault Entry) (calendar : Calendar)
    (fails : Option Fault) (id : Uuid) (now : Time) (rows : List ClickRow) (j : Uuid) (d : Time)
    → AreBuckets rows
    → IsRecorded get_entry id
        (truncate_to_day calendar now)
        j
        d
        rows
        (record_click initialized get_entry calendar fails id now rows)
unfolding record_click
record_click_lem initialized get_entry calendar fails id now rows j d h =
    elim (Bool-cases (not initialized)) [
      | inl missing ↦ rw missing (inr (_, refl, refl), h)
      | inr there ↦ elim (Bool-cases (id == 0)) [
        | inl unnamed ↦ rw (there, unnamed) (inr (_, refl, refl), h)
        | inr named ↦ rw (there, named) (looked_up (get_entry id) refl)
      ]
    ]
  where
    day : Time
    day = truncate_to_day calendar now

    looked_up :
        (m : Result Fault Entry)
        → get_entry id ≡ m
        → IsRecorded get_entry id day j d rows (elim m [
          | err f ↦ (err (entry_not_found f), rows)
          | ok e ↦ increment calendar fails id now rows
        ])
    looked_up (err f) q = (inr (_, refl, refl), h)
    looked_up (ok e) q = elim (increment_lem calendar fails id now rows) [
      | inl (done, now_rows) ↦ (
        inl (e, q, done, ap (count_of j d) now_rows ∙ upsert_click-count_of id j day d rows),
        rw now_rows (upsert_click-AreBuckets id day rows h),
      )
      | inr (f, failed, same) ↦ (inr (f, failed, same), rw same h)
    ]
