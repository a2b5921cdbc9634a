-- ===== src/Usecase/Clicks.antt =====
-- internal/usecase/metrics/service.go and internal/infra/postgres/click_metrics_repository.go: the
-- clicks on an entry, counted by day. The table click_metrics is a list of rows with one row for an
-- entry and a day; that a count outgrows PostgreSQL's INTEGER is left out.
pub mod Counted
use hateblog_backend.Common.{
  ℕ, ◌+◌, ◌-◌, ◌/◌, Bool, not, ◌&&◌, Option, none, some, List, [], ◌∷◌, ◌==◌, if◌then◌else◌, pos,
  Result, ok, err,
}
use hateblog_backend.Domain.Tag.{Uuid}
use hateblog_backend.Domain.Entry.{Time, Entry}
use hateblog_backend.Pkg.Apptime.{Calendar, truncate_to_day}
use hateblog_backend.Usecase.Ports.{Fault}

pub record ClickRow : Type 0 where
  pub entry_id : Uuid
  pub clicked_at : Time
  pub count : ℕ

pub data ClickError : Type 0 where
  not_initialized : ClickError
  entry_id_required : ClickError
  entry_not_found : Fault → ClickError
  increment_failed : Fault → ClickError

unfoldable pub is_bucket : Uuid → Time → ClickRow → Bool
is_bucket id day row = row.entry_id == id && row.clicked_at == day

-- INSERT with ON CONFLICT (entry_id, clicked_at) DO UPDATE.
unfoldable pub upsert_click : Uuid → Time → List ClickRow → List ClickRow
unfolding is_bucket
upsert_click id day [] = record { entry_id = id; clicked_at = day; count = 1 } ∷ []
upsert_click id day (row ∷ rows) =
    let rest = upsert_click id day rows in
    if is_bucket id day row then record row { count = row.count + 1 } ∷ rows else row ∷ rest

-- `fails` is an error of the statement, which then changes nothing.
unfoldable pub increment :
    Calendar
    → Option Fault
    → Uuid
    → Time
    → List ClickRow
    → Result ClickError (Unit {0}) × List ClickRow
unfolding upsert_click
increment calendar fails id clicked_at rows =
    if id == 0 then (err entry_id_required, rows) else elim fails [
      | some f ↦ (err (increment_failed f), rows)
      | none ↦ (ok tt, upsert_click id (truncate_to_day calendar clicked_at) rows)
    ]

-- `get_entry` is Get of the repository of the entries.
unfoldable pub record_click :
    Bool
    → (Uuid → Result Fault Entry)
    → Calendar
    → Option Fault
    → Uuid
    → Time
    → List ClickRow
    → Result ClickError (Unit {0}) × List ClickRow
unfolding increment
record_click initialized get_entry calendar fails id now rows =
    if not initialized
    then (err not_initialized, rows)
    else if id == 0
    then (err entry_id_required, rows)
    else elim (get_entry id) [
      | err f ↦ (err (entry_not_found f), rows)
      | ok e ↦ increment calendar fails id now rows
    ]
