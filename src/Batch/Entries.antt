-- ===== src/Batch/Entries.antt =====
-- The table of entries as the batch programs write it: the columns id, url, bookmark_count and
-- updated_at, and the statements with which cmd/updater/main.go changes them.
use hateblog_backend.Common.{
  ℕ, Bool, false, not, ◌&&◌, Option, none, some, List, [], ◌∷◌, if◌then◌else◌, length, keep, any, ℤ,
  Result, ok, err, Bytes, bytes_eq,
}
use hateblog_backend.Usecase.Ports.{Fault}

-- The `id` of a row is its UUID as text; a time is in nanoseconds.
pub record Row : Type 0 where
  pub id : Bytes
  pub url : Bytes
  pub bookmark_count : ℤ
  pub updated_at : ℤ

abbrev pub Table : Type 0
Table = List Row

-- One SQL statement with its arguments; `refresh` is the one with COALESCE and a count or NULL.
pub data Statement : Type 0 where
  refresh : Option ℤ → ℤ → Bytes → Statement
  rewrite : Bytes → ℤ → ℤ → Bytes → Statement
  set_count : ℤ → ℤ → Bytes → Statement
  remove : Bytes → Statement

-- `WHERE url = $3` and `WHERE id = …`
unfoldable pub is_target : Statement → Row → Bool
is_target (refresh c now u) r = bytes_eq r.url u
is_target (rewrite u c now i) r = bytes_eq r.id i
is_target (set_count c now i) r = bytes_eq r.id i
is_target (remove i) r = bytes_eq r.id i

-- `SET bookmark_count = COALESCE($1, bookmark_count), updated_at = $2`
abbrev pub with_count : Option ℤ → ℤ → Row → Row
with_count none now r = record r { updated_at = now }
with_count (some c) now r = record r { bookmark_count = c; updated_at = now }

-- What a statement leaves of a row that it is about.
unfoldable pub change : Statement → Row → Option Row
change (refresh c now u) r = some (with_count c now r)
change (rewrite u c now i) r = some (record r { url = u; bookmark_count = c; updated_at = now })
change (set_count c now i) r = some (with_count (some c) now r)
change (remove i) r = none

unfoldable pub change_row : Statement → Row → Option Row
change_row s r = if is_target s r then change s r else some r

-- The rows for which something is left.
abbrev pub filter_map {ℓ ℓ₁} : {A : Type ℓ} {B : Type ℓ₁} → (A → Option B) → List A → List B
filter_map f [] = []
filter_map f (x ∷ xs) = elim (f x) [ none ↦ filter_map f xs | some y ↦ y ∷ filter_map f xs ]

-- `tag.RowsAffected()`
unfoldable pub affected : Statement → Table → ℕ
affected s rows = length (keep (is_target s) rows)

-- The UNIQUE constraint on `url`, which only a new URL can break: another row has it.
unfoldable pub breaks_unique : Statement → Table → Bool
breaks_unique (rewrite u c now i) rows =
    any (is_target (rewrite u c now i)) rows
    && any (λ r. bytes_eq r.url u && not (bytes_eq r.id i)) rows
breaks_unique (refresh c now u) rows = false
breaks_unique (set_count c now i) rows = false
breaks_unique (remove i) rows = false

pub data SqlError : Type 0 where
  unique_violation : SqlError
  broken : Fault → SqlError

-- `pool.Exec`, with the failures of the connection as an argument.
unfoldable pub exec : (Statement → Option Fault) → Statement → Table → Result SqlError (Table × ℕ)
exec failure s rows = elim (failure s) [
  | some f ↦ err (broken f)
  | none ↦
      if breaks_unique s rows
      then err unique_violation
      else ok (filter_map (change_row s) rows, affected s rows)
]
