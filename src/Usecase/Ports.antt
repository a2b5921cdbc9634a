-- ===== src/Usecase/Ports.antt =====
-- What the use cases take from outside: the repository of entries and the caches, as interfaces.
-- internal/domain/repository/repository.go and the Cache interfaces of internal/usecase.
use hateblog_backend.Common.{
  ℕ, ◌≡◌, ◌⊎◌, Bool, true, false, Option, none, some, List, length, ℤ, pos, ◌≤ℤ◌, ◌<ℤ◌, Result, ok,
  err,
}
use hateblog_backend.Domain.Entry.{Entry}
use hateblog_backend.Domain.ListQuery.{ListQuery}

-- An error of the database or of Redis; the number stands for its message.
pub data Fault : Type 0 where
  fault : ℕ → Fault

-- The repository over one state of the database: what List and Count answer.
pub record EntryRepository : Type 0 where
  pub list : ListQuery → Result Fault (List Entry)
  pub count : ListQuery → Result Fault ℤ

-- A list never has more entries than the query's limit, when that is positive (SQL's LIMIT).
pub record IsLimited (r : EntryRepository) : Type 0 where
  pub list_le_limit :
      (q : ListQuery) (es : List Entry)
      → pos 0 <ℤ q.limit
      → r.list q ≡ ok es
      → pos (length es) ≤ℤ q.limit

-- A cache with keys in K and values in V. Get finds a value, nothing, or fails; Set may fail too.
pub record Cache (K V : Type 0) : Type 1 where
  pub Store : Type 0
  pub get : Store → K → Result Fault (Option V)
  pub set : Store → K → V → Store × Result Fault (Unit {0})

-- What is found after a Set is the value just set, under its own key, or was there before. A value
-- may be gone at any time, since entries expire.
pub record IsCache {K V : Type 0} (c : Cache K V) : Type 0 where
  pub get-set :
      (st : c.Store) (k : K) (v : V) (j : K) (w : V)
      → c.get (c.set st k v).0 j ≡ ok (some w)
      → ((j ≡ k) × (w ≡ v)) ⊎ (c.get st j ≡ ok (some w))

-- In some use cases a failed lookup is logged and counts as a miss.
unfoldable pub found {ℓ} : {A : Type ℓ} → Result Fault (Option A) → Option A
found (ok hit) = hit
found (err f) = none

-- Whether something was found.
abbrev pub is_hit {ℓ} : {A : Type ℓ} → Option A → Bool
is_hit (some a) = true
is_hit none = false

pub found-some {ℓ} :
    {A : Type ℓ} (m : Result Fault (Option A)) {a : A} → found m ≡ some a → m ≡ ok (some a)
unfolding found
found-some (ok (some a)) h = cc
found-some (ok none) h = cc
found-some (err f) h = cc
