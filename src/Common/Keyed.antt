-- ===== src/Common/Keyed.antt =====
-- Go maps with strings as keys, and sets of strings: lists in which a key is looked up.
use mathlib.Core.Path.{◌≡◌, refl}
use mathlib.Core.Bool.{Bool, false, ◌||◌}
use mathlib.Core.Option.{Option, none, some}
use mathlib.Core.List.{List, [], ◌∷◌, ◌++◌}
use mathlib.Core.Logic.{inl, inr}
use native.Mathlib.Omega.{arith}
use hateblog_backend.Common.Tests.{if◌then◌else◌, Bool-cases}
use hateblog_backend.Common.Text.{Bytes, bytes_eq}

-- `_, ok := set[s]`
abbrev pub has_text : Bytes → List Bytes → Bool
has_text s [] = false
has_text s (t ∷ ts) = bytes_eq t s || has_text s ts

pub has_text-append :
    (s : Bytes) (ts us : List Bytes) → has_text s (ts ++ us) ≡ (has_text s ts || has_text s us)
has_text-append s [] us = refl
has_text-append s (t ∷ ts) us = ground (arith, has_text-append s ts us)

-- No text stands twice.
abbrev pub Distinct : List Bytes → Type 0
Distinct [] = Unit
Distinct (t ∷ ts) = (has_text t ts ≡ false) × Distinct ts

-- `v, ok := m[k]`, where an assignment puts the new pair in front.
abbrev pub find_text {ℓ} : {V : Type ℓ} → List (Bytes × V) → Bytes → Option V
find_text [] k = none
find_text ((j, v) ∷ m) k = if bytes_eq j k then some v else find_text m k

-- The first of two that is there.
abbrev pub or_else {ℓ} : {A : Type ℓ} → Option A → Option A → Option A
or_else (some a) o = some a
or_else none o = o

pub find_text-append {ℓ} :
    {V : Type ℓ} (m n : List (Bytes × V)) (k : Bytes)
    → find_text (m ++ n) k ≡ or_else (find_text m k) (find_text n k)
find_text-append [] n k = refl
find_text-append ((j, v) ∷ m) n k = elim (Bool-cases (bytes_eq j k)) [
  | inl same ↦ rw same refl
  | inr other ↦ rw other (find_text-append m n k)
]
