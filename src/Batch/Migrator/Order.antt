-- ===== src/Batch/Migrator/Order.antt =====
-- The bookmarks in the order of their ids, and what comes after the last id of a batch.
use hateblog_backend.Common.{
  ℕ, zero, suc, ◌≡◌, refl, sym, ap, ◌∙◌, subst, inl, inr, Bool, true, false, List, [], ◌∷◌, arith,
  &&-true, Bool-cases, take, drop, keep, all, all-keep, ℤ, ltb_ℤ, leb_ℤ,
}
use hateblog_backend.Batch.Migrator.Rows.{BookmarkRow}
use hateblog_backend.Batch.Migrator.{last_id}

abbrev pub after : ℤ → List BookmarkRow → List BookmarkRow
after last rows = keep (λ b. ltb_ℤ last b.id) rows

-- The bookmarks lie in the order of their ids, which differ: the primary key.
abbrev pub Ascending : List BookmarkRow → Type 0
Ascending [] = Unit
Ascending (b ∷ rows) = (all (λ c. ltb_ℤ b.id c.id) rows ≡ true) × Ascending rows

all-take {ℓ} :
    {A : Type ℓ} (p : A → Bool) (n : ℕ) (xs : List A) → all p xs ≡ true → all p (take n xs) ≡ true
all-take p zero xs h = refl
all-take p (suc n) [] h = refl
all-take p (suc n) (x ∷ xs) h =
    let (here, rest) = &&-true (p x) (all p xs) h in ground (arith, here, all-take p n xs rest)

keep-all {ℓ} : {A : Type ℓ} (p : A → Bool) (xs : List A) → all p xs ≡ true → keep p xs ≡ xs
keep-all p [] h = refl
keep-all p (x ∷ xs) h =
    let (here, rest) = &&-true (p x) (all p xs) h in
    rw (keep, here) (ap (λ r. x ∷ r) (keep-all p xs rest))

all_after :
    (d e : ℤ) (rows : List BookmarkRow)
    → ltb_ℤ d e ≡ true
    → all (λ c. ltb_ℤ e c.id) rows ≡ true
    → all (λ c. ltb_ℤ d c.id) rows ≡ true
all_after d e [] lt h = refl
all_after d e (b ∷ rows) lt h =
    let (here, rest) = &&-true (ltb_ℤ e b.id) (all (λ c. ltb_ℤ e c.id) rows) h in
    ground (arith, lt, here, all_after d e rows lt rest)

last_id_ge :
    (d e : ℤ) (rows : List BookmarkRow)
    → leb_ℤ d e ≡ true
    → all (λ c. ltb_ℤ d c.id) rows ≡ true
    → leb_ℤ d (last_id e rows) ≡ true
unfolding last_id
last_id_ge d e [] le h = le
last_id_ge d e (b ∷ rows) le h =
    let (here, rest) = &&-true (ltb_ℤ d b.id) (all (λ c. ltb_ℤ d c.id) rows) h in
    last_id_ge d b.id rows (ground (arith, here)) rest

after_in :
    (d : ℤ) (b : BookmarkRow) (rows : List BookmarkRow)
    → ltb_ℤ d b.id ≡ true
    → after d (b ∷ rows) ≡ b ∷ after d rows
after_in d b rows h = rw (keep, h) refl

after_out :
    (d : ℤ) (b : BookmarkRow) (rows : List BookmarkRow)
    → ltb_ℤ d b.id ≡ false
    → after d (b ∷ rows) ≡ after d rows
after_out d b rows h = rw (keep, h) refl

-- What comes after the last id of a batch is what the batch has left.
pub after-last_id :
    (n : ℕ) (last : ℤ) (rows : List BookmarkRow)
    → Ascending rows
    → after (last_id last (take n (after last rows))) rows ≡ drop n (after last rows)
unfolding last_id
after-last_id zero last rows asc = refl
after-last_id (suc n) last [] asc = refl
after-last_id (suc n) last (b ∷ rows) (first, asc) = elim (Bool-cases (ltb_ℤ last b.id)) [
  | inl later ↦
      let whole : after last rows ≡ rows = keep-all _ rows (all_after last b.id rows later first) in
      let left : after b.id rows ≡ rows = keep-all _ rows first in
      let given : after last (b ∷ rows) ≡ b ∷ rows =
        after_in last b rows later ∙ ap (λ r. b ∷ r) whole in
      let z : ℤ = last_id b.id (take n rows) in
      let low : leb_ℤ b.id z ≡ true =
        last_id_ge b.id b.id (take n rows) (ground arith) (all-take _ n rows first) in
      let rest : after z rows ≡ drop n rows =
        subst (λ r. after (last_id b.id (take n r)) rows ≡ drop n r) left
          (after-last_id n b.id rows asc) in
      ap (λ r. after (last_id last (take (suc n) r)) (b ∷ rows)) given
      ∙ after_out z b rows (ground (arith, low))
      ∙ rest
      ∙ sym (ap (drop (suc n)) given)
  | inr past ↦
      let given : after last (b ∷ rows) ≡ after last rows = after_out last b rows past in
      let z : ℤ = last_id last (take (suc n) (after last rows)) in
      let low : leb_ℤ last z ≡ true =
        last_id_ge last last (take (suc n) (after last rows)) (ground arith)
          (all-take _ (suc n) (after last rows) (all-keep (λ c. ltb_ℤ last c.id) rows)) in
      ap (λ r. after (last_id last (take (suc n) r)) (b ∷ rows)) given
      ∙ after_out z b rows (ground (arith, low, past))
      ∙ after-last_id (suc n) last rows asc
      ∙ sym (ap (drop (suc n)) given)
]
