-- ===== src/Domain/ListQuery/Sorting.antt =====
-- The sort of tag names: its result is sorted, and a sorted list stays as it is.
use hateblog_backend.Common.{
  ◌≡◌, refl, inl, inr, true, false, List, [], ◌∷◌, arith, Bool-cases, Bytes,
}
use mathlib.Core.List.{Perm}
use mathlib.Core.List.Perm
use hateblog_backend.Domain.ListQuery.{bytes_leb, insert, sort_strings}

abbrev pub IsSorted : List Bytes → Type 0
IsSorted [] = Unit
IsSorted (x ∷ []) = Unit
IsSorted (x ∷ y ∷ ys) = (bytes_leb x y ≡ true) × IsSorted (y ∷ ys)

bytes_leb_total : (s t : Bytes) → bytes_leb s t ≡ false → bytes_leb t s ≡ true
unfolding bytes_leb
bytes_leb_total [] t h = cc
bytes_leb_total (a ∷ s) [] h = refl
bytes_leb_total (a ∷ s) (b ∷ t) h = ground (arith, bytes_leb_total s t)

insert-IsSorted : (x : Bytes) (ys : List Bytes) → IsSorted ys → IsSorted (insert x ys)
unfolding insert
insert-IsSorted x [] h = tt
insert-IsSorted x (y ∷ []) h = ground (arith, bytes_leb_total x y)
insert-IsSorted x (y ∷ z ∷ zs) (h, k) =
    ground (arith, bytes_leb_total x y, bytes_leb_total x z, insert-IsSorted x (z ∷ zs) k)

pub sort_strings-IsSorted : (xs : List Bytes) → IsSorted (sort_strings xs)
unfolding sort_strings
sort_strings-IsSorted [] = tt
sort_strings-IsSorted (x ∷ xs) = insert-IsSorted x (sort_strings xs) (sort_strings-IsSorted xs)

insert-perm : (x : Bytes) (ys : List Bytes) → Perm (insert x ys) (x ∷ ys)
unfolding insert
insert-perm x [] = Perm.refl (x ∷ [])
insert-perm x (y ∷ ys) = elim (Bool-cases (bytes_leb x y)) [
  | inl le ↦ rw le (Perm.refl (x ∷ y ∷ ys))
  | inr gt ↦ rw gt (Perm.trans (Perm.cons y (insert-perm x ys)) (Perm.swap x y ys))
]

pub sort_strings-perm : (xs : List Bytes) → Perm (sort_strings xs) xs
unfolding sort_strings
sort_strings-perm [] = Perm.refl []
sort_strings-perm (x ∷ xs) =
    Perm.trans (insert-perm x (sort_strings xs)) (Perm.cons x (sort_strings-perm xs))

IsSorted-tail : (x : Bytes) (xs : List Bytes) → IsSorted (x ∷ xs) → IsSorted xs
IsSorted-tail x [] h = tt
IsSorted-tail x (y ∷ ys) h = h.1

pub sort_strings_of_IsSorted : (xs : List Bytes) → IsSorted xs → sort_strings xs ≡ xs
unfolding sort_strings insert
sort_strings_of_IsSorted [] h = refl
sort_strings_of_IsSorted (x ∷ []) h = refl
sort_strings_of_IsSorted (x ∷ y ∷ ys) (h, k) = rw (sort_strings_of_IsSorted (y ∷ ys) k, h)
